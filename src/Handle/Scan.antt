-- ===== src/Handle/Scan.antt =====
-- The search of `alloc_slot` for a free slot.
use nvkvm_pv.Base.{
  ℕ, zero, suc, ◌+◌, ◌-◌, ◌≤◌, ◌<◌, ◌≡◌, refl, true, false, inl, inr, sym, ap, subst, ◌∙◌, none,
  some, if◌then◌else◌, ltb, leb, update, arith, Bool-cases,
}
use native.Mathlib.Nat.{mod-eq_of_lt}
use nvkvm_pv.Handle.Os.{Table, handle_max, cleared}
use nvkvm_pv.Handle.Alloc.{after_id, after_generation, claim, scan, alloc_slot}

abbrev pub InRange : ℕ → Type 0
InRange id = (1 ≤ id) × (id < handle_max)

-- What `alloc_slot` has done when it returned a slot.
pub record Claimed (t : Table) (id : ℕ) (u : Table) : Type 0 where
  pub range : InRange id
  pub was_free : (t.handles id).in_use ≡ false
  pub content :
      (i : ℕ)
      → u.handles i
        ≡ update t.handles id
            (record cleared { id = id; generation = t.next_generation; in_use = true })
            i
  pub next : InRange u.next_id
  pub generation : u.next_generation ≡ after_generation t.next_generation
  pub closed : u.closed ≡ t.closed

after_id-InRange : (id : ℕ) → InRange id → InRange (after_id id)
after_id-InRange id h = ground arith

claim-Claimed :
    (t : Table) (id : ℕ)
    → InRange id
    → (t.handles id).in_use ≡ false
    → Claimed t id (claim (record t { next_id = after_id id }) id)
unfolding claim
claim-Claimed t id r e = record {
  range = r;
  was_free = e;
  content = λ i. ground arith;
  next = after_id-InRange id r;
  generation = refl;
  closed = refl;
}

moved-Claimed : (t u : Table) (id n : ℕ) → Claimed (record t { next_id = n }) id u → Claimed t id u
moved-Claimed t u id n c = record {
  range = c.range;
  was_free = c.was_free;
  content = c.content;
  next = c.next;
  generation = c.generation;
  closed = c.closed;
}

-- One round of the search, at a slot that is taken and at one that is free.
abbrev moved : Table → Table
moved t = record t { next_id = after_id t.next_id }

scan_busy :
    (k : ℕ) (t : Table)
    → InRange t.next_id
    → (t.handles t.next_id).in_use ≡ true
    → scan (suc k) t ≡ scan k (moved t)
unfolding scan
scan_busy k t r e = rw (mod-eq_of_lt r.1, e, scan) (ground arith)

scan_idle :
    (k : ℕ) (t : Table)
    → InRange t.next_id
    → (t.handles t.next_id).in_use ≡ false
    → scan (suc k) t ≡ (some t.next_id, claim (moved t) t.next_id)
unfolding scan
scan_idle k t r e = rw (mod-eq_of_lt r.1, e, scan) (ground arith)

pub scan-Claimed :
    (k : ℕ) (t : Table) (id : ℕ)
    → InRange t.next_id
    → (scan k t).0 ≡ some id
    → Claimed t id (scan k t).1
unfolding scan
scan-Claimed zero t id r e = ground arith
scan-Claimed (suc k) t id r e = elim (Bool-cases (t.handles t.next_id).in_use) [
  | inl busy ↦ rw (scan_busy k t r busy) (
      moved-Claimed t (scan k (moved t)).1 id (after_id t.next_id) (
        scan-Claimed k (moved t) id (after_id-InRange t.next_id r)
          (sym (ap (λ p. p.0) (scan_busy k t r busy)) ∙ e)))
  | inr idle ↦ rw (scan_idle k t r idle) (
      subst (λ j. Claimed t j (claim (moved t) t.next_id)) (cc (scan_idle k t r idle))
        (claim-Claimed t t.next_id r idle))
]

-- The `j`-th index that the search looks at.
abbrev around : ℕ → ℕ → ℕ
around n j = if ltb (n + j) handle_max then n + j else n + j - (handle_max - 1)

around-after_id :
    (n j : ℕ) → InRange n → suc j < handle_max → around (after_id n) j ≡ around n (suc j)
around-after_id n j r h = ground arith

scan-none_busy :
    (k j : ℕ) (t : Table)
    → InRange t.next_id
    → (scan k t).0 ≡ none
    → j < k
    → j < handle_max - 1
    → (t.handles (around t.next_id j)).in_use ≡ true
scan-none_busy zero j t r e h b = absurd (omega arith)
scan-none_busy (suc k) zero t r e h b = elim (Bool-cases (t.handles t.next_id).in_use) [
  | inl busy ↦ ground arith
  | inr idle ↦ cc (scan_idle k t r idle)
]
scan-none_busy (suc k) (suc i) t r e h b = elim (Bool-cases (t.handles t.next_id).in_use) [
  | inl busy ↦ rw (← around-after_id t.next_id i r (omega arith)) (
      scan-none_busy k i (moved t) (after_id-InRange t.next_id r)
        (sym (ap (λ p. p.0) (scan_busy k t r busy)) ∙ e) (omega arith) (omega arith))
  | inr idle ↦ cc (scan_idle k t r idle)
]

around_back :
    (n id : ℕ) → InRange n → InRange id → (j : ℕ) × (j < handle_max - 1) × (around n j ≡ id)
around_back n id r s =
    ((if leb n id then id - n else id + (handle_max - 1) - n), ground arith, ground arith)

-- `alloc_slot` returns no slot only if every handle id is taken: the search misses none.
pub alloc_slot-none :
    (t : Table)
    → InRange t.next_id
    → (alloc_slot t).0 ≡ none
    → (id : ℕ) → InRange id
    → (t.handles id).in_use ≡ true
unfolding alloc_slot
alloc_slot-none t r e id s =
    let (j, b, a) = around_back t.next_id id r s in
    rw (← a) (scan-none_busy handle_max j t r e (omega arith) b)

pub alloc_slot-Claimed :
    (t : Table) (id : ℕ)
    → InRange t.next_id
    → (alloc_slot t).0 ≡ some id
    → Claimed t id (alloc_slot t).1
unfolding alloc_slot
alloc_slot-Claimed t id r e = scan-Claimed handle_max t id r e

-- A search that fails changes nothing but `next_id`.
pub record Unclaimed (t u : Table) : Type 0 where
  pub content : (i : ℕ) → u.handles i ≡ t.handles i
  pub next : InRange u.next_id
  pub generation : u.next_generation ≡ t.next_generation
  pub closed : u.closed ≡ t.closed

scan-Unclaimed :
    (k : ℕ) (t : Table) → InRange t.next_id → (scan k t).0 ≡ none → Unclaimed t (scan k t).1
unfolding scan
scan-Unclaimed zero t r e = record {
  content = λ i. refl;
  next = r;
  generation = refl;
  closed = refl;
}
scan-Unclaimed (suc k) t r e = elim (Bool-cases (t.handles t.next_id).in_use) [
  | inl busy ↦
      let rest =
        scan-Unclaimed k (moved t) (after_id-InRange t.next_id r)
          (sym (ap (λ p. p.0) (scan_busy k t r busy)) ∙ e) in
      rw (scan_busy k t r busy) (record {
        content = rest.content;
        next = rest.next;
        generation = rest.generation;
        closed = rest.closed;
      })
  | inr idle ↦ cc (scan_idle k t r idle)
]

pub alloc_slot-Unclaimed :
    (t : Table) → InRange t.next_id → (alloc_slot t).0 ≡ none → Unclaimed t (alloc_slot t).1
unfolding alloc_slot
alloc_slot-Unclaimed t r e = scan-Unclaimed handle_max t r e

-- At a free `next_id` the search stops at once.
pub alloc_slot_idle :
    (t : Table)
    → InRange t.next_id
    → (t.handles t.next_id).in_use ≡ false
    → (alloc_slot t).0 ≡ some t.next_id
unfolding alloc_slot
alloc_slot_idle t r e = ap (λ p. p.0) (scan_idle 65535 t r e)
