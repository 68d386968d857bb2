-- ===== src/UvmVa/Counts.antt =====
-- The counter of the table is right, and what becomes of a creation that the driver accepted.
use nvkvm_pv.Base.{
  ℕ, zero, suc, ◌+◌, ◌≤◌, ◌≡◌, ◌≢◌, refl, Bool, true, false, Option, none, some, ◌==◌, arith, inl,
  inr, ◌⊎◌, Bool-cases, All, All-get_elem?, sum_below-update, sum_below-zero, sum_below-ones,
}
use nvkvm_pv.UvmVa.Ranges.{
  VaEnt, Ranges, uvm_va_max, find_ent, is_range, put_at, add_unless, uvm_va_add, freed, free_all,
  is_within, uvm_va_drop, uvm_va_purge_handle,
}
use nvkvm_pv.UvmVa.Gate.{VaMode, create, use_range, free, recorded}
use nvkvm_pv.UvmVa.Events.{
  Served, Step, look, admit, accept, leave, purge, Reach, here, next, fresh, asked,
}
use nvkvm_pv.UvmVa.Owned.{Owns, taken, IsCounted, find_ent-some, find_ent-none}
use nvkvm_pv.UvmVa.Calls.{IsFair, Reach-IsFair}

-- An addition counts what it records; it records the range, or the table is full and stays.
abbrev pub Added : Ranges → ℕ → ℕ → ℕ → Bool × Ranges → Type 0
Added t handle base len r =
    ((r.0 ≡ true) × Owns r.1 handle base len) ⊎ ((r ≡ (false, t)) × (t.va_used ≡ uvm_va_max))

uvm_va_add-IsCounted :
    (t : Ranges) (handle base len : ℕ)
    → handle ≢ 0
    → IsCounted t
    → IsCounted (uvm_va_add t handle base len).1
      × Added t handle base len (uvm_va_add t handle base len)
unfolding uvm_va_add
uvm_va_add-IsCounted t handle base len z c =
    of (find_ent uvm_va_max 0 (is_range handle base len) t.ent) refl
  where
    put :
        (f : Option ℕ)
        → find_ent uvm_va_max 0 (λ e. e.handle_id == 0) t.ent ≡ f
        → IsCounted (put_at t handle base len f).1
          × Added t handle base len (put_at t handle base len f)
    put none e = (
      c,
      let full = sum_below-ones taken uvm_va_max t.ent (λ j m. ground (
        arith,
        find_ent-none uvm_va_max 0 (λ x. x.handle_id == 0) t.ent e j (omega arith) (omega arith),
      )) in
          inr (refl, omega (arith, full)),
    )
    put (some i) e =
        let (m, y) = find_ent-some uvm_va_max 0 (λ x. x.handle_id == 0) t.ent i e in
        let r : VaEnt = record { handle_id = handle; base = base; va_len = len } in
        let old : taken (t.ent i) ≡ 0 = ground arith in
        let new : taken r ≡ 1 = ground arith in
        (
          omega (arith, sum_below-update taken uvm_va_max i t.ent r (omega arith)),
          inl (refl, record { index = i; in_table = omega arith; matches = ground arith }),
        )

    of :
        (f : Option ℕ)
        → find_ent uvm_va_max 0 (is_range handle base len) t.ent ≡ f
        → IsCounted (add_unless t handle base len f).1
          × Added t handle base len (add_unless t handle base len f)
    of none e = put (find_ent uvm_va_max 0 (λ x. x.handle_id == 0) t.ent) refl
    of (some i) e =
        let (m, y) = find_ent-some uvm_va_max 0 (is_range handle base len) t.ent i e in
        (c, inl (refl, record { index = i; in_table = omega arith; matches = y }))

free_all-IsCounted :
    (k i : ℕ) (test : VaEnt → Bool) (t : Ranges)
    → i + k ≤ uvm_va_max
    → ((e : VaEnt) → test e ≡ true → e.handle_id ≢ 0)
    → IsCounted t
    → IsCounted (free_all k i test t)
unfolding free_all
free_all-IsCounted zero i test t l h c = c
free_all-IsCounted (suc k) i test t l h c = elim (Bool-cases (test (t.ent i))) [
  | inl b ↦
      let sums =
        sum_below-update taken uvm_va_max i t.ent (record (t.ent i) { handle_id = 0 })
          (omega arith) in
      let one : taken (t.ent i) ≡ 1 = ground (arith, h (t.ent i) b) in
      rw (b, free_all)
        (free_all-IsCounted k (suc i) test (freed t i) (omega arith) h (ground (arith, sums, one)))
  | inr b ↦ rw (b, free_all) (free_all-IsCounted k (suc i) test t (omega arith) h c)
]

purge-IsCounted :
    (t : Ranges) (handle : ℕ) → handle ≢ 0 → IsCounted t → IsCounted (uvm_va_purge_handle t handle)
unfolding uvm_va_purge_handle
purge-IsCounted t handle z c =
    let f : (handle == 0) ≡ false = ground arith in
    rw f (
      free_all-IsCounted uvm_va_max 0 (λ e. e.handle_id == handle) t (omega arith)
        (λ e h. ground arith) c)

recorded-IsCounted :
    (t : Ranges) (handle : ℕ) (mode : VaMode) (base len : ℕ)
    → handle ≢ 0
    → IsCounted t
    → IsCounted (recorded t handle mode base len)
unfolding recorded uvm_va_drop
recorded-IsCounted t handle create base len z c = (uvm_va_add-IsCounted t handle base len z c).0
recorded-IsCounted t handle use_range base len z c = c
recorded-IsCounted t handle free base len z c =
    free_all-IsCounted uvm_va_max 0 (is_within handle base len) t (omega arith)
      (λ e h. ground arith) c

Step-IsCounted :
    {s t : Served} → Step s t → All IsFair s.workers → IsCounted s.table → IsCounted t.table
Step-IsCounted {s} (look q z) f c = c
Step-IsCounted {s} (admit k q len g h) f c = c
Step-IsCounted {s} (accept k q len g) f c =
    recorded-IsCounted s.table q.handle_id q.mode q.va_base len
      (All-get_elem? IsFair s.workers k (asked q len) f g).0.0 c
Step-IsCounted {s} (leave k) f c = c
Step-IsCounted {s} (purge handle n) f c = purge-IsCounted s.table handle n c

Reach-IsCounted : {s : Served} → Reach fresh s → IsCounted s.table
Reach-IsCounted here = omega (arith, sum_below-zero taken uvm_va_max fresh.table.ent (λ i. refl))
Reach-IsCounted (next r st) = Step-IsCounted st (Reach-IsFair r) (Reach-IsCounted r)

-- Over any interleaving of the parts of commands and of ends of address spaces, the record of a
-- creation for an open handle succeeds, and the handle owns the range, or it fails with no change
-- of the table, and then the counter stands at its limit of 16384.
pub Reach-recorded :
    (s : Served) (handle base len : ℕ)
    → Reach fresh s
    → handle ≢ 0
    → (((uvm_va_add s.table handle base len).0 ≡ true)
        × Owns (uvm_va_add s.table handle base len).1 handle base len)
      ⊎ ((uvm_va_add s.table handle base len ≡ (false, s.table)) × (s.table.va_used ≡ uvm_va_max))
Reach-recorded s handle base len r z =
    (uvm_va_add-IsCounted s.table handle base len z (Reach-IsCounted r)).1
