-- ===== src/UvmVa/Owned.antt =====
-- What each call does to the ranges that the handles own.
use nvkvm_pv.Base.{
  ℕ, zero, suc, ◌+◌, ◌≤◌, ◌<◌, ◌≡◌, ◌≢◌, refl, Bool, true, false, ◌&&◌, Option, none, some,
  if◌then◌else◌, ◌==◌, ==-true, arith, inl, inr, ◌⊎◌, Bool-cases, sum_below,
}
use nvkvm_pv.Base.Words.{add64}
use nvkvm_pv.UvmVa.Ranges.{
  VaEnt, Ranges, uvm_va_max, find_ent, is_range, put_at, add_unless, uvm_va_add, is_covering,
  is_some, uvm_va_covers, len_of, uvm_va_len_at, freed, free_all, is_within, uvm_va_drop,
  uvm_va_purge_handle,
}

-- A range that is recorded for a handle.
pub record Owns (t : Ranges) (handle base len : ℕ) : Type 0 where
  pub index : ℕ
  pub in_table : index < uvm_va_max
  pub matches : is_range handle base len (t.ent index) ≡ true

abbrev pub taken : VaEnt → ℕ
taken e = if e.handle_id == 0 then 0 else 1

-- The counter is right.
abbrev pub IsCounted : Ranges → Type 0
IsCounted t = t.va_used ≡ sum_below uvm_va_max taken t.ent

pub find_ent-some :
    (k i : ℕ) (test : VaEnt → Bool) (ent : ℕ → VaEnt) (j : ℕ)
    → find_ent k i test ent ≡ some j
    → (j < i + k) × (test (ent j) ≡ true)
unfolding find_ent
find_ent-some zero i test ent j h = cc
find_ent-some (suc k) i test ent j h = elim (Bool-cases (test (ent i))) [
  | inl b ↦
      let z : ◌≡◌ {A = Option ℕ} (some i) (some j) = rw b at h in
      let q : i ≡ j = cc in (omega arith, rw (← q) b)
  | inr b ↦ let (x, y) = find_ent-some k (suc i) test ent j (rw b at h) in (omega arith, y)
]

-- Where nothing is found, no entry passes.
pub find_ent-none :
    (k i : ℕ) (test : VaEnt → Bool) (ent : ℕ → VaEnt)
    → find_ent k i test ent ≡ none
    → (j : ℕ) → i ≤ j
    → j < i + k
    → test (ent j) ≡ false
unfolding find_ent
find_ent-none zero i test ent h j l m = absurd (omega arith)
find_ent-none (suc k) i test ent h j l m = elim (Bool-cases (test (ent i))) [
  | inl b ↦ let z : ◌≡◌ {A = Option ℕ} (some i) none = rw b at h in cc
  | inr b ↦ elim (Bool-cases (i == j)) [
    | inl e ↦ let q : i ≡ j = ==-true _ _ e in rw q at b
    | inr e ↦ find_ent-none k (suc i) test ent (rw b at h) j (ground arith) (omega arith)
  ]
]

pub find_ent-none_of :
    (k i : ℕ) (test : VaEnt → Bool) (ent : ℕ → VaEnt)
    → ((j : ℕ) → test (ent j) ≡ false)
    → find_ent k i test ent ≡ none
unfolding find_ent
find_ent-none_of zero i test ent h = refl
find_ent-none_of (suc k) i test ent h = rw (h i) (find_ent-none_of k (suc i) test ent h)

-- One of the ranges after a change was one before, or it is the new one.
pub uvm_va_add-Owns :
    (t : Ranges) (handle base len h b l : ℕ)
    → h ≢ 0
    → Owns (uvm_va_add t handle base len).1 h b l
    → Owns t h b l ⊎ ((h ≡ handle) × (b ≡ base) × (l ≡ len))
unfolding uvm_va_add
uvm_va_add-Owns t handle base len h b l z o =
    of (find_ent uvm_va_max 0 (is_range handle base len) t.ent) refl o
  where
    put :
        (f : Option ℕ)
        → Owns (put_at t handle base len f).1 h b l
        → Owns t h b l ⊎ ((h ≡ handle) × (b ≡ base) × (l ≡ len))
    put none o = inl o
    put (some i) o = elim (Bool-cases (i == o.index)) [
      | inl e ↦
          let m : is_range h b l (record { handle_id = handle; base = base; va_len = len }) ≡ true =
            rw e at o.matches in
          inr (ground arith, ground arith, ground arith)
      | inr e ↦
          let m : is_range h b l (t.ent o.index) ≡ true = rw e at o.matches in
          inl (record { index = o.index; in_table = o.in_table; matches = m })
    ]

    of :
        (f : Option ℕ)
        → find_ent uvm_va_max 0 (is_range handle base len) t.ent ≡ f
        → Owns (add_unless t handle base len f).1 h b l
        → Owns t h b l ⊎ ((h ≡ handle) × (b ≡ base) × (l ≡ len))
    of (some i) e o = inl o
    of none e o = put (find_ent uvm_va_max 0 (λ x. x.handle_id == 0) t.ent) o

-- An end of ranges that pass a test leaves those that do not.
free_all-Owns :
    (k i : ℕ) (test : VaEnt → Bool) (t : Ranges) (h b l : ℕ)
    → h ≢ 0
    → i + k ≡ uvm_va_max
    → ((j : ℕ) → j < i → (t.ent j).handle_id ≡ h → test (t.ent j) ≡ false)
    → Owns (free_all k i test t) h b l
    → Owns t h b l × (test (record { handle_id = h; base = b; va_len = l }) ≡ false)
unfolding free_all
free_all-Owns zero i test t h b l z e p o = (
  o,
  let q : t.ent o.index ≡ record { handle_id = h; base = b; va_len = l } =
        ground (arith, o.matches) in
      rw (← q) (p o.index (omega (arith, o.in_table)) (ground (arith, o.matches))),
)
free_all-Owns (suc k) i test t h b l z e p o = elim (Bool-cases (test (t.ent i))) [
  | inl x ↦
      let (o', n) =
        free_all-Owns k (suc i) test (freed t i) h b l z (omega arith) (after x) (rw x at o) in
      (kept o', n)
  | inr x ↦ free_all-Owns k (suc i) test t h b l z (omega arith) (with_this x) (rw x at o)
]
  where
    with_this :
        test (t.ent i) ≡ false
        → (j : ℕ) → j < suc i
        → (t.ent j).handle_id ≡ h
        → test (t.ent j) ≡ false
    with_this x j m s = elim (Bool-cases (j == i)) [
      | inl y ↦ let q : j ≡ i = ==-true _ _ y in rw q x
      | inr y ↦ p j (ground arith) s
    ]

    after :
        test (t.ent i) ≡ true
        → (j : ℕ) → j < suc i
        → ((freed t i).ent j).handle_id ≡ h
        → test ((freed t i).ent j) ≡ false
    after x j m s = elim (Bool-cases (i == j)) [
      | inl y ↦ absurd (z (let w : 0 ≡ h = rw y at s in omega arith))
      | inr y ↦ rw y (p j (ground arith) (rw y at s))
    ]

    kept : Owns (freed t i) h b l → Owns t h b l
    kept o' = elim (Bool-cases (i == o'.index)) [
      | inl y ↦
          let m : is_range h b l (record (t.ent i) { handle_id = 0 }) ≡ true = rw y at o'.matches in
          absurd (z (ground arith))
      | inr y ↦
          let m : is_range h b l (t.ent o'.index) ≡ true = rw y at o'.matches in
          record { index = o'.index; in_table = o'.in_table; matches = m }
    ]

-- What covers a range.
pub uvm_va_covers-Owns :
    (t : Ranges) (handle base len : ℕ)
    → uvm_va_covers t handle base len ≡ true
    → (b : ℕ) × (l : ℕ) × Owns t handle b l × (b ≤ base) × (add64 base len ≤ add64 b l)
unfolding uvm_va_covers
uvm_va_covers-Owns t handle base len h =
    of (find_ent uvm_va_max 0 (is_covering handle base len) t.ent) refl h
  where
    of :
        (f : Option ℕ)
        → find_ent uvm_va_max 0 (is_covering handle base len) t.ent ≡ f
        → is_some f ≡ true
        → (b : ℕ) × (l : ℕ) × Owns t handle b l × (b ≤ base) × (add64 base len ≤ add64 b l)
    of none e k = cc
    of (some i) e k =
        let (x, y) = find_ent-some uvm_va_max 0 (is_covering handle base len) t.ent i e in
        (
          (t.ent i).base,
          (t.ent i).va_len,
          record { index = i; in_table = omega arith; matches = ground arith },
          ground arith,
          ground arith,
        )

-- A length that was looked up is 0 or that of a range that starts there.
pub uvm_va_len_at-Owns :
    (t : Ranges) (handle base : ℕ)
    → (uvm_va_len_at t handle base ≡ 0) ⊎ Owns t handle base (uvm_va_len_at t handle base)
unfolding uvm_va_len_at
uvm_va_len_at-Owns t handle base =
    of (find_ent uvm_va_max 0 (λ e. e.handle_id == handle && e.base == base) t.ent) refl
  where
    of :
        (f : Option ℕ)
        → find_ent uvm_va_max 0 (λ e. e.handle_id == handle && e.base == base) t.ent ≡ f
        → (len_of t.ent f ≡ 0) ⊎ Owns t handle base (len_of t.ent f)
    of none e = inl refl
    of (some i) e =
        let (x, y) =
          find_ent-some uvm_va_max 0 (λ z. z.handle_id == handle && z.base == base) t.ent i e in
        inr (record { index = i; in_table = omega arith; matches = ground arith })

pub uvm_va_drop-Owns :
    (t : Ranges) (handle base len h b l : ℕ)
    → h ≢ 0
    → Owns (uvm_va_drop t handle base len) h b l
    → Owns t h b l
      × (is_within handle base len (record { handle_id = h; base = b; va_len = l }) ≡ false)
unfolding uvm_va_drop
uvm_va_drop-Owns t handle base len h b l z o =
    free_all-Owns uvm_va_max 0 (is_within handle base len) t h b l z (omega arith)
      (λ j m. absurd (omega arith)) o

pub uvm_va_purge_handle-Owns :
    (t : Ranges) (handle h b l : ℕ)
    → handle ≢ 0
    → h ≢ 0
    → Owns (uvm_va_purge_handle t handle) h b l
    → Owns t h b l × ((h == handle) ≡ false)
unfolding uvm_va_purge_handle
uvm_va_purge_handle-Owns t handle h b l n z o =
    let f : (handle == 0) ≡ false = ground arith in
    free_all-Owns uvm_va_max 0 (λ e. e.handle_id == handle) t h b l z (omega arith)
      (λ j m. absurd (omega arith)) (rw f at o)
