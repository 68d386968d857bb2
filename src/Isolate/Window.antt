-- ===== src/Isolate/Window.antt =====
-- The window of user ids against the map of the namespace.
use nvkvm_pv.Base.{
  ℕ, ◌+◌, ◌-◌, ◌%◌, ◌^◌, ◌≤◌, ◌<◌, ◌≡◌, refl, sym, subst, ◌⊎◌, inl, inr, Bool, true, false, not,
  Option, none, some, List, [], ◌∷◌, if◌then◌else◌, ltb, leb, ◌==◌, arith, All, Bool-cases, ==-true,
}
use nvkvm_pv.Base.Words.{add64, sub64}
use nvkvm_pv.Isolate.Uids.{
  UidMap, largest, uidmap_of, uidmap_get, uidmap_fits, uidmap_place, uid_slots, uid_top,
  uid_base_min, uid_base_default,
}
use nvkvm_pv.Isolate.Config.{mapped_base}

-- What the kernel writes into the file: ranges of 32-bit numbers, which start below 2^31 - 1.
abbrev pub IsRange : ℕ × ℕ → Type 0
IsRange r = (r.0 ≤ uid_top) × (r.0 + r.1 ≤ 2 ^ 32)

abbrev pub AreRanges : Option (List (ℕ × ℕ)) → Type 0
AreRanges none = Unit
AreRanges (some rs) = All IsRange rs

pub record IsMap (m : UidMap) : Type 0 where
  pub order : m.lo ≤ m.hi
  pub top : m.hi ≤ uid_top

largest-IsRange :
    (rs : List (ℕ × ℕ)) (b : ℕ × ℕ) → All IsRange rs → IsRange b → IsRange (largest rs b)
largest-IsRange [] b v w = w
largest-IsRange (r ∷ rs) b (u, v) w =
    largest-IsRange rs (if ltb b.1 r.1 then r else b) v (by_test (ltb b.1 r.1))
  where
    by_test : (t : Bool) → IsRange (if t then r else b)
    by_test true = u
    by_test false = w

uidmap_of-IsMap : (rs : List (ℕ × ℕ)) → All IsRange rs → IsMap (uidmap_of rs)
unfolding uidmap_of
uidmap_of-IsMap rs v =
    let best : ℕ × ℕ = largest rs (0, 0) in
    let w : IsRange best = largest-IsRange rs (0, 0) v (omega arith, omega arith) in
    elim (Bool-cases (best.1 == 0)) [
      | inl c ↦ rw c (record { order = omega arith; top = omega arith })
      | inr c ↦ rw c (record { order = ground arith; top = ground arith })
    ]

pub uidmap_get-IsMap : (o : Option (List (ℕ × ℕ))) → AreRanges o → IsMap (uidmap_get o)
uidmap_get-IsMap none v = record { order = omega arith; top = omega arith }
uidmap_get-IsMap (some rs) v = uidmap_of-IsMap rs v

-- A window lies in a map.
abbrev pub Maps : UidMap → ℕ → Type 0
Maps m base = (m.lo ≤ base) × (base + 4095 ≤ m.hi)

fits-Maps : (m : UidMap) (base : ℕ) → IsMap m → uidmap_fits m base uid_slots ≡ true → Maps m base
unfolding uidmap_fits
fits-Maps m base v h = ground (arith, v.top)

Maps-fits :
    (m : UidMap) (base : ℕ) → IsMap m → Maps m base → 1 ≤ base → uidmap_fits m base uid_slots ≡ true
unfolding uidmap_fits
Maps-fits m base v h p = ground (arith, v.top)

abbrev top_base : UidMap → ℕ
top_base m =
    (if leb (m.hi - 4095) m.lo then (if not (m.lo == 0) then m.lo else 1) else m.hi - 4095) % 2 ^ 32

top_placed :
    (m : UidMap)
    → IsMap m
    → m.lo + 4095 ≤ m.hi
    → (Maps m (top_base m) × (m.hi ≡ top_base m + 4095) × (1 ≤ top_base m))
      ⊎ ((top_base m ≡ 1) × (m.hi ≡ 4095))
top_placed m v l = ground (arith, v.top)

-- A place is in the map, but for a map of exactly 0 to 4095; there is none exactly if the map is
-- too small.
place-Maps :
    (m : UidMap)
    → IsMap m
    → ((uidmap_place m uid_slots ≡ 0) × (m.hi < m.lo + 4095))
      ⊎ (Maps m (uidmap_place m uid_slots)
          × (m.hi ≡ uidmap_place m uid_slots + 4095)
          × (1 ≤ uidmap_place m uid_slots))
      ⊎ ((uidmap_place m uid_slots ≡ 1) × (m.hi ≡ 4095))
unfolding uidmap_place
place-Maps m v =
    let r : add64 (sub64 m.hi m.lo) 1 ≡ m.hi - m.lo + 1 = omega (arith, v.order, v.top) in
    elim (Bool-cases (ltb (m.hi - m.lo + 1) uid_slots)) [
      | inl a ↦ rw (r, a) (inl (refl, ground (arith, v.order)))
      | inr a ↦
          let l : m.lo + 4095 ≤ m.hi = ground (arith, v.order) in
          let b : add64 (sub64 m.hi uid_slots) 1 ≡ m.hi - 4095 = omega (arith, v.top) in
          rw (r, a, b) (inr (top_placed m v l))
    ]

placed_or :
    (p base b : ℕ)
    → (if p == 0 then some base else some p) ≡ some b
    → ((p ≡ 0) × (base ≡ b)) ⊎ (p ≡ b)
placed_or p base b h = elim (Bool-cases (p == 0)) [
  | inl z ↦ let q : some base ≡ some b = rw z at h in inl (==-true p 0 z, cc)
  | inr z ↦ let q : some p ≡ some b = rw z at h in inr cc
]

-- The base that is used: a validated one lies in the map, unless the map is too small for any.
pub mapped_base-Maps :
    (m : UidMap) (base b : ℕ) (explicit : Bool)
    → IsMap m
    → uid_base_min ≤ b
    → mapped_base m base explicit ≡ some b
    → Maps m b ⊎ ((m.hi < m.lo + 4095) × (b ≡ base) × (explicit ≡ false))
unfolding mapped_base
mapped_base-Maps m base b explicit v l h = elim (Bool-cases (uidmap_fits m base uid_slots)) [
  | inl f ↦
      let q : some base ≡ some b = rw f at h in
      let e : base ≡ b = cc in inl (subst (Maps m) e (fits-Maps m base v f))
  | inr f ↦ unfit explicit (rw f at h)
]
  where
    unfit :
        (x : Bool)
        → (if x
            then none
            else if uidmap_place m uid_slots == 0
            then some base
            else some (uidmap_place m uid_slots))
          ≡ some b
        → Maps m b ⊎ ((m.hi < m.lo + 4095) × (b ≡ base) × (x ≡ false))
    unfit true h = cc
    unfit false h = elim (placed_or (uidmap_place m uid_slots) base b h) [
      | inl (z, e) ↦ elim (place-Maps m v) [
        | inl (_, n) ↦ inr (n, sym e, refl)
        | inr (inl (a, n, g)) ↦ absurd (omega (arith, v.top, v.order))
        | inr (inr (o, n)) ↦ absurd (omega arith)
      ]
      | inr e ↦ elim (place-Maps m v) [
        | inl (z, n) ↦ absurd (omega arith)
        | inr (inl (a, n, g)) ↦ inl (subst (Maps m) e a)
        | inr (inr (o, n)) ↦ absurd (omega arith)
      ]
    ]

-- Below 69632 ids the default base is left, or replaced by one that is too low.
pub mapped_base-low :
    (m : UidMap) (b : ℕ)
    → IsMap m
    → m.hi < 69631
    → mapped_base m uid_base_default false ≡ some b
    → (b < uid_base_min) ⊎ (b ≡ uid_base_default)
unfolding mapped_base
mapped_base-low m b v l h = elim (Bool-cases (uidmap_fits m uid_base_default uid_slots)) [
  | inl f ↦ let (_, k) = fits-Maps m uid_base_default v f in absurd (omega arith)
  | inr f ↦ elim (placed_or (uidmap_place m uid_slots) uid_base_default b (rw f at h)) [
    | inl (z, e) ↦ inr (sym e)
    | inr e ↦ elim (place-Maps m v) [
      | inl (z, n) ↦ inl (omega arith)
      | inr (inl (a, n, g)) ↦ inl (omega arith)
      | inr (inr (o, n)) ↦ inl (omega arith)
    ]
  ]
]
