-- ===== src/Sparse/Cover.antt =====
-- Which bytes of the window an extent covers, and the invariant that no byte is covered twice.
use nvkvm_pv.Base.{
  ℕ, suc, ◌+◌, ◌^◌, ◌≤◌, ◌≡◌, true, ◌&&◌, Option, none, some, List, [], ◌∷◌, if◌then◌else◌, ltb,
  leb, ◌==◌, arith, get_elem?, All, total, inl, inr, ◌⊎◌, Bool-cases,
}
use nvkvm_pv.Sparse.Window.{Extent, Window, add64, fits_better, best_from, find_end, find_touching}

abbrev pub hit : ℕ → Extent → ℕ
hit b e = if leb e.off b && ltb b (e.off + e.len) then 1 else 0

abbrev pub beyond : ℕ → ℕ → ℕ
beyond cur b = if leb cur b then 1 else 0

-- How many of the free extents, the extents `live` that the window has given away, and the part
-- that it never has, hold the byte `b`.
abbrev pub claims : Window → List Extent → ℕ → ℕ
claims w live b = total (hit b) w.free + total (hit b) live + beyond w.cur b

abbrev pub Proper : ℕ → Extent → Type 0
Proper size e = (1 ≤ e.len) × (e.off + e.len ≤ size)

-- No byte has two owners.
pub record IsValid (w : Window) (live : List Extent) : Type 0 where
  pub small : w.size ≤ 2 ^ 62
  pub inside : w.cur ≤ w.size
  pub proper : All (Proper w.size) w.free
  pub proper_live : All (Proper w.size) live
  pub disjoint : (b : ℕ) → claims w live b ≤ 1

-- An entry found in a loop that starts at index `i`.
abbrev pub At : List Extent → ℕ → ℕ → Extent → Type 0
At es i j e = (k : ℕ) × (j ≡ i + k) × (get_elem? es k ≡ some e)

At-cons :
    (x : Extent) (es : List Extent) (i j : ℕ) (e : Extent) → At es (suc i) j e → At (x ∷ es) i j e
At-cons x es i j e (k, p, q) = (suc k, omega arith, q)

fits_better-le :
    (size : ℕ) (x : Extent) (best : Option (ℕ × Extent))
    → fits_better size x best ≡ true
    → size ≤ x.len
fits_better-le size x none h = ground arith
fits_better-le size x (some (i, e)) h = ground arith

pub best_from-At :
    (size : ℕ) (es : List Extent) (i : ℕ) (best : Option (ℕ × Extent)) (j : ℕ) (e : Extent)
    → best_from size es i best ≡ some (j, e)
    → (best ≡ some (j, e)) ⊎ (At es i j e × (size ≤ e.len))
unfolding best_from
best_from-At size [] i best j e h = inl h
best_from-At size (x ∷ es) i best j e h =
    now_or_later
      (best_from-At size es (suc i) (if fits_better size x best then some (i, x) else best) j e h)
  where
    now_or_later :
        ((if fits_better size x best then some (i, x) else best) ≡ some (j, e))
          ⊎ (At es (suc i) j e × (size ≤ e.len))
        → (best ≡ some (j, e)) ⊎ (At (x ∷ es) i j e × (size ≤ e.len))
    now_or_later (inr (a, l)) = inr (At-cons x es i j e a, l)
    now_or_later (inl g) = elim (Bool-cases (fits_better size x best)) [
      | inl b ↦ inr ((0, ground arith, ground arith), ground (arith, fits_better-le size x best b))
      | inr b ↦ inl (ground arith)
    ]

pub find_end-At :
    (at : ℕ) (es : List Extent) (i j : ℕ) (e : Extent)
    → find_end at es i ≡ some (j, e)
    → At es i j e × (add64 e.off e.len ≡ at)
unfolding find_end
find_end-At at [] i j e h = cc
find_end-At at (x ∷ es) i j e h = elim (Bool-cases (add64 x.off x.len == at)) [
  | inl b ↦ ((0, ground arith, ground arith), ground arith)
  | inr b ↦ let (a, q) = find_end-At at es (suc i) j e (ground arith) in (At-cons x es i j e a, q)
]

-- The ways in which `find_touching` joins an extent to an entry.
abbrev pub Joins : ℕ → ℕ → Extent → Extent → Type 0
Joins off size e joined =
    ((add64 e.off e.len ≡ off) × (joined.off ≡ e.off) × (joined.len ≡ add64 e.len size))
    ⊎ ((add64 off size ≡ e.off) × (joined.off ≡ off) × (joined.len ≡ add64 e.len size))

pub find_touching-At :
    (off size : ℕ) (es : List Extent) (i j : ℕ) (e joined : Extent)
    → find_touching off size es i ≡ some (j, e, joined)
    → At es i j e × Joins off size e joined
unfolding find_touching
find_touching-At off size [] i j e joined h = cc
find_touching-At off size (x ∷ es) i j e joined h = elim (Bool-cases (add64 x.off x.len == off)) [
  | inl b ↦ ((0, ground arith, ground arith), inl (ground arith, ground arith, ground arith))
  | inr b ↦ elim (Bool-cases (add64 off size == x.off)) [
    | inl c ↦ ((0, ground arith, ground arith), inr (ground arith, ground arith, ground arith))
    | inr c ↦
        let (a, q) = find_touching-At off size es (suc i) j e joined (ground arith) in
        (At-cons x es i j e a, q)
  ]
]
