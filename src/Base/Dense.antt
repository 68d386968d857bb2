-- ===== src/Base/Dense.antt =====
-- An array with a count of entries in use, as the list of those: writing an entry, and filling the
-- place of a removed entry with the last one.
use Prim.Native.Nat.{ℕ, zero, suc, ◌+◌}
use mathlib.Core.Path.{◌≡◌, refl, ap, subst}
use mathlib.Core.Logic.{◌⊎◌, inl, inr}
use mathlib.Core.List.{List, [], ◌∷◌, ◌++◌}
use mathlib.Core.Option.{none, some}
use native.Mathlib.Omega.{arith}
use nvkvm_pv.Base.Lists.{length, get_elem?, All}

module _ {ℓ} {A : Type ℓ} where
  abbrev pub set : List A → ℕ → A → List A
  set [] i v = []
  set (x ∷ xs) zero v = v ∷ xs
  set (x ∷ xs) (suc i) v = x ∷ set xs i v

  -- The last entry of `x ∷ xs`, and the entries before it.
  abbrev pub last : A → List A → A
  last x [] = x
  last x (y ∷ ys) = last y ys

  abbrev pub but_last : A → List A → List A
  but_last x [] = []
  but_last x (y ∷ ys) = x ∷ but_last y ys

  -- `a[i] = a[--n]`
  unfoldable pub swap_remove : ℕ → List A → List A
  swap_remove i [] = []
  swap_remove i (x ∷ xs) = set (but_last x xs) i (last x xs)

  -- A sum over the entries.
  abbrev pub total : (A → ℕ) → List A → ℕ
  total w [] = 0
  total w (x ∷ xs) = w x + total w xs

  pub total-append : (w : A → ℕ) (xs ys : List A) → total w (xs ++ ys) ≡ total w xs + total w ys
  total-append w [] ys = omega arith
  total-append w (x ∷ xs) ys = omega (arith, total-append w xs ys)

  pub total-set :
      (w : A → ℕ) (xs : List A) (i : ℕ) (v e : A)
      → get_elem? xs i ≡ some e
      → total w (set xs i v) + w e ≡ total w xs + w v
  total-set w [] i v e h = ground arith
  total-set w (x ∷ xs) zero v e h = ground arith
  total-set w (x ∷ xs) (suc i) v e h = omega (arith, total-set w xs i v e h)

  total-but_last :
      (w : A → ℕ) (x : A) (xs : List A) → total w (but_last x xs) + w (last x xs) ≡ w x + total w xs
  total-but_last w x [] = omega arith
  total-but_last w x (y ∷ ys) = omega (arith, total-but_last w y ys)

  pub set_out : (xs : List A) (i : ℕ) (v : A) → get_elem? xs i ≡ none → set xs i v ≡ xs
  set_out [] i v h = refl
  set_out (x ∷ xs) zero v h = cc
  set_out (x ∷ xs) (suc i) v h = ap (◌∷◌ x) (set_out xs i v h)

  get_elem?-but_last :
      (x : A) (xs : List A) (i : ℕ) (e : A)
      → get_elem? (x ∷ xs) i ≡ some e
      → (get_elem? (but_last x xs) i ≡ some e)
        ⊎ (get_elem? (but_last x xs) i ≡ none) × (last x xs ≡ e)
  get_elem?-but_last x [] zero e h = inr (refl, cc)
  get_elem?-but_last x [] (suc i) e h = cc
  get_elem?-but_last x (y ∷ ys) zero e h = inl h
  get_elem?-but_last x (y ∷ ys) (suc i) e h = get_elem?-but_last y ys i e h

  pub total-swap_remove :
      (w : A → ℕ) (xs : List A) (i : ℕ) (e : A)
      → get_elem? xs i ≡ some e
      → total w (swap_remove i xs) + w e ≡ total w xs
  unfolding swap_remove
  total-swap_remove w [] i e h = ground arith
  total-swap_remove w (x ∷ xs) i e h = elim (get_elem?-but_last x xs i e h) [
    | inl g ↦ omega (arith, total-set w (but_last x xs) i (last x xs) e g, total-but_last w x xs)
    | inr (g, l) ↦
        rw (set_out (but_last x xs) i (last x xs) g) (omega (arith, total-but_last w x xs, ap w l))
  ]

  pub length-set : (ys : List A) (j : ℕ) (v : A) → length (set ys j v) ≡ length ys
  length-set [] j v = refl
  length-set (y ∷ ys) zero v = refl
  length-set (y ∷ ys) (suc j) v = ap suc (length-set ys j v)

  pub length-swap_remove :
      (xs : List A) (i : ℕ) (e : A)
      → get_elem? xs i ≡ some e
      → suc (length (swap_remove i xs)) ≡ length xs
  unfolding swap_remove
  length-swap_remove [] i e h = ground arith
  length-swap_remove (x ∷ xs) i e h =
      omega (arith, length-set (but_last x xs) i (last x xs), length-but_last x xs)
    where
      length-but_last : (y : A) (ys : List A) → length (but_last y ys) ≡ length ys
      length-but_last y [] = refl
      length-but_last y (z ∷ zs) = ap suc (length-but_last z zs)

some_injective {ℓ} : {A : Type ℓ} {x y : A} → some x ≡ some y → x ≡ y
some_injective e = cc

module _ {ℓ κ} {A : Type ℓ} (P : A → Type κ) where
  pub All-get_elem? : (xs : List A) (i : ℕ) (e : A) → All P xs → get_elem? xs i ≡ some e → P e
  All-get_elem? [] i e h g = cc
  All-get_elem? (x ∷ xs) zero e h g = subst P (some_injective g) h.0
  All-get_elem? (x ∷ xs) (suc i) e h g = All-get_elem? xs i e h.1 g

  pub All-set : (xs : List A) (i : ℕ) (v : A) → All P xs → P v → All P (set xs i v)
  All-set [] i v h p = tt
  All-set (x ∷ xs) zero v h p = (p, h.1)
  All-set (x ∷ xs) (suc i) v h p = (h.0, All-set xs i v h.1 p)

  All-last : (x : A) (xs : List A) → P x → All P xs → P (last x xs)
  All-last x [] p h = p
  All-last x (y ∷ ys) p h = All-last y ys h.0 h.1

  All-but_last : (x : A) (xs : List A) → P x → All P xs → All P (but_last x xs)
  All-but_last x [] p h = tt
  All-but_last x (y ∷ ys) p h = (p, All-but_last y ys h.0 h.1)

  pub All-swap_remove : (xs : List A) (i : ℕ) → All P xs → All P (swap_remove i xs)
  unfolding swap_remove
  All-swap_remove [] i h = tt
  All-swap_remove (x ∷ xs) i h =
      All-set (but_last x xs) i (last x xs) (All-but_last x xs h.0 h.1) (All-last x xs h.0 h.1)
