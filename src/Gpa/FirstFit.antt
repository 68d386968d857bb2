-- ===== src/Gpa/FirstFit.antt =====
-- The two halving loops beside the four sizes that they try.
use nvkvm_pv.Base.{
  ℕ, zero, suc, ◌*◌, ◌/◌, ◌≤◌, ◌<◌, ◌≡◌, refl, Bool, true, false, ◌&&◌, ◌||◌, Option, none, some,
  if◌then◌else◌, ltb, leb, arith, inl, inr, Bool-cases, List, [], ◌∷◌, length,
}
use nvkvm_pv.Gpa.Layout.{
  gib, Layout, cap_sparse, span_of, floor_of, base_of, placed, with_floor, place, place_from,
  widths, layout_compute, sparse_min, sparse_max,
}

-- A size that may be tried for a limit, and one whose block lies between floor and ceiling.
abbrev pub suited : Layout → ℕ → Bool
suited g size = leb size sparse_min || leb size (g.limit / 8)

abbrev pub fitting : Layout → ℕ → Bool
fitting g size = leb (span_of size) g.limit && leb (floor_of g.ram_top size) (base_of g.limit size)

unfoldable pub first_fit : Layout → List ℕ → Option ℕ
first_fit g [] = none
first_fit g (s ∷ ss) =
    let rest = first_fit g ss in if suited g s && fitting g s then some s else rest

abbrev pub sizes : List ℕ
sizes = 128 * gib ∷ 64 * gib ∷ 32 * gib ∷ 16 * gib ∷ []

-- An answer of the code for the size that was found.
abbrev pub Answers : Layout → Option (Bool × Layout) → Option ℕ → Type 0
Answers g r none = (h : Layout) × (r ≡ some (false, h))
Answers g r (some s) = r ≡ some (true, placed g s)

abbrev at_floor : Layout → ℕ → Layout
at_floor g f = record g { floor = f }

with_floor_at : (g : Layout) (f x : ℕ) → (e : ℕ) × (with_floor (at_floor g f) x ≡ at_floor g e)
with_floor_at g f x = elim (Bool-cases (leb (span_of x) g.limit)) [
  | inl b ↦ (floor_of g.ram_top x, rw b refl)
  | inr b ↦ (f, rw b refl)
]

-- The sizes that the second loop goes through, all of which may be tried.
abbrev Halves : Layout → ℕ → List ℕ → Type 0
Halves g x [] = (suited g x ≡ true) × (leb x sparse_min ≡ true)
Halves g x (y ∷ ys) = (suited g x ≡ true) × (leb x sparse_min ≡ false) × (x / 2 ≡ y) × Halves g y ys

place-first_fit :
    (g : Layout) (k f x : ℕ) (xs : List ℕ)
    → length xs < k
    → Halves g x xs
    → Answers g (place k (at_floor g f) x) (first_fit g (x ∷ xs))
unfolding place first_fit
place-first_fit g zero f x xs l h = absurd (omega arith)
place-first_fit g (suc k) f x [] l (s, m) = elim (Bool-cases (fitting g x)) [
  | inl b ↦ rw (s, b) refl
  | inr b ↦ rw (s, b, m) (_, refl)
]
place-first_fit g (suc k) f x (y ∷ ys) l (s, m, e, h) = elim (Bool-cases (fitting g x)) [
  | inl b ↦ rw (s, b) refl
  | inr b ↦
      let (i, q) = with_floor_at g f x in
      let r = place-first_fit g k i y ys (omega arith) h in rw (s, b, m, q, e) r
]

-- Halving goes through exactly these sizes, down to the smallest.
abbrev Down : ℕ → List ℕ → Type 0
Down x [] = leb x sparse_min ≡ true
Down x (y ∷ ys) = (leb x sparse_min ≡ false) × (x / 2 ≡ y) × Down y ys

Down-Halves : (g : Layout) (x : ℕ) (xs : List ℕ) → suited g x ≡ true → Down x xs → Halves g x xs
Down-Halves g x [] s d = (s, d)
Down-Halves g x (y ∷ ys) s (a, b, d) = (s, a, b, Down-Halves g y ys (ground arith) d)

both_loops :
    (g : Layout) (k x : ℕ) (xs : List ℕ)
    → length xs < k
    → k ≤ 4
    → Down x xs
    → Answers g (place_from g (cap_sparse k g.limit x)) (first_fit g (x ∷ xs))
unfolding cap_sparse first_fit
both_loops g zero x xs l m d = absurd (omega arith)
both_loops g (suc k) x xs l m d = elim (Bool-cases (suited g x)) [
  | inl a ↦
      let c : (ltb sparse_min x && ltb (g.limit / 8) x) ≡ false = ground arith in
      rw c (place-first_fit g 4 g.floor x xs (omega arith) (Down-Halves g x xs a d))
  | inr a ↦
      let c : (ltb sparse_min x && ltb (g.limit / 8) x) ≡ true = ground arith in
      rw (c, a) (smaller xs l d a (both_loops g k))
]
  where
    smaller :
        (xs : List ℕ)
        → length xs < suc k
        → Down x xs
        → suited g x ≡ false
        → ((y : ℕ) (ys : List ℕ)
            → length ys < k
            → k ≤ 4
            → Down y ys
            → Answers g (place_from g (cap_sparse k g.limit y)) (first_fit g (y ∷ ys)))
        → Answers g (place_from g (cap_sparse k g.limit (x / 2))) (first_fit g xs)
    smaller [] l d a rest = absurd (ground arith)
    smaller (y ∷ ys) l (b, e, d) a rest = rw e (rest y ys (omega arith) (omega arith) d)

-- The two halving loops, with four rounds each, come to an end for all inputs, and the size that
-- they choose for the sparse window is the first of 128, 64, 32 and 16 GiB that is at most an
-- eighth of the limit (16 GiB may always be tried) and whose block lies in the limit and above the
-- floor; they fail exactly if there is none.
pub layout_compute-first_fit :
    (forced : Option ℕ) (host : ℕ) (cpu : Option ℕ) (ram : Option (ℕ × ℕ))
    → let g = widths forced host cpu ram in
      Answers g (layout_compute forced host cpu ram) (first_fit g sizes)
unfolding layout_compute
layout_compute-first_fit forced host cpu ram =
    both_loops (widths forced host cpu ram) 4 sparse_max (64 * gib ∷ 32 * gib ∷ 16 * gib ∷ [])
      (omega arith) (omega arith) (refl, refl, (refl, refl, (refl, refl, refl)))
