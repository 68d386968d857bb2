-- ===== src/Base/Arrays.antt =====
-- A C array as a function from indices. An index out of range is the caller's to rule out.
use Prim.Native.Nat.{ℕ, zero, suc, ◌+◌, ◌≤◌, ◌<◌}
use mathlib.Core.Path.{◌≡◌, refl, ap}
use mathlib.Core.Bool.{Bool, true, false}
use mathlib.Core.Logic.{◌≢◌, inl, inr}
use native.Mathlib.Omega.{arith}
use nvkvm_pv.Base.Tests.{◌==◌, if◌then◌else◌, Bool-cases, ==-true, ==-false}

module _ {ℓ} {A : Type ℓ} where
  abbrev pub update : (ℕ → A) → ℕ → A → ℕ → A
  update f i v j = if i == j then v else f j

  pub update_self : (f : ℕ → A) (i : ℕ) (v : A) → update f i v i ≡ v
  update_self f i v = ground arith

  pub update_ne : (f : ℕ → A) (i : ℕ) (v : A) (j : ℕ) → i ≢ j → update f i v j ≡ f j
  update_ne f i v j h = ground arith

  pub update-update :
      (f : ℕ → A) (i : ℕ) (v w : A) (j : ℕ) → update (update f i v) i w j ≡ update f i w j
  update-update f i v w j = ground arith

-- How many of the first `n` entries are set.
pub count_set : ℕ → (ℕ → Bool) → ℕ
count_set zero f = 0
count_set (suc n) f = (if f n then 1 else 0) + count_set n f

pub count_set-update_above :
    (n i : ℕ) (f : ℕ → Bool) (b : Bool) → n ≤ i → count_set n (update f i b) ≡ count_set n f
unfolding count_set
count_set-update_above zero i f b h = refl
count_set-update_above (suc n) i f b h =
    ground (arith, count_set-update_above n i f b (omega arith))

-- Setting a clear entry adds one, and clearing a set one takes one off.
pub count_set-update-true :
    (n i : ℕ) (f : ℕ → Bool)
    → i < n
    → f i ≡ false
    → count_set n (update f i true) ≡ suc (count_set n f)
unfolding count_set
count_set-update-true zero i f h e = absurd (omega arith)
count_set-update-true (suc n) i f h e =
    ground (arith, count_set-update_above n i f true, count_set-update-true n i f)

pub count_set-update-false :
    (n i : ℕ) (f : ℕ → Bool)
    → i < n
    → f i ≡ true
    → suc (count_set n (update f i false)) ≡ count_set n f
unfolding count_set
count_set-update-false zero i f h e = absurd (omega arith)
count_set-update-false (suc n) i f h e =
    ground (arith, count_set-update_above n i f false, count_set-update-false n i f)

pub count_set-none : (n : ℕ) → count_set n (λ _. false) ≡ 0
unfolding count_set
count_set-none zero = refl
count_set-none (suc n) = omega (arith, count_set-none n)

-- A sum over the first `n` entries.
pub sum_below {ℓ} : {A : Type ℓ} → ℕ → (A → ℕ) → (ℕ → A) → ℕ
sum_below zero w f = 0
sum_below (suc n) w f = w (f n) + sum_below n w f

module _ {ℓ} {A : Type ℓ} (w : A → ℕ) where
  pub sum_below-update_above :
      (n i : ℕ) (f : ℕ → A) (v : A) → n ≤ i → sum_below n w (update f i v) ≡ sum_below n w f
  unfolding sum_below
  sum_below-update_above zero i f v h = refl
  sum_below-update_above (suc n) i f v h =
      rw
        (
          update_ne f i v n (λ e. absurd (omega arith)),
          sum_below-update_above n i f v (omega arith),
        )
        refl

  pub sum_below-update :
      (n i : ℕ) (f : ℕ → A) (v : A)
      → i < n
      → sum_below n w (update f i v) + w (f i) ≡ sum_below n w f + w v
  unfolding sum_below
  sum_below-update zero i f v h = absurd (omega arith)
  sum_below-update (suc n) i f v h = elim (Bool-cases (i == n)) [
    | inl b ↦
        let e : w (f i) ≡ w (f n) = ap (λ (x : ℕ). w (f x)) (==-true i n b) in
        rw b (omega (arith, e, sum_below-update_above n i f v (omega (arith, ==-true i n b))))
    | inr b ↦ rw b (omega (arith, sum_below-update n i f v (omega (arith, ==-false i n b))))
  ]

  pub sum_below-zero : (n : ℕ) (f : ℕ → A) → ((i : ℕ) → w (f i) ≡ 0) → sum_below n w f ≡ 0
  unfolding sum_below
  sum_below-zero zero f h = refl
  sum_below-zero (suc n) f h = omega (arith, h n, sum_below-zero n f h)

-- Sums by two weights, of which one is nowhere larger.
module _ {ℓ} {A : Type ℓ} (v w : A → ℕ) where
  pub sum_below-le :
      (n : ℕ) (f : ℕ → A) → ((i : ℕ) → v (f i) ≤ w (f i)) → sum_below n v f ≤ sum_below n w f
  unfolding sum_below
  sum_below-le zero f h = omega arith
  sum_below-le (suc n) f h = omega (arith, h n, sum_below-le n f h)

  pub sum_below_lt :
      (n : ℕ) (f : ℕ → A) (i : ℕ)
      → i < n
      → ((j : ℕ) → v (f j) ≤ w (f j))
      → v (f i) < w (f i)
      → sum_below n v f < sum_below n w f
  unfolding sum_below
  sum_below_lt zero f i l h s = absurd (omega arith)
  sum_below_lt (suc n) f i l h s = elim (Bool-cases (i == n)) [
    | inl b ↦
        let e : v (f i) ≡ v (f n) = ap (λ (x : ℕ). v (f x)) (==-true i n b) in
        let g : w (f i) ≡ w (f n) = ap (λ (x : ℕ). w (f x)) (==-true i n b) in
        omega (arith, sum_below-le n f h)
    | inr b ↦ omega (arith, h n, sum_below_lt n f i (omega (arith, ==-false i n b)) h s)
  ]

pub sum_below_bound {ℓ} :
    {A : Type ℓ} (w : A → ℕ) (n : ℕ) (f : ℕ → A) → ((i : ℕ) → w (f i) ≤ 1) → sum_below n w f ≤ n
unfolding sum_below
sum_below_bound w zero f h = omega arith
sum_below_bound w (suc n) f h = omega (arith, h n, sum_below_bound w n f h)

pub sum_below-ones {ℓ} :
    {A : Type ℓ} (w : A → ℕ) (n : ℕ) (f : ℕ → A)
    → ((i : ℕ) → i < n → w (f i) ≡ 1)
    → sum_below n w f ≡ n
unfolding sum_below
sum_below-ones w zero f h = refl
sum_below-ones w (suc n) f h =
    let rest = sum_below-ones w n f (λ i l. h i (omega arith)) in omega (arith, h n (omega arith))
