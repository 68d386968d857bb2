-- ===== src/Tables/Search.antt =====
-- The search for a free slot.
use nvkvm_pv.Base.{
  ℕ, zero, suc, ◌+◌, ◌-◌, ◌%◌, ◌≤◌, ◌<◌, ◌≡◌, ◌≢◌, ◌∙◌, sym, subst, ap, Bool, true, false, ◌||◌,
  none, some, if◌then◌else◌, leb, ◌==◌, arith, inl, inr, Bool-cases,
}
use native.Mathlib.Nat.{mod-eq_of_lt, mod-lt, add-mod_right}
use nvkvm_pv.Tables.Ids.{search}

pub search-some :
    (max : ℕ) (used : ℕ → Bool) (next i k s : ℕ)
    → search max used next i k ≡ some s
    → 1 ≤ max
    → (1 ≤ s) × (s < max) × (used s ≡ false)
unfolding search
search-some max used next i zero s h m = cc
search-some max used next i (suc k) s h m =
    elim (Bool-cases ((next + i) % max == 0 || used ((next + i) % max))) [
      | inl b ↦ search-some max used next (suc i) k s (rw b at h) m
      | inr b ↦
          let e : some ((next + i) % max) ≡ some s = rw b at h in
          let q : (next + i) % max ≡ s = cc in
          let z = mod-lt (next + i) {m = max} (omega arith) in
          let u : (1 ≤ (next + i) % max) × (used ((next + i) % max) ≡ false) =
            (ground arith, ground arith) in
          subst (λ (x : ℕ). (1 ≤ x) × (x < max) × (used x ≡ false)) q (u.0, z, u.1)
    ]

search-none_at :
    (max : ℕ) (used : ℕ → Bool) (next i k j : ℕ)
    → search max used next i k ≡ none
    → j < k
    → (next + (i + j)) % max ≢ 0
    → used ((next + (i + j)) % max) ≡ true
unfolding search
search-none_at max used next i zero j h l n = absurd (omega arith)
search-none_at max used next i (suc k) zero h l n =
    elim (Bool-cases ((next + i) % max == 0 || used ((next + i) % max))) [
      | inl b ↦
          let e : i + 0 ≡ i = omega arith in
          let m : (next + i) % max ≢ 0 = rw e at n in rw e (ground arith)
      | inr b ↦ let e : some ((next + i) % max) ≡ none = rw b at h in cc
    ]
search-none_at max used next i (suc k) (suc j) h l n =
    elim (Bool-cases ((next + i) % max == 0 || used ((next + i) % max))) [
      | inl b ↦
          let e : i + suc j ≡ suc i + j = omega arith in
          rw e (search-none_at max used next (suc i) k j (rw b at h) (omega arith) (rw e at n))
      | inr b ↦ let e : some ((next + i) % max) ≡ none = rw b at h in cc
    ]

around :
    (next s max : ℕ)
    → next < max
    → s < max
    → (next + (if leb next s then s - next else s + max - next)) % max ≡ s
around next s max n b = elim (Bool-cases (leb next s)) [
  | inl a ↦ let e : next + (s - next) ≡ s = ground arith in rw (a, e) (mod-eq_of_lt b)
  | inr a ↦
      let e : next + (s + max - next) ≡ s + max = omega arith in
      rw (a, e) (add-mod_right s max ∙ mod-eq_of_lt b)
]

zero_ne : (s : ℕ) → 1 ≤ s → s ≢ 0
zero_ne s a e = omega arith

pub search-none :
    (max : ℕ) (used : ℕ → Bool) (next s : ℕ)
    → search max used next 0 max ≡ none
    → next < max
    → 1 ≤ s
    → s < max
    → used s ≡ true
search-none max used next s h n a b =
    let j : ℕ = if leb next s then s - next else s + max - next in
    let e : (next + j) % max ≡ s = around next s max n b in
    let l : j < max = ground arith in
    let m : (next + (0 + j)) % max ≡ s = ap (λ (x : ℕ). (next + x) % max) (omega arith) ∙ e in
    subst (λ (x : ℕ). used x ≡ true) m
      (search-none_at max used next 0 max j h l (λ y. absurd (zero_ne s a (sym m ∙ y))))
