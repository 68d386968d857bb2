-- ===== src/Ring/Bytes.antt =====
-- Words and headers in bytes.
use nvkvm_pv.Base.{
  ℕ, zero, suc, ◌-◌, refl, sym, subst, inl, inr, ◌+◌, ◌/◌, ◌%◌, ◌^◌, ◌≤◌, ◌<◌, ◌≡◌, true, ◌⊎◌,
  arith, ◌∙◌,
}
use Prim.Native.Nat.{digits, bit_and, bit_and-bitwise, min}
use nvkvm_pv.Ring.{read32, write32, write_header, size_ok}

pub write32_out : (m : ℕ → ℕ) (a v b : ℕ) → (b < a) ⊎ (a + 4 ≤ b) → write32 m a v b ≡ m b
unfolding write32
write32_out m a v b h = ground arith

pub read32-write32 : (m : ℕ → ℕ) (a v : ℕ) → v < 2 ^ 32 → read32 (write32 m a v) a ≡ v
unfolding write32 read32
read32-write32 m a v h = ground arith

pub read32_out :
    (m : ℕ → ℕ) (a v b : ℕ) → (b + 4 ≤ a) ⊎ (a + 4 ≤ b) → read32 (write32 m a v) b ≡ read32 m b
unfolding read32
read32_out m a v b h = ground (
  arith,
  write32_out m a v b,
  write32_out m a v (b + 1),
  write32_out m a v (b + 2),
  write32_out m a v (b + 3),
)

pub write_header_out :
    (m : ℕ → ℕ) (a len type b : ℕ) → (b < a) ⊎ (a + 8 ≤ b) → write_header m a len type b ≡ m b
unfolding write_header
write_header_out m a len type b h =
    write32_out (write32 m a len) (a + 4) type b (ground arith)
    ∙ write32_out m a len b (ground arith)

-- The digits that two numbers share, with a count of digits to go.
abbrev shared : ℕ → ℕ → ℕ → ℕ
shared = digits (λ b. zero) min

-- A number that shares no digit with itself is 0.
shared_self : (k n : ℕ) → n ≤ k → shared k n n ≡ 0 → n ≡ 0
shared_self k zero l h = refl
shared_self zero (suc n) l h = absurd (omega arith)
shared_self (suc k) (suc n) l h =
    let d : shared k (suc n / 2) (suc n / 2) ≡ 0 = omega arith in
    let m : min (suc n % 2) (suc n % 2) ≡ 0 = omega arith in
    let i = shared_self k (suc n / 2) (omega arith) d in omega arith

-- One digit of the test of a power of two.
shared_half :
    (k n : ℕ)
    → n ≤ suc k
    → shared (suc k) (suc n) n ≡ 0
    → 1 ≤ n
    → (suc n % 2 ≡ 0) × (shared k (suc n / 2) (suc n / 2 - 1) ≡ 0)
shared_half k n l h a =
    let d : shared k (suc n / 2) (n / 2) ≡ 0 = omega arith in
    elim (parity n) [
      | inl e ↦ (omega arith, subst (λ (x : ℕ). shared k (suc n / 2) x ≡ 0) (omega arith) d)
      | inr o ↦
          let q : suc n / 2 ≡ n / 2 = omega arith in
          let z =
            shared_self k (n / 2) (omega arith) (subst (λ (x : ℕ). shared k x (n / 2) ≡ 0) q d) in
          absurd (omega arith)
    ]
  where
    parity : (m : ℕ) → (m % 2 ≡ 1) ⊎ (m % 2 ≡ 0)
    parity m = ground arith

shared_next :
    (k n : ℕ)
    → n ≤ k
    → 2 ≤ n
    → shared k n (n - 1) ≡ 0
    → (n % 2 ≡ 0) × (shared (k - 1) (n / 2) (n / 2 - 1) ≡ 0)
shared_next zero n l a h = absurd (omega arith)
shared_next (suc k) zero l a h = absurd (omega arith)
shared_next (suc k) (suc n) l a h =
    let e : suc n - 1 ≡ n = omega arith in
    let f : suc k - 1 ≡ k = omega arith in
    let (x, y) =
      shared_half k n (omega arith) (subst (λ (m : ℕ). shared (suc k) (suc n) m ≡ 0) e h)
        (omega arith) in
    (x, subst (λ (m : ℕ). shared m (suc n / 2) (suc n / 2 - 1) ≡ 0) (sym f) y)

pub size_ok-whole : (n : ℕ) → size_ok n ≡ true → (64 ≤ n) × (n % 8 ≡ 0)
unfolding size_ok
size_ok-whole n h =
    let l : 64 ≤ n = ground arith in
    let p : bit_and n (n - 1) ≡ 0 = ground arith in
    let q : shared n n (n - 1) ≡ 0 = sym (bit_and-bitwise n (n - 1)) ∙ p in
    let (a, b) = shared_next n n (omega arith) (omega arith) q in
    let (c, d) = shared_next (n - 1) (n / 2) (omega arith) (omega arith) b in
    let (e, f) = shared_next (n - 1 - 1) (n / 2 / 2) (omega arith) (omega arith) d in
    (l, omega arith)
