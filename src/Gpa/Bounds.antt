-- ===== src/Gpa/Bounds.antt =====
-- Where the regions of a layout lie, and the base of the sparse window in it.
use nvkvm_pv.Base.{
  ℕ, ◌+◌, ◌-◌, ◌*◌, ◌/◌, ◌%◌, ◌^◌, ◌≤◌, ◌≡◌, ◌≢◌, refl, sym, ap, subst, ◌∙◌, Bool, true, false,
  ◌&&◌, Option, none, some, leb, leb-true, leb-false, arith, inl, inr, ◌⊎◌, Bool-cases, List, [],
  ◌∷◌,
}
use nvkvm_pv.Base.Words.{add64}
use native.Mathlib.Nat.{pow-le-pow_right}
use nvkvm_pv.Gpa.Layout.{
  gib, Layout, span_of, floor_of, base_of, placed, widths, width, layout_compute, guest_ram_top,
  mmap_win_size, shm_slot,
}
use nvkvm_pv.Gpa.FirstFit.{suited, fitting, first_fit, sizes, Answers, layout_compute-first_fit}
use nvkvm_pv.Sparse.Place.{resolve_base}
use nvkvm_pv.Sparse.Safe.{IsSafe, resolve_base-IsSafe}

pub first_fit-some :
    (g : Layout) (xs : List ℕ) (s : ℕ)
    → first_fit g xs ≡ some s
    → (suited g s ≡ true) × (fitting g s ≡ true)
unfolding first_fit
first_fit-some g [] s h = cc
first_fit-some g (x ∷ xs) s h = elim (Bool-cases (suited g x && fitting g x)) [
  | inr b ↦ first_fit-some g xs s (rw b at h)
  | inl b ↦
      let q : some x ≡ some s = rw b at h in
      let e : x ≡ s = cc in
      subst (λ (y : ℕ). (suited g y ≡ true) × (fitting g y ≡ true)) e (ground arith, ground arith)
]

-- The sizes are gibibytes, 16 to 128 of them.
abbrev pub Whole : ℕ → Type 0
Whole s = (s ≡ 128 * gib) ⊎ (s ≡ 64 * gib) ⊎ (s ≡ 32 * gib) ⊎ (s ≡ 16 * gib)

first_fit-Whole : (g : Layout) (s : ℕ) → first_fit g sizes ≡ some s → Whole s
unfolding first_fit
first_fit-Whole g s h = ground arith

pub pow_above : (b : ℕ) → 33 * gib ≤ 2 ^ b → 2 ^ 36 ≤ 2 ^ b
pow_above b h = elim (Bool-cases (leb 36 b)) [
  | inl a ↦ pow-le-pow_right (omega arith) {i = 36} (leb-true 36 b a)
  | inr a ↦
      let k : 2 ^ b ≤ 2 ^ 35 =
        pow-le-pow_right (omega arith) {j = 35} (omega (arith, leb-false 36 b a)) in
      absurd (omega arith)
]

pub record InBounds (g : Layout) : Type 0 where
  pub limit : (g.limit ≡ 2 ^ g.bits) × (g.bits ≤ 52)
  pub narrow : (1 ≤ g.host_bits → g.bits ≤ g.host_bits) × (1 ≤ g.guest_bits → g.bits ≤ g.guest_bits)
  pub floor : (g.ram_top + gib + g.sparse_size ≤ g.floor) × (g.floor ≤ g.block_base)
  pub shm : g.shm_base ≡ g.block_base
  pub mmap : (g.mmap_base ≡ g.shm_base + gib) × (g.mmap_size ≡ 16 * gib)
  pub sparse : g.sparse_base ≡ g.mmap_base + g.mmap_size
  pub end : g.sparse_base + g.sparse_size ≡ g.block_base + g.block_size
  pub ceiling : g.block_base + g.block_size ≤ g.limit - g.limit / 8
  pub aligned : g.block_base % gib ≡ 0
  pub size : (16 * gib ≤ g.sparse_size) × (g.sparse_size ≤ 128 * gib)

-- The arithmetic of one size, for a limit of at least 64 GiB: nothing wraps.
pub record Fitted (limit ram_top s : ℕ) : Type 0 where
  pub span : span_of s ≡ 17 * gib + s
  pub floor : ram_top + gib + s ≤ floor_of ram_top s
  pub above : floor_of ram_top s ≤ base_of limit s
  pub below : base_of limit s + span_of s ≤ limit - limit / 8
  pub aligned : base_of limit s % gib ≡ 0

room :
    (g : Layout) (s : ℕ)
    → suited g s ≡ true
    → 2 ^ 36 ≤ g.limit
    → 17 * gib + s ≤ g.limit - g.limit / 8
room g s t l = ground arith

base_below :
    (limit s : ℕ)
    → span_of s ≡ 17 * gib + s
    → 17 * gib + s ≤ limit - limit / 8
    → limit ≤ 2 ^ 52
    → (base_of limit s + span_of s ≤ limit - limit / 8) × (base_of limit s % gib ≡ 0)
base_below limit s e r m = (omega (arith), omega (arith))

pub span_Whole : (s : ℕ) → Whole s → span_of s ≡ 17 * gib + s
span_Whole s w = ground arith

floor_Whole : (s ram_top : ℕ) → Whole s → ram_top ≤ 2 ^ 63 → ram_top + gib + s ≤ floor_of ram_top s
floor_Whole s ram_top w r = elim w [
  | inl e ↦ rw e (omega arith)
  | inr (inl e) ↦ rw e (omega arith)
  | inr (inr (inl e)) ↦ rw e (omega arith)
  | inr (inr (inr e)) ↦ rw e (omega arith)
]

pub fitted :
    (g : Layout) (s : ℕ)
    → Whole s
    → suited g s ≡ true
    → fitting g s ≡ true
    → 2 ^ 36 ≤ g.limit
    → g.limit ≤ 2 ^ 52
    → g.ram_top ≤ 2 ^ 63
    → Fitted g.limit g.ram_top s
fitted g s w t f l m r =
    let e = span_Whole s w in
    let (b, a) = base_below g.limit s e (room g s t l) m in
    record {
      span = e;
      floor = floor_Whole s g.ram_top w r;
      above = ground arith;
      below = b;
      aligned = a;
    }

pub width-narrow : (h g : ℕ) → (width h g ≤ 52) × (1 ≤ h → width h g ≤ h) × (1 ≤ g → width h g ≤ g)
width-narrow h g = (ground arith, (λ p. ground arith), (λ p. ground arith))

-- Sizes of RAM that a machine can have.
abbrev pub Modest : Option (ℕ × ℕ) → Type 0
Modest none = Unit
Modest (some (ram, maxram)) = (ram ≤ 2 ^ 62) × (maxram ≤ 2 ^ 62)

pub guest_ram_top_small : (ram : Option (ℕ × ℕ)) → Modest ram → guest_ram_top ram ≤ 2 ^ 63
guest_ram_top_small none m = omega arith
guest_ram_top_small (some (r, x)) m = ground arith

abbrev answer_ok : Option (Bool × Layout) → Bool
answer_ok none = false
answer_ok (some (b, g)) = b

abbrev answer_layout : Layout → Option (Bool × Layout) → Layout
answer_layout g none = g
answer_layout g (some (b, h)) = h

false-true : false ≢ true
false-true e = cc

abbrev pub Sound : Layout → Type 0
Sound g = InBounds g × ((bar : ℕ) → IsSafe g g.sparse_size (resolve_base g g.sparse_size bar))

Fitted-Sound :
    (g : Layout) (s : ℕ)
    → (g.limit ≡ 2 ^ g.bits) × (g.bits ≤ 52)
    → (1 ≤ g.host_bits → g.bits ≤ g.host_bits) × (1 ≤ g.guest_bits → g.bits ≤ g.guest_bits)
    → g.mmap_size ≡ 16 * gib
    → g.limit ≤ 2 ^ 52
    → (16 * gib ≤ s) × (s ≤ 128 * gib)
    → Fitted g.limit g.ram_top s
    → Sound (placed g s)
Fitted-Sound g s b n z m w v =
    let h : Layout = placed g s in
    let base = base_of g.limit s in
    let p : add64 base shm_slot ≡ base + gib = omega (arith, v.below, v.span) in
    let q : add64 (add64 base shm_slot) mmap_win_size ≡ base + 17 * gib =
      omega (arith, v.below, v.span) in
    let inside : IsSafe h s h.sparse_base = record {
      above_ram = omega (arith, q, v.floor, v.above);
      clear = inl (omega arith);
      fits = inr (omega (arith, q, v.below, v.span));
    } in
    (
      record {
        limit = b;
        narrow = n;
        floor = (v.floor, v.above);
        shm = refl;
        mmap = (p, z);
        sparse = omega (arith, q, p, z);
        end = omega (arith, q, v.span);
        ceiling = v.below;
        aligned = v.aligned;
        size = w;
      },
      λ bar. (resolve_base-IsSafe h s bar (omega arith) inside).0,
    )

placed-Sound :
    (forced : Option ℕ) (host : ℕ) (cpu : Option ℕ) (ram : Option (ℕ × ℕ)) (s : ℕ)
    → Modest ram
    → first_fit (widths forced host cpu ram) sizes ≡ some s
    → Sound (placed (widths forced host cpu ram) s)
placed-Sound forced host cpu ram s m e =
    let g : Layout = widths forced host cpu ram in
    let (t, f) = first_fit-some g sizes s e in
    let w = first_fit-Whole g s e in
    let z : (16 * gib ≤ s) × (s ≤ 128 * gib) = (ground arith, ground arith) in
    let (n, nh, ng) = width-narrow g.host_bits g.guest_bits in
    let k : g.limit ≤ 2 ^ 52 = pow-le-pow_right (omega arith) n in
    let p = span_Whole s w in
    let l : 2 ^ 36 ≤ g.limit = pow_above g.bits (ground arith) in
    let v = fitted g s w t f l k (guest_ram_top_small ram m) in
    Fitted-Sound g s (refl, n) (nh, ng) refl k z v

-- If the layout is computed, for a machine with at most 2^62 bytes of RAM, then its limit is a
-- power of two no wider than the widths that are known; the block starts above the floor, which
-- leaves room above guest RAM for a BAR of the sparse window's size, and ends an eighth below the
-- limit; the three regions follow one another in it and fill it, nothing wraps; and whatever base
-- firmware gives the BAR of the sparse window, the base that is used in the end is clear of RAM
-- and of the block and inside the limit.
pub layout_compute-Sound :
    (forced : Option ℕ) (host : ℕ) (cpu : Option ℕ) (ram : Option (ℕ × ℕ)) (g : Layout)
    → Modest ram
    → layout_compute forced host cpu ram ≡ some (true, g)
    → Sound g
layout_compute-Sound forced host cpu ram g m h =
    by_answer (first_fit (widths forced host cpu ram) sizes) refl
      (layout_compute-first_fit forced host cpu ram)
  where
    by_answer :
        (o : Option ℕ)
        → first_fit (widths forced host cpu ram) sizes ≡ o
        → Answers (widths forced host cpu ram) (layout_compute forced host cpu ram) o
        → Sound g
    by_answer none e (k, r) =
        let q : ◌≡◌ {A = Option (Bool × Layout)} (some (false, k)) (some (true, g)) = sym r ∙ h in
        absurd (false-true (ap answer_ok q))
    by_answer (some s) e r =
        let q : ◌≡◌ {A = Option (Bool × Layout)}
            (some (true, placed (widths forced host cpu ram) s)) (some (true, g)) =
          sym r ∙ h in
        subst Sound (ap (answer_layout (widths forced host cpu ram)) q)
          (placed-Sound forced host cpu ram s m e)
