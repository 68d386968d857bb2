-- ===== src/Gpa/Advice.antt =====
-- What the message for a layout that does not fit advises.
use nvkvm_pv.Base.{
  ℕ, ◌+◌, ◌*◌, ◌^◌, ◌≤◌, ◌<◌, ◌≡◌, refl, subst, true, false, ◌&&◌, Option, none, some, arith, inl,
  inr, Bool-cases,
}
use native.Mathlib.Nat.{pow-le-pow_right}
use nvkvm_pv.Gpa.Layout.{gib, Layout, widths, width, layout_compute, guest_ram_top}
use nvkvm_pv.Gpa.FirstFit.{suited, fitting, first_fit, sizes, Answers, layout_compute-first_fit}
use nvkvm_pv.Gpa.Layout.{advised_ram, guest_phys_bits, force_bits}
use nvkvm_pv.Gpa.Bounds.{
  pow_above, Fitted, fitted, width-narrow, guest_ram_top_small, span_Whole, Whole, Modest,
}

too_big :
    (limit ram_top s : ℕ)
    → Fitted limit ram_top s
    → 16 * gib ≤ s
    → 2 ^ 36 ≤ limit
    → 4 * gib + advised_ram limit * gib ≤ ram_top
    → ⊥
too_big limit ram_top s v w l r =
    let a : limit < (advised_ram limit + 55) * gib = ground arith in
    omega (arith, v.floor, v.above, v.below, v.span)

never_fits :
    (forced : Option ℕ) (host : ℕ) (cpu : Option ℕ) (ram maxram s : ℕ)
    → Modest (some (ram, maxram))
    → advised_ram (2 ^ width (force_bits forced host) (guest_phys_bits cpu)) * gib ≤ ram
    → Whole s
    → let g = widths forced host cpu (some (ram, maxram)) in
      (suited g s ≡ true) → (fitting g s ≡ true) → ⊥
never_fits forced host cpu ram maxram s m r w t f =
    let g : Layout = widths forced host cpu (some (ram, maxram)) in
    let (n, _, _) = width-narrow g.host_bits g.guest_bits in
    let k : g.limit ≤ 2 ^ 52 = pow-le-pow_right (omega arith) n in
    let z : 16 * gib ≤ s = ground arith in
    let p = span_Whole s w in
    let l : 2 ^ 36 ≤ g.limit = pow_above g.bits (ground arith) in
    let v = fitted g s w t f l k (guest_ram_top_small (some (ram, maxram)) m) in
    too_big g.limit g.ram_top s v z l (at_least ram maxram _ m r)
  where
    at_least :
        (ram maxram a : ℕ)
        → Modest (some (ram, maxram))
        → a ≤ ram
        → 4 * gib + a ≤ guest_ram_top (some (ram, maxram))
    at_least ram maxram a m r = ground arith

-- A guest with the RAM that the message for a layout which does not fit advises, or with more, up to
-- 2^62 bytes, does not get a layout either, whatever the widths are.
pub layout_compute-advised_ram :
    (forced : Option ℕ) (host : ℕ) (cpu : Option ℕ) (ram maxram : ℕ)
    → Modest (some (ram, maxram))
    → advised_ram (2 ^ width (force_bits forced host) (guest_phys_bits cpu)) * gib ≤ ram
    → (h : Layout) × (layout_compute forced host cpu (some (ram, maxram)) ≡ some (false, h))
unfolding first_fit
layout_compute-advised_ram forced host cpu ram maxram m r =
    let g : Layout = widths forced host cpu (some (ram, maxram)) in
    let no : (s : ℕ) → Whole s → (suited g s && fitting g s) ≡ false = λ s w.
      elim (Bool-cases (suited g s && fitting g s)) [
        | inl b ↦
            absurd (never_fits forced host cpu ram maxram s m r w (ground arith) (ground arith))
        | inr b ↦ b
      ] in
    let n : first_fit g sizes ≡ none =
      rw
        (
          no (128 * gib) (inl refl),
          no (64 * gib) (inr (inl refl)),
          no (32 * gib) (inr (inr (inl refl))),
          no (16 * gib) (inr (inr (inr refl))),
        )
        refl in
    subst (Answers g (layout_compute forced host cpu (some (ram, maxram)))) n
      (layout_compute-first_fit forced host cpu (some (ram, maxram)))
