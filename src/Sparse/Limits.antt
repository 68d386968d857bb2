-- ===== src/Sparse/Limits.antt =====
-- The translation of an address into the window, and a size for which the allocator wraps.
use nvkvm_pv.Base.{
  ℕ, ◌+◌, ◌-◌, ◌^◌, ◌≤◌, ◌<◌, ◌≡◌, ◌≢◌, ◌↔◌, refl, true, false, none, some, ◌==◌, arith, List, inl,
  inr, Option-cases, All-get_elem?,
}
use nvkvm_pv.Sparse.Window.{
  Extent, Window, add64, page_down, page_round_up, best_from, bump, take_rounded, gpa_alloc,
  gpa_to_vmm_va,
}
use nvkvm_pv.Sparse.Cover.{IsValid, Proper, best_from-At}

-- In a mapped window of at most 2^62 bytes, a range of at most 2^63 bytes is translated exactly if
-- it starts in the window and ends by its end, and to its offset in the window.
pub gpa_to_vmm_va-some :
    (w : Window) (gpa size off : ℕ)
    → w.mapped ≡ true
    → w.size ≤ 2 ^ 62
    → size ≤ 2 ^ 63
    → (gpa_to_vmm_va w gpa size ≡ some off)
      ↔ ((w.gpa_base + off ≡ gpa) × (off < w.size) × (off + size ≤ w.size))
unfolding gpa_to_vmm_va
gpa_to_vmm_va-some w gpa size off m a b = (λ h. ground arith, λ h. ground arith)

-- No entry of a valid free list is as large as a size past the window's.
best_from-none :
    (w : Window) (live : List Extent) (size : ℕ)
    → IsValid w live
    → w.size < size
    → best_from size w.free 0 none ≡ none
best_from-none w live size v l = elim (Option-cases (best_from size w.free 0 none)) [
  | inl n ↦ n
  | inr ((j, e), g) ↦ elim (best_from-At size w.free 0 none j e g) [
    | inl h ↦ cc
    | inr ((k, p, q), h) ↦
        let x = All-get_elem? (Proper w.size) w.free k e v.proper q in absurd (omega arith)
  ]
]

take_rounded-bump :
    (w : Window) (size : ℕ)
    → best_from size w.free 0 none ≡ none
    → take_rounded w size ≡ bump w size
unfolding take_rounded
take_rounded-bump w size o = rw (o, take_rounded) refl

gpa_alloc-bump :
    (ensured : ℕ) (w : Window) (live : List Extent)
    → w.mapped ≡ true
    → ensured ≢ 0
    → IsValid w live
    → gpa_alloc ensured w (2 ^ 64 - 4096) ≡ bump w (2 ^ 64 - 4096)
unfolding gpa_alloc page_round_up
gpa_alloc-bump ensured w live m n v =
    let e : (ensured == 0) ≡ false = ground arith in
    let t : take_rounded w (2 ^ 64 - 4096) ≡ bump w (2 ^ 64 - 4096) =
      take_rounded-bump w (2 ^ 64 - 4096)
        (best_from-none w live (2 ^ 64 - 4096) v (omega (arith, v.small))) in
    simp (m, e, t) refl

-- A request of 2^64 - 4096 bytes of a window that has given bytes away passes the check for room,
-- whose sum wraps: it is answered with the address past the watermark, and the watermark drops, so
-- that bytes given away before are past it again.
pub gpa_alloc-wraps :
    (ensured : ℕ) (w : Window) (live : List Extent)
    → w.mapped ≡ true
    → ensured ≢ 0
    → 1 ≤ w.cur
    → IsValid w live
    → let r = gpa_alloc ensured w (2 ^ 64 - 4096) in
      (r.0 ≡ add64 w.gpa_base (page_down (w.cur + 4095))) × (r.1.cur < w.cur)
unfolding bump
gpa_alloc-wraps ensured w live m n c v =
    rw (gpa_alloc-bump ensured w live m n v) (ground (arith, v.small, v.inside))
