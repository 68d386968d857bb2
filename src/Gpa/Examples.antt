-- ===== src/Gpa/Examples.antt =====
-- The layout at concrete inputs.
use nvkvm_pv.Base.{ℕ, ◌*◌, ◌≡◌, refl, true, false, none, some, Option, arith, [], ◌∷◌}
use nvkvm_pv.Gpa.Layout.{Layout, gib, widths, placed, cap_sparse, place, layout_compute}
use nvkvm_pv.Gpa.FirstFit.{Answers, first_fit, sizes, layout_compute-first_fit}
use nvkvm_pv.Gpa.Bounds.{Sound, layout_compute-Sound}
use nvkvm_pv.Gpa.MmapWindow.{alloc_gpa, grants}
use nvkvm_pv.Gpa.Advice.{layout_compute-advised_ram}

-- A laptop with 39 bits and 8 GiB of RAM.
abbrev machine : Option (ℕ × ℕ)
machine = some (8 * gib, 0)

laptop_fits :
    layout_compute none 39 (some 39) machine
    ≡ some (true, placed (widths none 39 (some 39) machine) (64 * gib))
unfolding layout_compute cap_sparse place
laptop_fits = refl

layout_compute-first_fit_example :
    Answers
      (widths none 39 (some 39) machine)
      (layout_compute none 39 (some 39) machine)
      (first_fit (widths none 39 (some 39) machine) sizes)
layout_compute-first_fit_example = layout_compute-first_fit none 39 (some 39) machine

layout_compute-Sound_example : Sound (placed (widths none 39 (some 39) machine) (64 * gib))
layout_compute-Sound_example =
    layout_compute-Sound none 39 (some 39) machine
      (placed (widths none 39 (some 39) machine) (64 * gib)) (omega arith, omega arith) laptop_fits

-- The message for 39 bits advises 458 GiB.
layout_compute-advised_ram_example :
    (h : Layout) × (layout_compute none 39 (some 39) (some (458 * gib, 0)) ≡ some (false, h))
layout_compute-advised_ram_example =
    layout_compute-advised_ram none 39 (some 39) (458 * gib) 0 (omega arith, omega arith)
      (omega arith)

granted_offsets :
    grants
      (record { gpa = 1099511627776; size = 17179869184; cur = 0 })
      (4096 ∷ 4194304 ∷ 17179869184 ∷ 8192 ∷ [])
    ≡ (1099511627776, 4096) ∷ (1099513724928, 4194304) ∷ (1099517919232, 8192) ∷ []
unfolding grants alloc_gpa
granted_offsets = refl
