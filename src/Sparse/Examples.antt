-- ===== src/Sparse/Examples.antt =====
-- The window at concrete inputs.
use nvkvm_pv.Base.{
  ◌⊎◌, length, ℕ, ◌+◌, ◌-◌, ◌^◌, ◌≤◌, ◌<◌, ◌≡◌, refl, true, some, [], ◌∷◌, arith, inl, swap_remove,
}
use nvkvm_pv.Sparse.Window.{
  Extent, Window, add64, page_down, page_round_up, gpa_alloc, best_from, carve, bump, take_rounded,
  gpa_release,
}
use nvkvm_pv.Gpa.Layout.{Layout, no_layout}
use nvkvm_pv.Sparse.Quarantine.{System, gpa_free, sparse_fini}
use nvkvm_pv.Sparse.Cover.{IsValid}
use nvkvm_pv.Sparse.Take.{Taken, gpa_alloc-Taken}
use nvkvm_pv.Sparse.Joined.{Touched}
use nvkvm_pv.Sparse.Release.{Returns, gpa_release-Returns}
use nvkvm_pv.Sparse.Hold.{Capped, Owns, gpa_free-Owns}
use nvkvm_pv.Sparse.Safe.{IsSafe}
use nvkvm_pv.Sparse.Limits.{gpa_alloc-wraps}
use nvkvm_pv.Sparse.Purge.{Purged, sparse_fini-Purged}

-- A window of 1 MiB: its first page is in the free list, the second is given away.
abbrev page : ℕ → Extent
page n = record { off = n; len = 4096 }

abbrev window : Window
window = record {
  mapped = true;
  gpa_base = 1099511627776;
  size = 1048576;
  cur = 8192;
  free = page 0 ∷ [];
  kvm_slot = some 64;
}

window-IsValid : IsValid window (page 4096 ∷ [])
window-IsValid = record {
  small = omega arith;
  inside = omega arith;
  proper = ((omega arith, omega arith), tt);
  proper_live = ((omega arith, omega arith), tt);
  disjoint = λ b. ground arith;
}

gpa_alloc-Taken_example :
    (5000 ≤ page_round_up 5000)
    × (page_round_up 5000 < 5000 + 4096)
    × Taken window (page 4096 ∷ []) (page_round_up 5000) (gpa_alloc 1 window 5000)
gpa_alloc-Taken_example =
    gpa_alloc-Taken 1 window (page 4096 ∷ []) 5000 refl (omega arith) (omega arith) (omega arith)
      window-IsValid

gpa_release-Returns_example :
    Returns window (page 4096 ∷ []) (gpa_release window (1099511627776 + 4096) 4096) []
    × ((4096 + 4096 ≡ window.cur) ⊎ Touched window 4096 4096
        → length (gpa_release window (1099511627776 + 4096) 4096).free ≤ length window.free)
gpa_release-Returns_example = gpa_release-Returns window [] 4096 4096 refl refl window-IsValid

abbrev system : System
system = record { windows = λ _. window; quar = []; quar_bytes = 0 }

system-Capped : Capped system
system-Capped = record { counted = refl; few = omega arith; small = omega arith }

gpa_free-Owns_example :
    let t = gpa_free system 3 (1099511627776 + 4096) 4096 in Owns t.windows t.quar 3 []
unfolding page_round_up
gpa_free-Owns_example =
    gpa_free-Owns system 3 3 4096 4096 [] (omega arith) (omega arith) system-Capped owned
  where
    owned : Owns system.windows system.quar 3 (page 4096 ∷ [])
    owned = record { mapped = refl; fair = tt; valid = window-IsValid }

abbrev layout : Layout
layout = record no_layout { ram_top = 4096; block_base = 8192; sparse_base = 1099511627776 }

layout-IsSafe : IsSafe layout 1048576 1099511627776
layout-IsSafe = record { above_ram = omega arith; clear = inl (omega arith); fits = inl refl }

gpa_alloc-wraps_example :
    let r = gpa_alloc 1 window (2 ^ 64 - 4096) in
    (r.0 ≡ add64 1099511627776 (page_down (8192 + 4095))) × (r.1.cur < 8192)
gpa_alloc-wraps_example =
    gpa_alloc-wraps 1 window (page 4096 ∷ []) refl (omega arith) (omega arith) window-IsValid

sparse_fini-Purged_example : Purged system 3 (sparse_fini system 3).0
sparse_fini-Purged_example = sparse_fini-Purged system 3 system-Capped

-- The page in the free list goes first; after it comes the watermark.
two_pages :
    ((gpa_alloc 1 window 100).0 ≡ 1099511627776)
    × ((gpa_alloc 1 (gpa_alloc 1 window 100).1 100).0 ≡ 1099511635968)
unfolding gpa_alloc page_round_up take_rounded best_from carve swap_remove bump
two_pages = (refl, refl)
