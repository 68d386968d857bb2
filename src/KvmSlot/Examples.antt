-- ===== src/KvmSlot/Examples.antt =====
-- The slot pool at concrete inputs.
use nvkvm_pv.Base.{◌≡◌, refl, some, List, [], ◌∷◌}
use nvkvm_pv.KvmSlot.{u64, pos, negsuc, Call, allocs, releases, init, alloc, release, step, run}
use nvkvm_pv.KvmSlot.Inv.{IsValid}
use nvkvm_pv.KvmSlot.Calls.{highest, refusals, run-IsValid}

abbrev calls : List Call
calls = allocs ∷ releases (pos 64) ∷ releases (pos 64) ∷ releases (negsuc 1) ∷ []

run-IsValid_example :
    IsValid (run init calls)
    × ((run init calls).in_use_peak ≡ highest init calls)
    × ((run init calls).reject_count ≡ u64 (refusals init calls))
run-IsValid_example = run-IsValid calls

-- One slot at a time, and two refusals.
tallies : (highest init calls ≡ 1) × (refusals init calls ≡ 2)
unfolding init run step alloc release
tallies = (refl, refl)

-- The first slot, then a release of it and of guest RAM's slot 0.
first_slots :
    ((alloc init).0 ≡ some 64)
    × ((alloc (alloc init).1).0 ≡ some 65)
    × ((run init (allocs ∷ releases (pos 0) ∷ [])).reject_count ≡ 1)
unfolding init alloc run
first_slots = (refl, refl, refl)
