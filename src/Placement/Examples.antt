-- ===== src/Placement/Examples.antt =====
-- Concrete runs of the window of an isolate.
use nvkvm_pv.Base.{swap_remove, ℕ, ◌+◌, ◌≤◌, ◌≡◌, refl, true, false, [], ◌∷◌, All, total, arith}
use nvkvm_pv.Sparse.Window.{best_from}
use nvkvm_pv.Sparse.Cover.{hit}
use nvkvm_pv.Placement.Arena.{win_alloc, win_take, win_bump, win_carve, win_release}
use nvkvm_pv.Placement.ArenaLaws.{Paged}
use nvkvm_pv.Placement.Window.{
  IsoWindow, find_run, pick_victim, extend_run, start_run, place_run, win_place, win_unplace,
}
use nvkvm_pv.Placement.Calls.{
  Occupied, fresh, with_placed, place, unplace, here, next, fresh-IsPlaced, Reach-apart,
}
use nvkvm_pv.Placement.Room.{place_all, from}
use nvkvm_pv.Placement.Adjacent.{place_all-from}

abbrev mib : ℕ
mib = 2097152

abbrev at : ℕ
at = 1073741824

abbrev start : Occupied
start = fresh 1099511627776 274877906944

-- A run of two chunks, and the end of the first.
abbrev chunk : Occupied
chunk = with_placed start mib (win_place start.window at mib true)

abbrev two_chunks : Occupied
two_chunks = with_placed chunk 5000 (win_place chunk.window (at + mib) 5000 true)

abbrev after_end : Occupied
after_end = record {
  window = win_unplace two_chunks.window (two_chunks.window.base + 0) mib;
  live = record { off = mib; len = 8192 } ∷ [];
}

abbrev reused : Occupied
reused = with_placed after_end mib (win_place after_end.window 0 mib false)

reused_live : reused.live ≡ record { off = 0; len = mib } ∷ record { off = mib; len = 8192 } ∷ []
unfolding win_place place_run find_run start_run pick_victim win_alloc win_take win_bump best_from
    extend_run win_unplace win_release win_carve
reused_live = refl

Reach-apart_example :
    All (Paged 274877906944) after_end.live × ((b : ℕ) → total (hit b) after_end.live ≤ 1)
unfolding win_place place_run find_run start_run pick_victim win_alloc win_take win_bump best_from
    extend_run swap_remove
Reach-apart_example =
    Reach-apart 1099511627776 274877906944 after_end (omega arith) (omega arith) (omega arith) (
      next (next (next here (place at mib true)) (place (at + mib) 5000 true))
        (unplace 1 mib (record { off = 0; len = mib }) refl refl))

place_all-from_example :
    place_all start.window at (mib ∷ 8192 ∷ [])
    ≡ from (win_place start.window at mib true).0 (mib ∷ 8192 ∷ [])
unfolding win_place place_run find_run start_run pick_victim win_alloc win_take win_bump best_from
    extend_run
place_all-from_example =
    place_all-from start.window [] at mib (8192 ∷ [])
      (fresh-IsPlaced 1099511627776 274877906944 (omega arith) (omega arith)) (omega arith)
      (omega arith) (omega arith) (omega arith) (omega arith) (λ j u. cc) (omega arith)

-- A run outlives the mappings in it. A first chunk of the range from `at` on is placed, ended, and
-- placed again, which starts a second run; the chunk after it then goes to what is left of the
-- first run, and the two are not adjacent.
abbrev ended : IsoWindow
ended = win_unplace chunk.window 1099511627776 mib

abbrev placed_again : ℕ × IsoWindow
placed_again = win_place ended at mib true

run_outlives :
    (placed_again.0 ≡ 1099511627776 + 2147483648)
    × ((win_place placed_again.1 (at + mib) mib true).0 ≡ 1099511627776 + mib)
unfolding win_place place_run find_run start_run pick_victim win_alloc win_take win_bump best_from
    extend_run win_unplace win_release
run_outlives = (refl, refl)
