-- ===== src/Placement/Adjacent.antt =====
-- The chunks of one range, placed one after the other.
use nvkvm_pv.Base.{
  ℕ, zero, suc, ◌+◌, ◌^◌, ◌≤◌, ◌<◌, ◌≡◌, ◌≢◌, refl, true, false, Option, none, some, List, ◌∷◌,
  ◌||◌, ◌==◌, arith, inl, inr, ◌⊎◌, Bool-cases, All, total, update, update_ne,
}
use nvkvm_pv.Base.Words.{add64}
use nvkvm_pv.Sparse.Window.{Extent}
use nvkvm_pv.Placement.Arena.{Arena, page_up, win_alloc}
use nvkvm_pv.Placement.ArenaLaws.{IsValid, win_alloc-Gives}
use nvkvm_pv.Placement.Window.{
  Run, IsoWindow, win_run_max, win_run_span, find_run, is_waiting, pick_victim, extend_run,
  with_rest_back, span_for, reserved, start_run, place_run, win_place,
}
use nvkvm_pv.Placement.WindowLaws.{IsPlaced, with_rest_back-IsValid, pick_victim_lt}
use nvkvm_pv.Placement.Room.{
  place_all, from, bytes, WholePages, Elsewhere, Room, extend_run-Room, place_all-Room,
}

find_run-none :
    (k i : ℕ) (run : ℕ → Run) (gva len : ℕ)
    → ((m : ℕ) → is_waiting (run m) gva len ≡ false)
    → find_run k i run gva len ≡ none
unfolding find_run
find_run-none zero i run gva len o = refl
find_run-none (suc k) i run gva len o = rw (o i) (find_run-none k (suc i) run gva len o)

-- Chunks of which the first starts a run, as far as the slot and the reservation are known.
reserved_first :
    (w : IsoWindow) (i gva n : ℕ) (ns : List ℕ) (a : Arena) (others : ℕ → ℕ)
    (o : Option (ℕ × Arena))
    → i < win_run_max
    → All WholePages (n ∷ ns)
    → gva ≢ 0
    → gva + bytes (n ∷ ns) < 2 ^ 64
    → bytes (n ∷ ns) ≤ win_run_span
    → w.base ≢ 0
    → w.base + w.arena.size ≤ 2 ^ 63
    → a.size ≡ w.arena.size
    → IsValid a others
    → ((j : ℕ) → Elsewhere gva (bytes (n ∷ ns)) (w.run j))
    → win_alloc a win_run_span ≡ o
    → (reserved w i gva n win_run_span a o).0 ≢ 0
    → (reserved w i gva n win_run_span a o).0
        ∷ place_all (reserved w i gva n win_run_span a o).1 (gva + n) ns
      ≡ from (reserved w i gva n win_run_span a o).0 (n ∷ ns)
reserved_first w i gva n ns a others none l ps z g f bz sp e iv o h nz = absurd (nz refl)
reserved_first w i gva n ns a others (some (off, b)) l (p, ps) z g f bz sp e iv o h nz =
    let (one, gives) = win_alloc-Gives a others win_run_span off b (omega arith) iv h in
    let m : add64 off win_run_span ≡ off + win_run_span = omega (arith, gives.paged, iv.small) in
    let r : Run = record (w.run i) { used = true; next = off; limit = add64 off win_run_span } in
    let w' : IsoWindow = record w { arena = b; run = update w.run i r } in
    let room : Room w' i gva (n + bytes ns) = record {
      index = l;
      live_run = λ q. ground arith;
      fits = ground (arith, m);
      inside = ground (arith, m, gives.paged, gives.same);
      small = gives.valid.small;
      space = omega (arith, gives.same);
      based = bz;
      others = λ j d. rw (update_ne w.run i r j (λ q. d (omega arith))) (o j);
    } in
    let (r', x, y, c, d) = extend_run-Room w' i gva n (bytes ns) p.0 (omega arith) room in
    let tail =
      place_all-Room ns (extend_run w' i gva n).1 i (gva + n) ps (omega arith) (omega arith) d r' in
    let next : (extend_run w' i gva n).1.base + ((extend_run w' i gva n).1.run i).next
        ≡ (extend_run w' i gva n).0 + n =
      omega arith in
    rw (tail, next) refl

-- A first chunk that no run waits for.
win_place-start :
    (w : IsoWindow) (gva n total : ℕ)
    → WholePages n
    → gva ≢ 0
    → gva + n < 2 ^ 64
    → n ≤ total
    → n ≤ win_run_span
    → ((j : ℕ) → Elsewhere gva total (w.run j))
    → (win_place w gva n true).0 ≢ 0
    → win_place w gva n true ≡ start_run w gva n (pick_victim win_run_max 0 w.run none)
unfolding win_place place_run
win_place-start w gva n total p z g l f o nz =
    elim (Bool-cases (w.base == 0 || w.arena.size == 0 || n == 0)) [
      | inl b ↦ absurd ((rw b at nz) refl)
      | inr b ↦
          let pages : page_up n ≡ n = omega (arith, p) in
          let two : (n == 0) ≡ false = ground (arith, p) in
          let three : (gva == 0) ≡ false = ground arith in
          let found : find_run win_run_max 0 w.run gva n ≡ none =
            find_run-none win_run_max 0 w.run gva n (λ m. waiting m (o m)) in
          rw (b, pages, two, three, found) refl
    ]
  where
    waiting : (m : ℕ) → Elsewhere gva total (w.run m) → is_waiting (w.run m) gva n ≡ false
    waiting m h = elim (Bool-cases (w.run m).used) [
      | inl u ↦ elim (h u) [ inl a ↦ ground (arith, p) | inr b ↦ ground (arith, p) ]
      | inr u ↦ rw u refl
    ]

start_first :
    (w : IsoWindow) (live : List Extent) (gva n : ℕ) (ns : List ℕ) (o : Option ℕ)
    → IsPlaced w live
    → w.base ≢ 0
    → All WholePages (n ∷ ns)
    → gva ≢ 0
    → gva + bytes (n ∷ ns) < 2 ^ 64
    → bytes (n ∷ ns) ≤ win_run_span
    → ((j : ℕ) → Elsewhere gva (bytes (n ∷ ns)) (w.run j))
    → pick_victim win_run_max 0 w.run none ≡ o
    → (start_run w gva n o).0 ≢ 0
    → (start_run w gva n o).0 ∷ place_all (start_run w gva n o).1 (gva + n) ns
      ≡ from (start_run w gva n o).0 (n ∷ ns)
unfolding start_run
start_first w live gva n ns none v bz ps z g f e h nz = absurd (nz refl)
start_first w live gva n ns (some i) v bz ps z g f e h nz =
    let l : i < win_run_max = below (pick_victim_lt win_run_max 0 w.run none i h) in
    let (iv, same) = with_rest_back-IsValid w live i v l in
    let s : span_for n ≡ win_run_span = ground arith in
    rw s (
      reserved_first w i gva n ns (with_rest_back w.arena (w.run i)) _
        (win_alloc (with_rest_back w.arena (w.run i)) win_run_span) l ps z g f bz v.space same iv e
        refl (rw s at nz))
  where
    below : (◌≡◌ {A = Option ℕ} none (some i)) ⊎ ((0 ≤ i) × (i < 0 + win_run_max)) → i < win_run_max
    below (inl c) = cc
    below (inr (a, b)) = omega arith

-- In a window whose state is sound, chunks of whole pages that follow one another, of 2 GiB at most
-- together and not at guest address 0, come out one right after the other from the address of the
-- first on, if the first is placed at all, and if no run waits for a guest address of the range.
pub place_all-from :
    (w : IsoWindow) (live : List Extent) (gva n : ℕ) (ns : List ℕ)
    → IsPlaced w live
    → w.base ≢ 0
    → All WholePages (n ∷ ns)
    → gva ≢ 0
    → gva + bytes (n ∷ ns) < 2 ^ 64
    → bytes (n ∷ ns) ≤ win_run_span
    → ((j : ℕ) → Elsewhere gva (bytes (n ∷ ns)) (w.run j))
    → (win_place w gva n true).0 ≢ 0
    → place_all w gva (n ∷ ns) ≡ from (win_place w gva n true).0 (n ∷ ns)
unfolding place_all
place_all-from w live gva n ns v bz ps z g f e nz =
    let start =
      win_place-start w gva n (bytes (n ∷ ns)) ps.0 z (omega arith) (omega arith) (omega arith) e
        nz in
    rw start (
      start_first w live gva n ns (pick_victim win_run_max 0 w.run none) v bz ps z g f e refl
        (rw start at nz))
