-- ===== src/Placement/CallLaws.antt =====
-- What a placement and the end of a mapping do to the window.
use nvkvm_pv.Base.{
  ℕ, ◌+◌, ◌-◌, ◌%◌, ◌≤◌, ◌<◌, ◌≡◌, ◌≢◌, refl, sym, subst, Bool, true, false, not, Option, none,
  some, List, ◌∷◌, ◌||◌, ◌&&◌, ltb, leb, ◌==◌, arith, inl, inr, ◌⊎◌, Bool-cases, All, All-get_elem?,
  All-swap_remove, total-swap_remove, get_elem?, swap_remove, ==-false,
}
use nvkvm_pv.Sparse.Window.{Extent}
use nvkvm_pv.Sparse.Cover.{hit}
use nvkvm_pv.Placement.Arena.{Arena, page_up, win_release, win_alloc}
use nvkvm_pv.Placement.ArenaLaws.{Paged, IsValid-less, win_release-IsValid, win_alloc-Gives}
use nvkvm_pv.Placement.Window.{
  IsoWindow, win_run_max, find_run, pick_victim, with_rest_back, span_for, start_run, place_run,
  placed_alone, win_place, win_unplace,
}
use nvkvm_pv.Placement.WindowLaws.{
  held, IsPlaced, Placed, with_rest_back-IsValid, pick_victim_lt, find_run_lem, extend_run-Placed,
  with_arena-IsPlaced, reserved-Placed,
}

start_run-Placed :
    (w : IsoWindow) (live : List Extent) (gva len : ℕ) (o : Option ℕ)
    → IsPlaced w live
    → 1 ≤ len
    → len % 4096 ≡ 0
    → ((i : ℕ) → o ≡ some i → i < win_run_max)
    → Placed w live len (start_run w gva len o)
unfolding start_run
start_run-Placed w live gva len none v s m l = (refl, refl, inl (refl, v))
start_run-Placed w live gva len (some i) v s m l =
    let (iv, e) = with_rest_back-IsValid w live i v (l i refl) in
    reserved-Placed w live i gva len (span_for len) (with_rest_back w.arena (w.run i))
      (win_alloc (with_rest_back w.arena (w.run i)) (span_for len)) v (l i refl) s m (ground arith)
      (ground arith) iv e refl

place_run-Placed :
    (w : IsoWindow) (live : List Extent) (gva len : ℕ) (o : Option ℕ)
    → find_run win_run_max 0 w.run gva len ≡ o
    → IsPlaced w live
    → 1 ≤ len
    → len % 4096 ≡ 0
    → Placed w live len (place_run w gva len o)
unfolding place_run
place_run-Placed w live gva len none h v s m =
    start_run-Placed w live gva len (pick_victim win_run_max 0 w.run none) v s m
      (λ i e. victim i (pick_victim_lt win_run_max 0 w.run none i e))
  where
    victim :
        (i : ℕ)
        → (◌≡◌ {A = Option ℕ} none (some i)) ⊎ ((0 ≤ i) × (i < 0 + win_run_max))
        → i < win_run_max
    victim i (inl n) = cc
    victim i (inr (a, b)) = omega arith
place_run-Placed w live gva len (some i) h v s m =
    let (a, b, c) = find_run_lem win_run_max 0 w.run gva len i h in
    let u : (w.run i).used ≡ true = ground arith in
    let p = v.runs i u in
    let f : len ≤ (w.run i).limit - (w.run i).next = ground (arith, p, v.valid.small) in
    extend_run-Placed w live i gva len v (omega arith) u s m f

placed_alone-Placed :
    (w : IsoWindow) (live : List Extent) (len : ℕ) (o : Option (ℕ × Arena))
    → win_alloc w.arena len ≡ o
    → IsPlaced w live
    → len % 4096 ≡ 0
    → Placed w live len (placed_alone w o)
placed_alone-Placed w live len none h v m = (refl, refl, inl (refl, v))
placed_alone-Placed w live len (some (off, a)) h v m =
    let (s, g) = win_alloc-Gives w.arena (held live w.run) len off a m v.valid h in
    (
      refl,
      g.same,
      inr (
        off,
        omega (arith, g.paged, v.space),
        record {
          space = rw g.same v.space;
          mapped =
              subst (λ (n : ℕ). All (Paged n) (record { off = off; len = len } ∷ live)) (sym g.same)
                (g.paged, v.mapped);
          runs = λ i. rw g.same (v.runs i);
          valid =
              IsValid-less a _ (held (record { off = off; len = len } ∷ live) w.run)
                (λ b. omega arith) g.valid;
        },
      ),
    )

pub win_place-Placed :
    (w : IsoWindow) (live : List Extent) (gva len : ℕ) (contig : Bool)
    → IsPlaced w live
    → Placed w live (page_up len) (win_place w gva len contig)
unfolding win_place
win_place-Placed w live gva len contig v =
    elim (Bool-cases (w.base == 0 || w.arena.size == 0 || len == 0)) [
      | inl b ↦ rw b (refl, refl, inl (refl, v))
      | inr b ↦ elim (Bool-cases (page_up len == 0)) [
        | inl c ↦ rw (b, c) (refl, refl, inl (refl, v))
        | inr c ↦
            let s : 1 ≤ page_up len = omega (arith, ==-false _ _ c) in
            let m : page_up len % 4096 ≡ 0 = omega arith in
            elim (Bool-cases (contig && not (gva == 0))) [
              | inl d ↦ rw (b, c, d) (place_run-Placed w live gva (page_up len) _ refl v s m)
              | inr d ↦ rw (b, c, d) (placed_alone-Placed w live (page_up len) _ refl v m)
            ]
      ]
    ]

-- An extent that was given back, of the length with which it was placed.
pub win_unplace-IsPlaced :
    (w : IsoWindow) (live : List Extent) (i len : ℕ) (e : Extent)
    → w.base ≢ 0
    → get_elem? live i ≡ some e
    → page_up len ≡ e.len
    → IsPlaced w live
    → IsPlaced (win_unplace w (w.base + e.off) len) (swap_remove i live)
      × ((win_unplace w (w.base + e.off) len).base ≡ w.base)
      × ((win_unplace w (w.base + e.off) len).arena.size ≡ w.arena.size)
unfolding win_unplace
win_unplace-IsPlaced w live i len e z g n v =
    let p : Paged w.arena.size e = All-get_elem? (Paged w.arena.size) live i e v.mapped g in
    let one : (w.base + e.off == 0 || len == 0) ≡ false = ground (arith, p) in
    let two : (not (w.base == 0)
          && leb w.base (w.base + e.off)
          && ltb (w.base + e.off - w.base) w.arena.size)
        ≡ true =
      ground (arith, p) in
    let three : w.base + e.off - w.base ≡ e.off = omega arith in
    let (iv, same) = win_release-IsValid w.arena e.off e.len (held (swap_remove i live) w.run) p (
      IsValid-less w.arena (held live w.run) _
        (λ b. omega (arith, total-swap_remove (hit b) live i e g)) v.valid) in
    rw (one, two, three, n)
      (
        with_arena-IsPlaced w (swap_remove i live) (win_release w.arena e.off e.len) w.run
            (record {
              space = v.space;
              mapped = All-swap_remove (Paged w.arena.size) live i v.mapped;
              runs = v.runs;
              valid =
                  IsValid-less w.arena (held live w.run) _
                    (λ b. omega (arith, total-swap_remove (hit b) live i e g)) v.valid;
            })
            same v.runs iv,
        refl,
        same,
      )
