-- ===== src/Placement/WindowLaws.antt =====
-- Mappings that come and go in the window of an isolate.
use nvkvm_pv.Base.{
  ℕ, zero, suc, ◌+◌, ◌-◌, ◌%◌, ◌^◌, ◌≤◌, ◌<◌, ◌≡◌, refl, ◌∙◌, true, false, not, Option, none, some,
  List, ◌∷◌, if◌then◌else◌, leb, ◌==◌, arith, inl, inr, ◌⊎◌, Bool-cases, All, total, update,
  sum_below, sum_below-update,
}
use nvkvm_pv.Base.Words.{add64, sub64}
use nvkvm_pv.Sparse.Window.{Extent}
use nvkvm_pv.Sparse.Cover.{hit}
use nvkvm_pv.Placement.Arena.{Arena, win_alloc}
use nvkvm_pv.Placement.ArenaLaws.{
  Paged, IsValid, IsValid-less, win_release-IsValid, win_alloc-Gives, hit_front,
}
use nvkvm_pv.Placement.Window.{
  Run, IsoWindow, win_run_max, find_run, is_waiting, pick_victim, extend_run, with_rest_back,
  reserved, is_older,
}

-- What a run has in reserve.
abbrev pub rest_of : Run → Extent
rest_of r = record { off = r.next; len = r.limit - r.next }

abbrev pub waits : ℕ → Run → ℕ
waits b r = if r.used then hit b (rest_of r) else 0

abbrev pub held : List Extent → (ℕ → Run) → ℕ → ℕ
held live run b = total (hit b) live + sum_below win_run_max (waits b) run

abbrev pub IsRun : ℕ → Run → Type 0
IsRun size r = (r.used ≡ true) → Paged size (rest_of r)

-- `live` holds the extents of the mappings that were placed.
pub record IsPlaced (w : IsoWindow) (live : List Extent) : Type 0 where
  pub space : w.base + w.arena.size ≤ 2 ^ 63
  pub mapped : All (Paged w.arena.size) live
  pub runs : (i : ℕ) → IsRun w.arena.size (w.run i)
  pub valid : IsValid w.arena (held live w.run)

-- Another run in a slot.
set_run :
    (size i : ℕ) (run : ℕ → Run) (r : Run)
    → ((j : ℕ) → IsRun size (run j))
    → IsRun size r
    → (j : ℕ) → IsRun size (update run i r j)
set_run size i run r v p j = elim (Bool-cases (i == j)) [ inl b ↦ rw b p | inr b ↦ rw b (v j) ]

-- The part of a run that a chunk takes, and what it leaves.
waits-extend :
    (b : ℕ) (r : Run) (next' len gva seq : ℕ)
    → r.used ≡ true
    → 1 ≤ len
    → len ≤ r.limit - r.next
    → next' ≡ r.next + len
    → waits b (record r { used = not (leb r.limit next'); gva_end = gva; next = next'; seq = seq })
        + hit b (record { off = r.next; len = len })
      ≡ waits b r
waits-extend b r next' len gva seq u s f e =
    let h = hit_front b r.next (r.limit - r.next) len f in ground arith

-- A chunk at the end of a run.
extend_run-IsPlaced :
    (w : IsoWindow) (live : List Extent) (i gva len : ℕ)
    → IsPlaced w live
    → i < win_run_max
    → (w.run i).used ≡ true
    → 1 ≤ len
    → len % 4096 ≡ 0
    → len ≤ (w.run i).limit - (w.run i).next
    → IsPlaced (extend_run w i gva len).1 (record { off = (w.run i).next; len = len } ∷ live)
      × ((extend_run w i gva len).0 ≡ w.base + (w.run i).next)
unfolding extend_run
extend_run-IsPlaced w live i gva len v l u s m f =
    let p : Paged w.arena.size (rest_of (w.run i)) = v.runs i u in
    let r = w.run i in
    let n : add64 r.next len ≡ r.next + len = omega (arith, p, v.valid.small) in
    let r' : Run = record r {
      used = not (leb r.limit (add64 r.next len));
      gva_end = add64 gva len;
      next = add64 r.next len;
      seq = add64 w.run_seq 1;
    } in
    let q : IsRun w.arena.size r' = λ h. rest p n h in
    (
      record {
        space = v.space;
        mapped = (omega (arith, p), v.mapped);
        runs = set_run w.arena.size i w.run r' v.runs q;
        valid =
            IsValid-less w.arena (held live w.run) _
              (λ b. omega (
                arith,
                sum_below-update (waits b) win_run_max i w.run r' l,
                waits-extend b r (add64 r.next len) len (add64 gva len) (add64 w.run_seq 1) u s f n,
              ))
              v.valid;
      },
      omega (arith, p, v.space),
    )
  where
    rest :
        Paged w.arena.size (rest_of (w.run i))
        → add64 (w.run i).next len ≡ (w.run i).next + len
        → not (leb (w.run i).limit (add64 (w.run i).next len)) ≡ true
        → Paged w.arena.size (record {
          off = add64 (w.run i).next len;
          len = (w.run i).limit - add64 (w.run i).next len;
        })
    rest p n h = ground (arith, p, n, h)

-- The slot of a run gives its reserve back.
pub with_rest_back-IsValid :
    (w : IsoWindow) (live : List Extent) (i : ℕ)
    → IsPlaced w live
    → i < win_run_max
    → IsValid
        (with_rest_back w.arena (w.run i))
        (held live (update w.run i (record (w.run i) { used = false })))
      × ((with_rest_back w.arena (w.run i)).size ≡ w.arena.size)
with_rest_back-IsValid w live i v l = elim (Bool-cases (w.run i).used) [
  | inl u ↦
      let p : Paged w.arena.size (rest_of (w.run i)) = v.runs i u in
      let n : sub64 (w.run i).limit (w.run i).next ≡ (w.run i).limit - (w.run i).next =
        omega (arith, p, v.valid.small) in
      rw (u, n)
        (win_release-IsValid w.arena (w.run i).next ((w.run i).limit - (w.run i).next) _ p
          (IsValid-less w.arena (held live w.run) _ (λ b. ground (arith, less b, u)) v.valid))
  | inr u ↦
      rw u (IsValid-less w.arena (held live w.run) _ (λ b. ground (arith, less b, u)) v.valid, refl)
]
  where
    less :
        (b : ℕ)
        → sum_below win_run_max (waits b) (update w.run i (record (w.run i) { used = false }))
            + waits b (w.run i)
          ≡ sum_below win_run_max (waits b) w.run + 0
    less b = sum_below-update (waits b) win_run_max i w.run (record (w.run i) { used = false }) l

pub pick_victim_lt :
    (k i : ℕ) (run : ℕ → Run) (victim : Option ℕ) (v : ℕ)
    → pick_victim k i run victim ≡ some v
    → (victim ≡ some v) ⊎ ((i ≤ v) × (v < i + k))
unfolding pick_victim
pick_victim_lt zero i run victim v h = inl h
pick_victim_lt (suc k) i run victim v h = elim (Bool-cases (not (run i).used)) [
  | inl b ↦
      let z : ◌≡◌ {A = Option ℕ} (some i) (some v) = rw b at h in
      let y : i ≡ v = cc in inr (omega arith, omega arith)
  | inr b ↦ elim (Bool-cases (is_older run i victim)) [
    | inl c ↦
        later (some i) (λ z. inr (let y : i ≡ v = cc in (omega arith, omega arith)))
          (pick_victim_lt k (suc i) run (some i) v (rw (b, c) at h))
    | inr c ↦ later victim (λ z. inl z) (pick_victim_lt k (suc i) run victim v (rw (b, c) at h))
  ]
]
  where
    later :
        (o : Option ℕ)
        → ((o ≡ some v) → (victim ≡ some v) ⊎ ((i ≤ v) × (v < i + suc k)))
        → (o ≡ some v) ⊎ ((suc i ≤ v) × (v < suc i + k))
        → (victim ≡ some v) ⊎ ((i ≤ v) × (v < i + suc k))
    later o f (inl z) = f z
    later o f (inr (x, y)) = inr (omega arith, omega arith)

pub find_run_lem :
    (k i : ℕ) (run : ℕ → Run) (gva len j : ℕ)
    → find_run k i run gva len ≡ some j
    → (i ≤ j) × (j < i + k) × (is_waiting (run j) gva len ≡ true)
unfolding find_run
find_run_lem zero i run gva len j h = cc
find_run_lem (suc k) i run gva len j h = elim (Bool-cases (is_waiting (run i) gva len)) [
  | inl b ↦
      let z : ◌≡◌ {A = Option ℕ} (some i) (some j) = rw b at h in
      let y : i ≡ j = cc in (omega arith, omega arith, rw (← y) b)
  | inr b ↦
      let (x, y, z) = find_run_lem k (suc i) run gva len j (rw b at h) in
      (omega arith, omega arith, z)
]

-- What placing `len` bytes comes to: no address and no new mapping, or one whose extent is added.
abbrev pub Placed : IsoWindow → List Extent → ℕ → ℕ × IsoWindow → Type 0
Placed w live len r =
    (r.1.base ≡ w.base)
    × (r.1.arena.size ≡ w.arena.size)
    × (((r.0 ≡ 0) × IsPlaced r.1 live)
        ⊎ ((off : ℕ) × (r.0 ≡ w.base + off)
            × IsPlaced r.1 (record { off = off; len = len } ∷ live)))

pub extend_run-Placed :
    (w : IsoWindow) (live : List Extent) (i gva len : ℕ)
    → IsPlaced w live
    → i < win_run_max
    → (w.run i).used ≡ true
    → 1 ≤ len
    → len % 4096 ≡ 0
    → len ≤ (w.run i).limit - (w.run i).next
    → Placed w live len (extend_run w i gva len)
unfolding extend_run
extend_run-Placed w live i gva len v l u s m f =
    let (p, e) = extend_run-IsPlaced w live i gva len v l u s m f in
    (refl, refl, inr ((w.run i).next, e, p))

-- The invariant with another arena of the same size.
pub with_arena-IsPlaced :
    (w : IsoWindow) (live : List Extent) (a : Arena) (run : ℕ → Run)
    → IsPlaced w live
    → a.size ≡ w.arena.size
    → ((j : ℕ) → IsRun w.arena.size (run j))
    → IsValid a (held live run)
    → IsPlaced (record w { arena = a; run = run }) live
with_arena-IsPlaced w live a run v e r i = record {
  space = rw e v.space;
  mapped = rw e v.mapped;
  runs = λ j. rw e (r j);
  valid = i;
}

pub reserved-Placed :
    (w : IsoWindow) (live : List Extent) (i gva len span : ℕ) (a : Arena) (o : Option (ℕ × Arena))
    → IsPlaced w live
    → i < win_run_max
    → 1 ≤ len
    → len % 4096 ≡ 0
    → len ≤ span
    → span % 4096 ≡ 0
    → IsValid a (held live (update w.run i (record (w.run i) { used = false })))
    → a.size ≡ w.arena.size
    → win_alloc a span ≡ o
    → Placed w live len (reserved w i gva len span a o)
reserved-Placed w live i gva len span a none v l s m f sm iv e h = (
  refl,
  e,
  inl (
    refl,
    with_arena-IsPlaced w live a _ v e
        (set_run w.arena.size i w.run (record (w.run i) { used = false }) v.runs (λ z. cc)) iv,
  ),
)
reserved-Placed w live i gva len span a (some (off, b)) v l s m f sm iv e h =
    let (one, g) = win_alloc-Gives a _ span off b sm iv h in
    let n : add64 off span ≡ off + span = omega (arith, g.paged, iv.small) in
    let size : b.size ≡ w.arena.size = g.same ∙ e in
    let r : Run = record (w.run i) { used = true; next = off; limit = add64 off span } in
    let run : ℕ → Run = update w.run i r in
    let p : IsPlaced (record w { arena = b; run = run }) live =
      with_arena-IsPlaced w live b run v size
        (set_run w.arena.size i w.run r v.runs (λ z. omega (arith, g.paged, n, e)))
        (IsValid-less b _ (held live run)
          (λ x. ground (
            arith,
            n,
            sum_below-update (waits x) win_run_max i w.run r l,
            sum_below-update (waits x) win_run_max i w.run (record (w.run i) { used = false }) l,
          ))
          g.valid) in
    let same : run i ≡ r = ground arith in
    let (x, y, z) =
      extend_run-Placed (record w { arena = b; run = run }) live i gva len p l (rw same refl) s m
        (rw same (omega (arith, n))) in
    (x, y ∙ size, z)
