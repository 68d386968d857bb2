-- ===== src/Placement/Window.antt =====
-- The window of an isolate and the runs in it, which keep the chunks of one range together.
use nvkvm_pv.Base.{
  ℕ, zero, suc, ◌-◌, ◌^◌, Bool, true, false, not, ◌&&◌, ◌||◌, Option, none, some, if◌then◌else◌,
  ltb, leb, ◌==◌, update,
}
use nvkvm_pv.Base.Words.{add64, sub64}
use nvkvm_pv.Placement.Arena.{Arena, win_release, win_alloc, page_up}

abbrev pub win_run_max : ℕ
win_run_max = 64

abbrev pub win_run_span : ℕ
win_run_span = 2 ^ 31

-- `gva_end` is where the guest's next chunk starts, `next` where it goes, and `limit` the end of
-- the reservation.
pub record Run : Type 0 where
  pub used : Bool
  pub gva_end : ℕ
  pub next : ℕ
  pub limit : ℕ
  pub seq : ℕ

pub record IsoWindow : Type 0 where
  pub base : ℕ
  pub arena : Arena
  pub run : ℕ → Run
  pub run_seq : ℕ

-- The first run, of `k` from number `i` on, that waits for a chunk at `gva` and has room for it.
abbrev pub is_waiting : Run → ℕ → ℕ → Bool
is_waiting r gva len = r.used && r.gva_end == gva && leb len (sub64 r.limit r.next)

unfoldable pub find_run : ℕ → ℕ → (ℕ → Run) → ℕ → ℕ → Option ℕ
find_run zero i run gva len = none
find_run (suc k) i run gva len =
    let rest = find_run k (suc i) run gva len in if is_waiting (run i) gva len then some i else rest

-- The slot for a new run, among `k` from number `i` on: a free one, or the one that was extended
-- longest ago, which is `victim` so far.
abbrev pub is_older : (ℕ → Run) → ℕ → Option ℕ → Bool
is_older run i none = true
is_older run i (some v) = ltb (run i).seq (run v).seq

unfoldable pub pick_victim : ℕ → ℕ → (ℕ → Run) → Option ℕ → Option ℕ
pick_victim zero i run victim = victim
pick_victim (suc k) i run victim =
    let rest = pick_victim k (suc i) run (if is_older run i victim then some i else victim) in
    if not (run i).used then some i else rest

-- The chunk goes to the end of run `i`, which ends when it is full.
unfoldable pub extend_run : IsoWindow → ℕ → ℕ → ℕ → ℕ × IsoWindow
extend_run w i gva len =
    let r = w.run i in
    let seq = add64 w.run_seq 1 in
    (
      add64 w.base r.next,
      record w {
        run = update w.run i (record r {
          used = not (leb r.limit (add64 r.next len));
          gva_end = add64 gva len;
          next = add64 r.next len;
          seq = seq;
        });
        run_seq = seq;
      },
    )

-- What a with_rest_back run has left goes back.
abbrev pub with_rest_back : Arena → Run → Arena
with_rest_back a r = if r.used then win_release a r.next (sub64 r.limit r.next) else a

abbrev pub span_for : ℕ → ℕ
span_for len = if ltb win_run_span len then len else win_run_span

-- A new run in slot `v`, of `span` bytes if there is room.
abbrev pub reserved : IsoWindow → ℕ → ℕ → ℕ → ℕ → Arena → Option (ℕ × Arena) → ℕ × IsoWindow
reserved w v gva len span a none =
    (0, record w { arena = a; run = update w.run v (record (w.run v) { used = false }) })
reserved w v gva len span a (some (off, b)) =
    extend_run
      (record w {
        arena = b;
        run = update w.run v (record (w.run v) { used = true; next = off; limit = add64 off span });
      })
      v gva len

-- There is always a victim.
unfoldable pub start_run : IsoWindow → ℕ → ℕ → Option ℕ → ℕ × IsoWindow
start_run w gva len none = (0, w)
start_run w gva len (some v) =
    let a = with_rest_back w.arena (w.run v) in
    reserved w v gva len (span_for len) a (win_alloc a (span_for len))

unfoldable pub place_run : IsoWindow → ℕ → ℕ → Option ℕ → ℕ × IsoWindow
place_run w gva len (some i) = extend_run w i gva len
place_run w gva len none = start_run w gva len (pick_victim win_run_max 0 w.run none)

abbrev pub placed_alone : IsoWindow → Option (ℕ × Arena) → ℕ × IsoWindow
placed_alone w none = (0, w)
placed_alone w (some (off, a)) = (add64 w.base off, record w { arena = a })

-- `win_place_locked`: the address in the isolate, or 0.
unfoldable pub win_place : IsoWindow → ℕ → ℕ → Bool → ℕ × IsoWindow
win_place w gva len contig =
    let n = page_up len in
    if w.base == 0 || w.arena.size == 0 || len == 0
    then (0, w)
    else if n == 0
    then (0, w)
    else if contig && not (gva == 0)
    then place_run w gva n (find_run win_run_max 0 w.run gva n)
    else placed_alone w (win_alloc w.arena n)

-- `nvkvm_win_unplace`, on the window of the isolate.
unfoldable pub win_unplace : IsoWindow → ℕ → ℕ → IsoWindow
win_unplace w stub_va len =
    if stub_va == 0 || len == 0
    then w
    else if not (w.base == 0) && leb w.base stub_va && ltb (stub_va - w.base) w.arena.size
    then record w { arena = win_release w.arena (stub_va - w.base) (page_up len) }
    else w
