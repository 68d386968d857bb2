-- ===== src/Handle/Runs.antt =====
-- Sequences of operations on the handle table, in any order and by any threads.
use nvkvm_pv.Base.{
  ℕ, zero, suc, ◌+◌, ◌^◌, ◌≤◌, ◌<◌, ◌≡◌, refl, sym, ◌∙◌, Option, none, some, List, [], ◌∷◌,
  if◌then◌else◌, ltb, ltb-false,
}
use nvkvm_pv.Base.Results.{Result, ok, err}
use nvkvm_pv.Handle.Os.{Os, Handle, Table, handle_mem_max}
use nvkvm_pv.Handle.Alloc.{
  write, close_fd, install, reserve, alloc_slot, open_nvidia, alloc_pending, open_memory, open_made,
  open_sized, fill_memory, fill_nvidia, sized, open_fd,
}
use nvkvm_pv.Handle.Life.{
  bad_id, attach_commit, abort_open, acquire_fd_ref_isolate, ref_isolate_generation,
  unref_isolate_generation, close, free,
}
use nvkvm_pv.Handle.Session.{spares, close_session_at, close_session_from, close_session}
use nvkvm_pv.Handle.Scan.{InRange, alloc_slot-Claimed, alloc_slot-Unclaimed}
use nvkvm_pv.Handle.Inv.{IsValid, Claimed-IsValid, Unclaimed-IsValid}
use nvkvm_pv.Handle.Keep.{if-IsValid, when-IsValid, write-IsValid, free-IsValid}

-- What `alloc_slot` leaves, a slot taken or not.
abbrev Slotted : Option ℕ × Table → Type 0
Slotted (none, u) = IsValid u
Slotted (some id, u) = InRange id × IsValid u

alloc_slot-Slotted_of :
    (t : Table) (o : Option ℕ)
    → (alloc_slot t).0 ≡ o
    → t.next_generation + 1 < 2 ^ 64
    → IsValid t
    → Slotted (o, (alloc_slot t).1)
alloc_slot-Slotted_of t none e w v =
    Unclaimed-IsValid t (alloc_slot t).1 (alloc_slot-Unclaimed t v.next e) v
alloc_slot-Slotted_of t (some id) e w v =
    let c = alloc_slot-Claimed t id v.next e in
    (c.range, Claimed-IsValid t (alloc_slot t).1 id c w v)

alloc_slot-Slotted :
    (t : Table) → t.next_generation + 1 < 2 ^ 64 → IsValid t → Slotted (alloc_slot t)
alloc_slot-Slotted t w v = alloc_slot-Slotted_of t (alloc_slot t).0 refl w v

-- A way to fill a slot in that keeps its identity and its recorded size a bound.
abbrev Fills : (Handle → Handle) → Type 0
Fills f =
    (h : Handle)
    → ((f h).in_use ≡ h.in_use)
      × ((f h).id ≡ h.id)
      × ((f h).generation ≡ h.generation)
      × (h.size ≤ handle_mem_max → (f h).size ≤ handle_mem_max)

fill-IsValid :
    (u : Table) (id : ℕ) (f : Handle → Handle)
    → Fills f
    → InRange id
    → IsValid u
    → IsValid (write u id f)
fill-IsValid u id f k r v =
    let (a, b, c, d) = k (u.handles id) in
    write-IsValid u id f r (λ w h. (sym a ∙ h, b, c, d (w.sizes id (sym a ∙ h)))) v

close_fd-IsValid : (t : Table) (fd : ℕ) → IsValid t → IsValid (close_fd t fd)
close_fd-IsValid t fd v = record {
  next = v.next;
  epoch = v.epoch;
  ids = v.ids;
  epochs = v.epochs;
  epochs_ne = v.epochs_ne;
  sizes = v.sizes;
}

install-IsValid :
    (fd : ℕ) (f : Handle → Handle) (p : Option ℕ × Table)
    → Fills f
    → Slotted p
    → IsValid (install fd f p).1
unfolding install
install-IsValid fd f (none, u) k s = close_fd-IsValid u fd s
install-IsValid fd f (some id, u) k s = fill-IsValid u id f k s.0 s.1

reserve-IsValid :
    (session dev : ℕ) (p : Option ℕ × Table) → Slotted p → IsValid (reserve session dev p).1
unfolding reserve
reserve-IsValid session dev (none, u) s = s
reserve-IsValid session dev (some id, u) s =
    fill-IsValid u id (fill_nvidia session dev none) (λ h. (refl, refl, refl, λ b. b)) s.0 s.1

pub alloc_pending-IsValid :
    (t : Table) (session dev : ℕ)
    → t.next_generation + 1 < 2 ^ 64
    → IsValid t
    → IsValid (alloc_pending t session dev).1
unfolding alloc_pending
alloc_pending-IsValid t session dev w v =
    reserve-IsValid session dev (alloc_slot t) (alloc_slot-Slotted t w v)

pub open_nvidia-IsValid :
    (os : Os) (t : Table) (session dev flags : ℕ)
    → t.next_generation + 1 < 2 ^ 64
    → IsValid t
    → IsValid (open_nvidia os t session dev flags).1
unfolding open_nvidia
open_nvidia-IsValid os t session dev flags w v = go (open_fd os dev flags) refl
  where
    go : (r : Result ℕ) → open_fd os dev flags ≡ r → IsValid (open_nvidia os t session dev flags).1
    go (err e) q = rw (q, open_nvidia) v
    go (ok fd) q =
        rw (q, open_nvidia)
          (install-IsValid fd (fill_nvidia session dev (some fd)) (alloc_slot t)
            (λ h. (refl, refl, refl, λ b. b)) (alloc_slot-Slotted t w v))

open_sized-IsValid :
    (t : Table) (session size fd : ℕ) (r : Result (Unit {0}))
    → size ≤ handle_mem_max
    → t.next_generation + 1 < 2 ^ 64
    → IsValid t
    → IsValid (open_sized t session size fd r).1
unfolding open_sized
open_sized-IsValid t session size fd (err e) b w v = close_fd-IsValid t fd v
open_sized-IsValid t session size fd (ok _) b w v =
    install-IsValid fd (fill_memory session size fd) (alloc_slot t)
      (λ h. (refl, refl, refl, λ _. b)) (alloc_slot-Slotted t w v)

open_made-IsValid :
    (os : Os) (t : Table) (session size : ℕ) (r : Result ℕ)
    → size ≤ handle_mem_max
    → t.next_generation + 1 < 2 ^ 64
    → IsValid t
    → IsValid (open_made os t session size r).1
unfolding open_made
open_made-IsValid os t session size (err e) b w v = v
open_made-IsValid os t session size (ok fd) b w v =
    open_sized-IsValid t session size fd (sized os fd size) b w v

pub open_memory-IsValid :
    (os : Os) (t : Table) (session size : ℕ)
    → t.next_generation + 1 < 2 ^ 64
    → IsValid t
    → IsValid (open_memory os t session size).1
unfolding open_memory
open_memory-IsValid os t session size w v =
    if-IsValid (ltb handle_mem_max size) _ _ v
      λ b. open_made-IsValid os t session size os.memfd_create (ltb-false _ _ b) w v

close_session_at-IsValid :
    (session : ℕ) (t : Table) (i : ℕ) → IsValid t → IsValid (close_session_at session t i)
unfolding close_session_at
close_session_at-IsValid session t i v =
    when-IsValid (spares session (t.handles i)) (free t i) t (free-IsValid t i v) v

pub close_session_from-IsValid :
    (session k i : ℕ) (t : Table) → IsValid t → IsValid (close_session_from session k i t)
unfolding close_session_from
close_session_from-IsValid session zero i t v = v
close_session_from-IsValid session (suc k) i t v =
    close_session_from-IsValid session k (suc i) (close_session_at session t i)
      (close_session_at-IsValid session t i v)

-- The operations, with what the operating system answers to each.
pub data Op : Type 0 where
  opens_nvidia : Os → ℕ → ℕ → ℕ → Op
  pends : ℕ → ℕ → Op
  commits : ℕ → ℕ → Op  -- the second half of an attach, whatever came between
  aborts : ℕ → Op
  opens_memory : Os → ℕ → ℕ → Op
  acquires : Os → ℕ → Op
  refs : ℕ → ℕ → Op
  unrefs : ℕ → ℕ → Op
  closes : ℕ → Op
  closes_session : ℕ → Op

-- `nvkvm_handle_attach_fd` refuses an id out of range before its first half.
unfoldable pub step : Table → Op → Table
unfolding open_nvidia alloc_pending attach_commit abort_open open_memory acquire_fd_ref_isolate
    ref_isolate_generation unref_isolate_generation close close_session
step t (opens_nvidia os session dev flags) = (open_nvidia os t session dev flags).1
step t (pends session dev) = (alloc_pending t session dev).1
step t (commits id fd) = if bad_id id then t else (attach_commit t id fd).1
step t (aborts id) = abort_open t id
step t (opens_memory os session size) = (open_memory os t session size).1
step t (acquires os id) = (acquire_fd_ref_isolate os t id).1
step t (refs id g) = (ref_isolate_generation t id g).1
step t (unrefs id g) = (unref_isolate_generation t id g).1
step t (closes id) = (close t id).1
step t (closes_session session) = close_session t session

unfoldable pub run : Table → List Op → Table
unfolding step
run t [] = t
run t (o ∷ os) = run (step t o) os
