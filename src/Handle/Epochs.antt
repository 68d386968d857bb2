-- ===== src/Handle/Epochs.antt =====
-- The generation counter of the handle table, and the invariant over whole runs.
use nvkvm_pv.Base.{
  ℕ, zero, suc, ◌+◌, ◌%◌, ◌^◌, ◌≤◌, ◌<◌, ◌≡◌, refl, Option, none, some, List, [], ◌∷◌, arith,
  length, Bool-cases, inl, inr,
}
use nvkvm_pv.Base.Results.{Result, ok, err}
use nvkvm_pv.Handle.Os.{Os, Handle, Table, table_init}
use nvkvm_pv.Handle.Alloc.{
  install, reserve, alloc_slot, open_nvidia, open_made, open_sized, sized, fill_memory, fill_nvidia,
  open_fd,
}
use nvkvm_pv.Handle.Life.{bad_id, pin, Acquired, acquire_fd, free}
use nvkvm_pv.Handle.Session.{close_session_at, close_session_from}
use nvkvm_pv.Handle.Scan.{InRange, alloc_slot-Claimed, alloc_slot-Unclaimed}
use nvkvm_pv.Handle.Inv.{IsValid, table_init-IsValid}
use nvkvm_pv.Handle.Keep.{
  ref-IsValid, unref-IsValid, attach_commit-IsValid, close-IsValid, abort_open-IsValid,
  acquire-IsValid, bad_id-InRange, free-Edited,
}
use nvkvm_pv.Handle.Runs.{
  Op, opens_nvidia, pends, commits, aborts, opens_memory, acquires, refs, unrefs, closes,
  closes_session, step, run, alloc_pending-IsValid, open_nvidia-IsValid, open_memory-IsValid,
  close_session_from-IsValid,
}

next_generation-alloc_slot_of :
    (t : Table) (o : Option ℕ)
    → (alloc_slot t).0 ≡ o
    → InRange t.next_id
    → (alloc_slot t).1.next_generation ≤ t.next_generation + 1
next_generation-alloc_slot_of t none e r = ground (arith, alloc_slot-Unclaimed t r e)
next_generation-alloc_slot_of t (some id) e r = ground (arith, alloc_slot-Claimed t id r e)

-- At most one generation is used up.
abbrev Within : Table → Table → Type 0
Within t u = u.next_generation ≤ t.next_generation + 1

alloc_slot-Within : (t : Table) → InRange t.next_id → Within t (alloc_slot t).1
alloc_slot-Within t r = next_generation-alloc_slot_of t (alloc_slot t).0 refl r

install-Within :
    (t : Table) (fd : ℕ) (f : Handle → Handle) (p : Option ℕ × Table)
    → Within t p.1
    → Within t (install fd f p).1
unfolding install
install-Within t fd f (none, u) w = w
install-Within t fd f (some id, u) w = w

reserve-Within :
    (t : Table) (session dev : ℕ) (p : Option ℕ × Table)
    → Within t p.1
    → Within t (reserve session dev p).1
unfolding reserve
reserve-Within t session dev (none, u) w = w
reserve-Within t session dev (some id, u) w = w

open_sized-Within :
    (t : Table) (session size fd : ℕ) (r : Result (Unit {0}))
    → InRange t.next_id
    → Within t (open_sized t session size fd r).1
unfolding open_sized
open_sized-Within t session size fd (err e) n = omega arith
open_sized-Within t session size fd (ok _) n =
    install-Within t fd (fill_memory session size fd) (alloc_slot t) (alloc_slot-Within t n)

open_made-Within :
    (os : Os) (t : Table) (session size : ℕ) (r : Result ℕ)
    → InRange t.next_id
    → Within t (open_made os t session size r).1
unfolding open_made
open_made-Within os t session size (err e) n = omega arith
open_made-Within os t session size (ok fd) n =
    open_sized-Within t session size fd (sized os fd size) n

open_nvidia-Within :
    (os : Os) (t : Table) (session dev flags : ℕ)
    → InRange t.next_id
    → Within t (open_nvidia os t session dev flags).1
unfolding open_nvidia
open_nvidia-Within os t session dev flags n = go (open_fd os dev flags) refl
  where
    go : (r : Result ℕ) → open_fd os dev flags ≡ r → Within t (open_nvidia os t session dev flags).1
    go (err e) q = rw (q, open_nvidia) (omega arith)
    go (ok fd) q =
        rw (q, open_nvidia)
          (install-Within t fd (fill_nvidia session dev (some fd)) (alloc_slot t)
            (alloc_slot-Within t n))

next_generation-free : (t : Table) (i : ℕ) → (free t i).next_generation ≡ t.next_generation
next_generation-free t i = (free-Edited t i).next_generation

next_generation-close_session_from :
    (session k i : ℕ) (t : Table)
    → (close_session_from session k i t).next_generation ≡ t.next_generation
unfolding close_session_from close_session_at
next_generation-close_session_from session zero i t = refl
next_generation-close_session_from session (suc k) i t = ground (
  arith,
  next_generation-free t i,
  next_generation-close_session_from session k (suc i) (close_session_at session t i),
)

pin-Within : (t : Table) (id : ℕ) (a : Option Acquired) → Within t (pin t id a).1
pin-Within t id none = omega arith
pin-Within t id (some a) = ground arith

step-Within : (t : Table) (o : Op) → IsValid t → Within t (step t o)
unfolding step
step-Within t (opens_nvidia os session dev flags) v =
    open_nvidia-Within os t session dev flags v.next
step-Within t (pends session dev) v =
    reserve-Within t session dev (alloc_slot t) (alloc_slot-Within t v.next)
step-Within t (commits id fd) v = ground arith
step-Within t (aborts id) v = ground arith
step-Within t (opens_memory os session size) v =
    ground (arith, open_made-Within os t session size os.memfd_create v.next)
step-Within t (acquires os id) v = pin-Within t id (acquire_fd os t id)
step-Within t (refs id g) v = ground arith
step-Within t (unrefs id g) v = ground arith
step-Within t (closes id) v = ground (arith, next_generation-free t (id % 65536))
step-Within t (closes_session session) v =
    omega (arith, next_generation-close_session_from session 65535 1 t)

-- One operation keeps the invariant, as long as the generation counter does not wrap.
pub step-IsValid :
    (t : Table) (o : Op) → t.next_generation + 1 < 2 ^ 64 → IsValid t → IsValid (step t o)
unfolding step
step-IsValid t (opens_nvidia os session dev flags) w v =
    open_nvidia-IsValid os t session dev flags w v
step-IsValid t (pends session dev) w v = alloc_pending-IsValid t session dev w v
step-IsValid t (commits id fd) w v = elim (Bool-cases (bad_id id)) [
  | inl b ↦ rw b v
  | inr b ↦ rw b (attach_commit-IsValid t id fd (bad_id-InRange id b) v)
]
step-IsValid t (aborts id) w v = abort_open-IsValid t id v
step-IsValid t (opens_memory os session size) w v = open_memory-IsValid os t session size w v
step-IsValid t (acquires os id) w v = acquire-IsValid os t id v
step-IsValid t (refs id g) w v = ref-IsValid t id g v
step-IsValid t (unrefs id g) w v = unref-IsValid t id g v
step-IsValid t (closes id) w v = close-IsValid t id v
step-IsValid t (closes_session session) w v = close_session_from-IsValid session 65535 1 t v

run-IsValid_from :
    (os : List Op) (t : Table)
    → t.next_generation + length os < 2 ^ 64
    → IsValid t
    → IsValid (run t os)
unfolding run
run-IsValid_from [] t w v = v
run-IsValid_from (o ∷ os) t w v =
    run-IsValid_from os (step t o) (omega (arith, step-Within t o v))
      (step-IsValid t o (omega arith) v)

-- After fewer than 2^64 - 1 operations on a fresh table, in any order, with any answers of the
-- operating system and with the two halves of an attach apart: each slot in use holds its own
-- index as id, in the range of ids; the generations of slots in use are below the counter and
-- pairwise distinct; and no recorded size passes the cap of 1 GiB.
pub run-table_init-IsValid : (os : List Op) → length os + 1 < 2 ^ 64 → IsValid (run table_init os)
unfolding table_init
run-table_init-IsValid os w = run-IsValid_from os table_init (omega arith) table_init-IsValid
