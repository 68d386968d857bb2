-- ===== src/Handle/Life.antt =====
-- The operations of src/qemu/nvkvm_handle.c on one handle that exists.
use nvkvm_pv.Base.{
  ℕ, ◌+◌, ◌-◌, ◌%◌, ◌^◌, Bool, true, false, not, ◌&&◌, ◌||◌, Option, none, some, if◌then◌else◌, ltb,
  leb, ◌==◌, update,
}
use nvkvm_pv.Base.Results.{Result, ok, err, einval, ebadf, ebusy, eexist}
use nvkvm_pv.Handle.Os.{Os, Handle, Table, handle_max, attach_fd_matches_dev}
use nvkvm_pv.Handle.Alloc.{write, close_fd}

abbrev pub with_fd : ℕ → Handle → Handle
with_fd fd h = record h { fd = some fd }

abbrev pub retired : Handle → Handle
retired h = record h { in_use = false }

abbrev pub pinned : Handle → Handle
pinned h = record h { isolate_refcount = (h.isolate_refcount + 1) % 2 ^ 32 }

abbrev pub unpinned : Handle → Handle
unpinned h = record h { isolate_refcount = h.isolate_refcount - 1 }

-- The test at the head of each function.
abbrev pub bad_id : ℕ → Bool
bad_id id = id == 0 || leb handle_max id

abbrev pub slot : Table → ℕ → Handle
slot t id = t.handles (id % handle_max)

abbrev pub names : Table → ℕ → Bool
names t id = (slot t id).in_use && (slot t id).id == id

abbrev pub has_fd : Option ℕ → Bool
has_fd none = false
has_fd (some _) = true

-- The first critical section of `nvkvm_handle_attach_fd`: the device that the slot claims.
unfoldable pub attach_check : Table → ℕ → Result ℕ
attach_check t id =
    if not (names t id)
    then err ebadf
    else if has_fd (slot t id).fd
    then err eexist
    else ok (slot t id).dev_id

-- The second one, which validates again and stores.
unfoldable pub attach_commit : Table → ℕ → ℕ → Result (Unit {0}) × Table
attach_commit t id fd =
    if not (names t id)
    then (err ebadf, t)
    else if has_fd (slot t id).fd
    then (err eexist, t)
    else (ok tt, write t id (with_fd fd))

-- `between` is what other threads do to the table while the lock is dropped.
unfoldable pub attach_fd : Os → (Table → Table) → Table → ℕ → Option ℕ → Result (Unit {0}) × Table
unfolding attach_check attach_commit
attach_fd os between t id none = (err einval, t)
attach_fd os between t id (some fd) =
    if bad_id id then (err einval, t) else elim (attach_check t id) [
      | err e ↦ (err e, t)
      | ok dev ↦
          let u = between t in
          if not (attach_fd_matches_dev os fd dev) then (err ebadf, u) else attach_commit u id fd
    ]

unfoldable pub abort_open : Table → ℕ → Table
abort_open t id =
    if bad_id id
    then t
    else if names t id && not (has_fd (slot t id).fd)
    then write t id retired
    else t

-- `nvkvm_handle_get`: the index of the slot that the returned pointer aims at.
unfoldable pub get : Table → ℕ → Option ℕ
get t id = if bad_id id then none else if not (names t id) then none else some (id % handle_max)

-- The descriptor with the device and the generation that go out beside it. `fcntl` may fail; then
-- the device and the generation are still written.
pub record Acquired : Type 0 where
  pub dup_fd : Option ℕ
  pub device : ℕ
  pub epoch : ℕ

abbrev pub acquire_from : Os → Handle → Option ℕ → Option Acquired
acquire_from os h none = none
acquire_from os h (some fd) =
    some (record { dup_fd = os.dup fd; device = h.dev_id; epoch = h.generation })

unfoldable pub acquire_fd : Os → Table → ℕ → Option Acquired
acquire_fd os t id =
    if bad_id id
    then none
    else if names t id
    then acquire_from os (slot t id) (slot t id).fd
    else none

-- The pin of `nvkvm_handle_acquire_fd_ref_isolate`, taken if and only if the dup succeeded.
abbrev pub pin : Table → ℕ → Option Acquired → Option Acquired × Table
pin t id none = (none, t)
pin t id (some a) = elim a.dup_fd [ none ↦ (none, t) | some _ ↦ (some a, write t id pinned) ]

unfoldable pub acquire_fd_ref_isolate : Os → Table → ℕ → Option Acquired × Table
unfolding acquire_fd
acquire_fd_ref_isolate os t id = pin t id (acquire_fd os t id)

-- The test of the functions that are qualified by a generation; 0 stands for any.
abbrev pub stale : Table → ℕ → ℕ → Bool
stale t id g = not (names t id) || (not (g == 0) && not ((slot t id).generation == g))

unfoldable pub ref_isolate_generation : Table → ℕ → ℕ → Result (Unit {0}) × Table
ref_isolate_generation t id g =
    if bad_id id
    then (err ebadf, t)
    else if stale t id g
    then (err ebadf, t)
    else (ok tt, write t id pinned)

-- `isolate_refcount` is lowered only above 0, so truncated `-` is exact.
unfoldable pub unref_isolate_generation : Table → ℕ → ℕ → Result (Unit {0}) × Table
unref_isolate_generation t id g =
    if bad_id id
    then (err ebadf, t)
    else if stale t id g
    then (err ebadf, t)
    else (ok tt, write t id unpinned)

unfoldable pub ref_isolate : Table → ℕ → Result (Unit {0}) × Table
unfolding ref_isolate_generation
ref_isolate t id = ref_isolate_generation t id 0

unfoldable pub unref_isolate : Table → ℕ → Result (Unit {0}) × Table
unfolding unref_isolate_generation
unref_isolate t id = unref_isolate_generation t id 0

-- Closing the descriptor of a slot, if it has one, and freeing the slot.
abbrev pub log_close : Option ℕ → Table → Table
log_close none t = t
log_close (some fd) t = close_fd t fd

abbrev pub free : Table → ℕ → Table
free t i =
    log_close (t.handles i).fd (record t {
      handles = update t.handles i (record (t.handles i) { fd = none; in_use = false });
    })

unfoldable pub close : Table → ℕ → Result (Unit {0}) × Table
close t id =
    if bad_id id
    then (err ebadf, t)
    else if not (names t id)
    then (err ebadf, t)
    else if ltb 0 (slot t id).isolate_refcount
    then (err ebusy, t)
    else (ok tt, free t (id % handle_max))
