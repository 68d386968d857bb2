-- ===== src/Handle/Alloc.antt =====
-- The operations of src/qemu/nvkvm_handle.c that take a slot.
use nvkvm_pv.Base.{
  ℕ, zero, suc, ◌+◌, ◌%◌, ◌^◌, true, ◌||◌, Option, none, some, ◌∷◌, if◌then◌else◌, ltb, leb, ◌==◌,
  update,
}
use nvkvm_pv.Base.Results.{Result, ok, err, einval, emfile, efbig}
use nvkvm_pv.Handle.Os.{
  Os, Handle, Table, nvidia_dev, memory, handle_max, handle_mem_max, dev_eventfd, cleared,
  nvidia_dev_path,
}

abbrev pub after_id : ℕ → ℕ
after_id id = let next = (id + 1) % 2 ^ 32 in if leb handle_max next then 1 else next

abbrev pub after_generation : ℕ → ℕ
after_generation g = let next = (g + 1) % 2 ^ 64 in if next == 0 then 1 else next

-- The slot's new content and the table after it, at a free slot.
unfoldable pub claim : Table → ℕ → Table
claim t id = record t {
  handles =
      update t.handles (id % handle_max)
        (record cleared { id = id; generation = t.next_generation; in_use = true });
  next_generation = after_generation t.next_generation;
}

-- The loop of `alloc_slot` with the attempts that are left; `none` stands for its NULL.
unfoldable pub scan : ℕ → Table → Option ℕ × Table
unfolding claim
scan zero t = (none, t)
scan (suc attempts) t =
    let id = t.next_id in
    let moved : Table = record t { next_id = after_id id } in
    let rest = scan attempts moved in
    if id == 0 || (t.handles (id % handle_max)).in_use then rest else (some id, claim moved id)

unfoldable pub alloc_slot : Table → Option ℕ × Table
alloc_slot t = scan handle_max t

-- Writing through the pointer that `alloc_slot` returned.
abbrev pub write : Table → ℕ → (Handle → Handle) → Table
write t id f = record t {
  handles = update t.handles (id % handle_max) (f (t.handles (id % handle_max)));
}

abbrev pub close_fd : Table → ℕ → Table
close_fd t fd = record t { closed = fd ∷ t.closed }

-- An opened descriptor goes into a slot, or is closed if there is none.
unfoldable pub install : ℕ → (Handle → Handle) → Option ℕ × Table → Result ℕ × Table
install fd f (none, t) = (err emfile, close_fd t fd)
install fd f (some id, t) = (ok id, write t id f)

unfoldable pub open_fd : Os → ℕ → ℕ → Result ℕ
unfolding nvidia_dev_path
open_fd os dev flags =
    if dev == dev_eventfd
    then os.eventfd
    else elim (nvidia_dev_path dev) [ none ↦ err einval | some path ↦ os.open_dev path flags ]

abbrev pub fill_nvidia : ℕ → ℕ → Option ℕ → Handle → Handle
fill_nvidia session dev fd h = record h {
  kind = nvidia_dev;
  fd = fd;
  session_id = session;
  dev_id = dev;
}

unfoldable pub open_nvidia : Os → Table → ℕ → ℕ → ℕ → Result ℕ × Table
unfolding install alloc_slot open_fd
open_nvidia os t session dev flags = elim (open_fd os dev flags) [
  | err e ↦ (err e, t)
  | ok fd ↦ install fd (fill_nvidia session dev (some fd)) (alloc_slot t)
]

unfoldable pub reserve : ℕ → ℕ → Option ℕ × Table → Result ℕ × Table
reserve session dev (none, t) = (err emfile, t)
reserve session dev (some id, t) = (ok id, write t id (fill_nvidia session dev none))

unfoldable pub alloc_pending : Table → ℕ → ℕ → Result ℕ × Table
unfolding reserve alloc_slot
alloc_pending t session dev = reserve session dev (alloc_slot t)

-- `ftruncate` is asked for a positive size only.
abbrev pub sized : Os → ℕ → ℕ → Result (Unit {0})
sized os fd size = if ltb 0 size then os.ftruncate fd size else ok tt

abbrev pub fill_memory : ℕ → ℕ → ℕ → Handle → Handle
fill_memory session size fd h = record h {
  kind = memory;
  fd = some fd;
  session_id = session;
  dev_id = 0;
  size = size;
}

-- What follows `ftruncate`, and what follows `memfd_create`.
unfoldable pub open_sized : Table → ℕ → ℕ → ℕ → Result (Unit {0}) → Result ℕ × Table
unfolding install alloc_slot
open_sized t session size fd (err e) = (err e, close_fd t fd)
open_sized t session size fd (ok _) = install fd (fill_memory session size fd) (alloc_slot t)

unfoldable pub open_made : Os → Table → ℕ → ℕ → Result ℕ → Result ℕ × Table
unfolding open_sized
open_made os t session size (err e) = (err e, t)
open_made os t session size (ok fd) = open_sized t session size fd (sized os fd size)

unfoldable pub open_memory : Os → Table → ℕ → ℕ → Result ℕ × Table
unfolding open_made
open_memory os t session size =
    if ltb handle_mem_max size then (err efbig, t) else open_made os t session size os.memfd_create
