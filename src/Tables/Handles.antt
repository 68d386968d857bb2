-- ===== src/Tables/Handles.antt =====
-- Handles and isolates of the tables. A descriptor that is negative in C is `none` here.
use nvkvm_pv.Base.{
  ℕ, ◌+◌, ◌-◌, ◌%◌, ◌^◌, Bool, true, false, not, ◌||◌, Option, none, some, List, [], ◌∷◌,
  if◌then◌else◌, ltb, leb, ◌==◌, update,
}
use nvkvm_pv.Base.Results.{Result, ok, err, einval, ebusy, enoent, enospc, ealready}
use nvkvm_pv.Tables.Ids.{id_pack, id_slot, after_gen, after_slot, search}

abbrev pub max_handles : ℕ
max_handles = 4096

abbrev pub max_isolates : ℕ
max_isolates = 256

pub record HandleEntry : Type 0 where
  pub in_use : Bool
  pub handle_id : ℕ
  pub kind : ℕ
  pub qemu_fd : Option ℕ
  pub ready : Bool
  pub poll_enabled : Bool
  pub refcount : ℕ

-- `closed` holds the descriptors that were closed.
pub record Handles : Type 0 where
  pub slots : ℕ → HandleEntry
  pub generation : ℕ → ℕ
  pub next_slot : ℕ
  pub closed : List ℕ

abbrev pub no_handle : HandleEntry
no_handle = record {
  in_use = false;
  handle_id = 0;
  kind = 0;
  qemu_fd = none;
  ready = false;
  poll_enabled = false;
  refcount = 0;
}

abbrev pub handles_init : Handles
handles_init = record { slots = λ _. no_handle; generation = λ _. 0; next_slot = 1; closed = [] }

abbrev pub handle_used : Handles → ℕ → Bool
handle_used t s = (t.slots s).in_use

abbrev pub put_handle : Handles → ℕ → HandleEntry → Handles
put_handle t s e = record t { slots = update t.slots s e }

-- The slot that the search found gets the next generation's id.
unfoldable pub take_handle : Handles → ℕ → Option ℕ → Result ℕ × Handles
take_handle t kind none = (err enospc, t)
take_handle t kind (some s) =
    let gen = after_gen (t.generation s) in
    let e : HandleEntry = record no_handle {
      in_use = true;
      handle_id = id_pack gen s;
      kind = kind;
    } in
    (
      ok (id_pack gen s),
      record t {
        slots = update t.slots s e;
        generation = update t.generation s gen;
        next_slot = after_slot max_handles s;
      },
    )

unfoldable pub handle_alloc : Handles → ℕ → Result ℕ × Handles
handle_alloc t kind =
    if kind == 0
    then (err einval, t)
    else take_handle t kind (search max_handles (handle_used t) t.next_slot 0 max_handles)

-- `handle_lookup_locked`: the slot of the entry.
unfoldable pub handle_lookup : Handles → ℕ → Option ℕ
handle_lookup t id =
    let s = id_slot id in
    if s == 0 || leb max_handles s
    then none
    else if not (t.slots s).in_use || not ((t.slots s).handle_id == id)
    then none
    else some s

abbrev pub attach_found : Handles → ℕ → Option ℕ → Result (Unit {0}) × Handles
attach_found t fd none = (err enoent, t)
attach_found t fd (some s) =
    if (t.slots s).ready
    then (err ealready, t)
    else (ok tt, put_handle t s (record (t.slots s) { qemu_fd = some fd; ready = true }))

unfoldable pub attach_qemu_fd : Handles → ℕ → Option ℕ → Result (Unit {0}) × Handles
attach_qemu_fd t id none = (err einval, t)
attach_qemu_fd t id (some fd) = attach_found t fd (handle_lookup t id)

abbrev pub close_fd : Option ℕ → List ℕ → List ℕ
close_fd none fds = fds
close_fd (some fd) fds = fd ∷ fds

-- The entry is cleared and its descriptor closed.
unfoldable pub clear : Handles → ℕ → Handles
clear t s = record t {
  slots = update t.slots s no_handle;
  closed = close_fd (t.slots s).qemu_fd t.closed;
}

abbrev pub abort_found : Handles → Option ℕ → Result (Unit {0}) × Handles
abort_found t none = (err enoent, t)
abort_found t (some s) = if (t.slots s).ready then (err ealready, t) else (ok tt, clear t s)

unfoldable pub abort : Handles → ℕ → Result (Unit {0}) × Handles
abort t id = abort_found t (handle_lookup t id)

abbrev pub acquire_found : Handles → Option ℕ → Result ℕ × Handles
acquire_found t none = (err enoent, t)
acquire_found t (some s) = if not (t.slots s).ready then (err ebusy, t) else (
  ok s,
  put_handle t s (record (t.slots s) { refcount = ((t.slots s).refcount + 1) % 2 ^ 32 }),
)

unfoldable pub acquire : Handles → ℕ → Result ℕ × Handles
acquire t id = acquire_found t (handle_lookup t id)

abbrev pub release_found : Handles → Option ℕ → Handles
release_found t none = t
release_found t (some s) =
    if (t.slots s).refcount == 0
    then t
    else put_handle t s (record (t.slots s) { refcount = (t.slots s).refcount - 1 })

unfoldable pub release : Handles → ℕ → Handles
release t id = release_found t (handle_lookup t id)

-- The wait for the last reference: what other threads do to the table during each wait, in order;
-- `none` is that the thread waits still.
unfoldable pub drain_refs : List (Handles → Handles) → Handles → ℕ → Option Handles
drain_refs [] t s = if (t.slots s).refcount == 0 then some t else none
drain_refs (f ∷ fs) t s =
    let rest = drain_refs fs (f t) s in if (t.slots s).refcount == 0 then some t else rest

abbrev pub unready : Handles → ℕ → Handles
unready t s = put_handle t s (record (t.slots s) { ready = false })

abbrev pub drained : ℕ → Option Handles → Option (Result (Unit {0}) × Handles)
drained s none = none
drained s (some t) = some (ok tt, clear t s)

abbrev pub close_found :
    List (Handles → Handles) → Handles → Option ℕ → Option (Result (Unit {0}) × Handles)
close_found fs t none = some (err enoent, t)
close_found fs t (some s) = drained s (drain_refs fs (unready t s) s)

-- `nvkvm_tables_handle_close`, with the counts of mappings and links of the handle.
unfoldable pub handle_close :
    List (Handles → Handles) → Handles → ℕ → ℕ → ℕ → Option (Result (Unit {0}) × Handles)
handle_close fs t mmaps links id =
    if ltb 0 mmaps
    then some (err ebusy, t)
    else if ltb 0 links
    then some (err ebusy, t)
    else close_found fs t (handle_lookup t id)
