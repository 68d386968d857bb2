-- ===== src/Handle/Session.antt =====
-- The operations of src/qemu/nvkvm_handle.c that go over the whole table.
use nvkvm_pv.Base.{ℕ, zero, suc, ◌-◌, Bool, not, ◌||◌, none, if◌then◌else◌, ltb, ◌==◌, update}
use nvkvm_pv.Handle.Os.{Handle, Table, handle_max}
use nvkvm_pv.Handle.Life.{log_close, free}

-- One round of `nvkvm_handle_close_session`.
abbrev pub spares : ℕ → Handle → Bool
spares session h = not h.in_use || not (h.session_id == session) || ltb 0 h.isolate_refcount

unfoldable pub close_session_at : ℕ → Table → ℕ → Table
close_session_at session t i = if spares session (t.handles i) then t else free t i

-- The rounds that are left, from index `i` on.
unfoldable pub close_session_from : ℕ → ℕ → ℕ → Table → Table
unfolding close_session_at
close_session_from session zero i t = t
close_session_from session (suc rounds) i t =
    close_session_from session rounds (suc i) (close_session_at session t i)

unfoldable pub close_session : Table → ℕ → Table
unfolding close_session_from
close_session t session = close_session_from session (handle_max - 1) 1 t

-- `nvkvm_handle_table_fini`.
unfoldable pub fini_at : Table → ℕ → Table
fini_at t i =
    if (t.handles i).in_use
    then log_close (t.handles i).fd
        (record t { handles = update t.handles i (record (t.handles i) { fd = none }) })
    else t

unfoldable pub fini_from : ℕ → ℕ → Table → Table
unfolding fini_at
fini_from zero i t = t
fini_from (suc rounds) i t = fini_from rounds (suc i) (fini_at t i)

unfoldable pub table_fini : Table → Table
unfolding fini_from
table_fini t = fini_from handle_max 0 t
