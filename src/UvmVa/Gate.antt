-- ===== src/UvmVa/Gate.antt =====
-- What the ioctl path does with the table: the length that it looks up and the check before the
-- driver runs, and the record of what the driver accepted.
use nvkvm_pv.Base.{ℕ, Bool, not, ◌&&◌, if◌then◌else◌, ◌==◌}
use nvkvm_pv.UvmVa.Ranges.{
  Ranges, uvm_va_sane, uvm_va_have_room, uvm_va_add, uvm_va_covers, uvm_va_len_at, uvm_va_drop,
}

-- The `va_mode` of a command that has a range.
pub data VaMode : Type 0 where
  create use_range free : VaMode

-- A command with a range.
pub record Request : Type 0 where
  pub handle_id : ℕ
  pub mode : VaMode
  pub va_base : ℕ
  pub va_len : ℕ

-- UVM_FREE names a range by its base alone.
abbrev pub length_for : Ranges → ℕ → VaMode → ℕ → ℕ → ℕ
length_for t handle free base len =
    if len == 0 && not (base == 0) then uvm_va_len_at t handle base else len
length_for t handle create base len = len
length_for t handle use_range base len = len

abbrev pub admits : Ranges → ℕ → VaMode → ℕ → ℕ → Bool
admits t handle create base len = uvm_va_have_room t
admits t handle use_range base len = uvm_va_covers t handle base len
admits t handle free base len = uvm_va_covers t handle base len

-- Whether the driver sees the command, and with which length.
pub data Outcome : Type 0 where
  refused : Outcome
  untracked : Outcome
  forwarded : ℕ → ℕ → Outcome

-- The check of a command with the length `len` that was looked up for it.
unfoldable pub uvm_check : Ranges → Request → ℕ → Outcome
uvm_check t q len =
    if q.va_base == 0 && len == 0
    then Outcome.untracked
    else if not (uvm_va_sane q.va_base len)
    then Outcome.refused
    else if not (admits t q.handle_id q.mode q.va_base len)
    then Outcome.refused
    else Outcome.forwarded q.va_base len

-- What is recorded once the driver has accepted the command.
unfoldable pub recorded : Ranges → ℕ → VaMode → ℕ → ℕ → Ranges
recorded t handle create base len = (uvm_va_add t handle base len).1
recorded t handle use_range base len = t
recorded t handle free base len = uvm_va_drop t handle base len
