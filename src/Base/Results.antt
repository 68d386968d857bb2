-- ===== src/Base/Results.antt =====
-- Results of the fallible C functions: a value, or the `errno` that the function returns negated.
use Prim.Native.Nat.{ℕ}

pub data Errno : Type 0 where
  einval ebadf ebusy eexist emfile enoent enospc enomem efbig ealready : Errno
  os : ℕ → Errno  -- whatever a system call set

pub data Result {ℓ} (A : Type ℓ) : Type ℓ where
  ok : A → Result A
  err : Errno → Result A
