-- ===== src/UvmVa/Events.antt =====
-- The locked parts of commands and ends of address spaces, in any order, and the ranges that accepted
-- commands created.
use nvkvm_pv.Base.{
  leb, ℕ, ◌^◌, ◌<◌, ◌≡◌, ◌≢◌, Bool, false, not, ◌&&◌, ◌||◌, List, [], ◌∷◌, some, ◌==◌, get_elem?,
  set, swap_remove,
}
use nvkvm_pv.UvmVa.Ranges.{Ranges, uvm_va_purge_handle}
use nvkvm_pv.UvmVa.Gate.{
  VaMode, create, use_range, free, Request, Outcome, length_for, uvm_check, recorded,
}

-- The ranges that were recorded as created, by handle, base and length. A free takes back those that
-- start at its base and are no longer than it says, the end of an address space all of the handle.
abbrev pub Granted : Type 0
Granted = ℕ → ℕ → ℕ → Bool

abbrev pub after_accept : Granted → ℕ → VaMode → ℕ → ℕ → Granted
after_accept g handle create base len h b l = (h == handle && b == base && l == len) || g h b l
after_accept g handle use_range base len h b l = g h b l
after_accept g handle free base len h b l = g h b l && not (h == handle && b == base && leb l len)

-- A worker in the midst of a command: it has looked its length up, or the driver has the command.
pub data Worker : Type 0 where
  looked : Request → ℕ → Worker
  asked : Request → ℕ → Worker

pub record Served : Type 0 where
  pub table : Ranges
  pub granted : Granted
  pub workers : List Worker

-- A handle that is open is not 0, and the fields have their widths.
abbrev pub IsSized : Request → Type 0
IsSized q = (q.handle_id ≢ 0) × (q.va_base < 2 ^ 64) × (q.va_len < 2 ^ 64)

-- One part of a command, by worker `k`, or the end of a handle's address space.
pub data Step (s : Served) : Served → Type 0 where
  look :
      (q : Request)
      → IsSized q
      → Step s (record s {
        workers = looked q (length_for s.table q.handle_id q.mode q.va_base q.va_len) ∷ s.workers;
      })
  admit :
      (k : ℕ) (q : Request) (len : ℕ)
      → get_elem? s.workers k ≡ some (looked q len)
      → uvm_check s.table q len ≡ Outcome.forwarded q.va_base len
      → Step s (record s { workers = set s.workers k (asked q len) })
  accept :
      (k : ℕ) (q : Request) (len : ℕ)
      → get_elem? s.workers k ≡ some (asked q len)
      → Step s (record s {
        table = recorded s.table q.handle_id q.mode q.va_base len;
        granted = after_accept s.granted q.handle_id q.mode q.va_base len;
        workers = swap_remove k s.workers;
      })
  leave : (k : ℕ) → Step s (record s { workers = swap_remove k s.workers })
  purge :
      (handle : ℕ)
      → handle ≢ 0
      → Step s (record s {
        table = uvm_va_purge_handle s.table handle;
        granted = λ h b l. s.granted h b l && not (h == handle);
      })

pub data Reach (s : Served) : Served → Type 0 where
  here : Reach s s
  next : {t u : Served} → Reach s t → Step t u → Reach s u

abbrev pub fresh : Served
fresh = record {
  table = record { ent = λ _. record { handle_id = 0; base = 0; va_len = 0 }; va_used = 0 };
  granted = λ h b l. false;
  workers = [];
}
