-- ===== src/UvmVa/Ranges.antt =====
-- The table of ranges, `uvm_va_tbl`.
use nvkvm_pv.Base.{
  ℕ, zero, suc, ◌+◌, ◌-◌, ◌%◌, Bool, true, false, not, ◌&&◌, ◌||◌, Option, none, some,
  if◌then◌else◌, ltb, leb, ◌==◌, update,
}
use nvkvm_pv.Base.Words.{add64}

-- `struct nvkvm_uvm_va_ent`; a free slot has handle 0.
pub record VaEnt : Type 0 where
  pub handle_id : ℕ
  pub base : ℕ
  pub va_len : ℕ

abbrev pub uvm_va_max : ℕ
uvm_va_max = 16384

pub record Ranges : Type 0 where
  pub ent : ℕ → VaEnt
  pub va_used : ℕ

unfoldable pub uvm_va_sane : ℕ → ℕ → Bool
uvm_va_sane base len =
    if len == 0
    then false
    else if ltb (add64 base len) base
    then false
    else not (not (base % 4096 == 0) || not (len % 4096 == 0))

abbrev pub uvm_va_have_room : Ranges → Bool
uvm_va_have_room t = ltb t.va_used uvm_va_max

-- The first of `k` entries from `i` on that passes a test.
unfoldable pub find_ent : ℕ → ℕ → (VaEnt → Bool) → (ℕ → VaEnt) → Option ℕ
find_ent zero i test ent = none
find_ent (suc k) i test ent =
    let rest = find_ent k (suc i) test ent in if test (ent i) then some i else rest

abbrev pub is_range : ℕ → ℕ → ℕ → VaEnt → Bool
is_range handle base len e = e.handle_id == handle && e.base == base && e.va_len == len

abbrev pub put_at : Ranges → ℕ → ℕ → ℕ → Option ℕ → Bool × Ranges
put_at t handle base len none = (false, t)
put_at t handle base len (some i) = (
  true,
  record t {
    ent = update t.ent i (record { handle_id = handle; base = base; va_len = len });
    va_used = t.va_used + 1;
  },
)

abbrev pub add_unless : Ranges → ℕ → ℕ → ℕ → Option ℕ → Bool × Ranges
add_unless t handle base len (some i) = (true, t)
add_unless t handle base len none =
    put_at t handle base len (find_ent uvm_va_max 0 (λ e. e.handle_id == 0) t.ent)

unfoldable pub uvm_va_add : Ranges → ℕ → ℕ → ℕ → Bool × Ranges
uvm_va_add t handle base len =
    add_unless t handle base len (find_ent uvm_va_max 0 (is_range handle base len) t.ent)

abbrev pub is_covering : ℕ → ℕ → ℕ → VaEnt → Bool
is_covering handle base len e =
    e.handle_id == handle && leb e.base base && leb (add64 base len) (add64 e.base e.va_len)

abbrev pub is_some : Option ℕ → Bool
is_some none = false
is_some (some i) = true

unfoldable pub uvm_va_covers : Ranges → ℕ → ℕ → ℕ → Bool
uvm_va_covers t handle base len =
    is_some (find_ent uvm_va_max 0 (is_covering handle base len) t.ent)

abbrev pub len_of : (ℕ → VaEnt) → Option ℕ → ℕ
len_of ent none = 0
len_of ent (some i) = (ent i).va_len

unfoldable pub uvm_va_len_at : Ranges → ℕ → ℕ → ℕ
uvm_va_len_at t handle base =
    len_of t.ent (find_ent uvm_va_max 0 (λ e. e.handle_id == handle && e.base == base) t.ent)

-- The loops that free each of `k` entries from `i` on that passes a test.
abbrev pub freed : Ranges → ℕ → Ranges
freed t i = record t {
  ent = update t.ent i (record (t.ent i) { handle_id = 0 });
  va_used = if t.va_used == 0 then 0 else t.va_used - 1;
}

unfoldable pub free_all : ℕ → ℕ → (VaEnt → Bool) → Ranges → Ranges
free_all zero i test t = t
free_all (suc k) i test t = free_all k (suc i) test (if test (t.ent i) then freed t i else t)

abbrev pub is_within : ℕ → ℕ → ℕ → VaEnt → Bool
is_within handle base len e =
    e.handle_id == handle && leb base e.base && leb (add64 e.base e.va_len) (add64 base len)

unfoldable pub uvm_va_drop : Ranges → ℕ → ℕ → ℕ → Ranges
uvm_va_drop t handle base len = free_all uvm_va_max 0 (is_within handle base len) t

unfoldable pub uvm_va_purge_handle : Ranges → ℕ → Ranges
uvm_va_purge_handle t handle =
    if handle == 0 then t else free_all uvm_va_max 0 (λ e. e.handle_id == handle) t
