-- ===== src/KvmSlot.antt =====
-- The pool of KVM memory slots, src/qemu/nvkvm_mmap_host.c.
mod Inv
mod Calls
mod Refusal
mod Examples
use nvkvm_pv.Base.{
  ℕ, suc, ◌+◌, ◌-◌, ◌%◌, ◌^◌, Bool, true, false, not, ◌&&◌, ◌||◌, Option, none, some, List, [], ◌∷◌,
  if◌then◌else◌, ltb, leb, length, update,
}
use nvkvm_pv.Base.Results.{Result, ok, err, Errno, enospc}

-- `int`: `negsuc n` is -(n + 1).
pub data ℤ : Type 0 where
  pos : ℕ → ℤ
  negsuc : ℕ → ℤ

abbrev pub slot_base : ℕ
slot_base = 64

abbrev pub slot_count : ℕ
slot_count = 448

-- The static variables of the pool. `free_stack` has its top first, so that `kvm_slot_free_head`
-- is its length.
pub record Pool : Type 0 where
  pub water : ℕ
  pub free_stack : List ℕ
  pub live : ℕ → Bool
  pub in_use : ℕ
  pub in_use_peak : ℕ
  pub alloc_count : ℕ
  pub free_count : ℕ
  pub reject_count : ℕ

abbrev pub u64 : ℕ → ℕ
u64 n = n % 2 ^ 64

pub init : Pool
init = record {
  water = slot_base;
  free_stack = [];
  live = λ _. false;
  in_use = 0;
  in_use_peak = 0;
  alloc_count = 0;
  free_count = 0;
  reject_count = 0;
}

abbrev pub in_pool : ℤ → Bool
in_pool (pos s) = leb slot_base s && ltb s (slot_base + slot_count)
in_pool (negsuc _) = false

abbrev pub reject : Pool → Pool
reject p = record p { reject_count = u64 (p.reject_count + 1) }

-- The choice of `nvkvm_kvm_slot_alloc`: the slot taken, `none` for the -1 of an empty pool.
pick : Pool → List ℕ → Option ℕ × Pool
pick p (s ∷ rest) = (some s, record p { free_stack = rest })
pick p [] =
    if ltb p.water (slot_base + slot_count)
    then (some p.water, record p { water = suc p.water })
    else (none, p)

abbrev is_live : Pool → ℕ → Bool
is_live p s = p.live (s - slot_base)

-- Never below `in_use`.
abbrev raise_peak : ℕ → ℕ → ℕ
raise_peak peak n = if ltb peak n then n else peak

grant : Pool → ℕ → Option ℕ × Pool
grant p s = if not (in_pool (pos s)) || is_live p s then (none, reject p) else (
  some s,
  record p {
    live = update p.live (s - slot_base) true;
    alloc_count = u64 (p.alloc_count + 1);
    in_use = suc p.in_use;
    in_use_peak = raise_peak p.in_use_peak (suc p.in_use);
  },
)

finish : Option ℕ × Pool → Option ℕ × Pool
finish (none, p) = (none, p)
finish (some s, p) = grant p s

-- `nvkvm_kvm_slot_alloc`; `none` stands for its -1.
pub alloc : Pool → Option ℕ × Pool
unfolding pick grant finish
alloc p = finish (pick p p.free_stack)

-- What `nvkvm_kvm_slot_release` does behind its two gates. The counter `in_use` stops at 0.
give_back : Pool → ℕ → Pool
give_back p s =
    let q = record p { live = update p.live (s - slot_base) false } in
    let r =
      if ltb (length p.free_stack) slot_count
      then record q { free_stack = s ∷ p.free_stack }
      else reject q in
    record r { free_count = u64 (p.free_count + 1); in_use = p.in_use - 1 }

-- `nvkvm_kvm_slot_release`
pub release : Pool → ℤ → Pool
unfolding give_back
release p (negsuc n) = reject p
release p (pos s) =
    if not (in_pool (pos s))
    then reject p
    else if not (is_live p s)
    then reject p
    else give_back p s

-- `kvm_add_memory_region`. `installed` is the outcome of the ioctl, `none` where no VM is open;
-- the slot that is handed out is `none` for -1.
add_result : ℕ → Option (Result (Unit {0})) → Pool → Result (Option ℕ) × Pool
unfolding release
add_result s none p = (ok none, release p (pos s))
add_result s (some (err e)) p = (err e, release p (pos s))
add_result s (some (ok _)) p = (ok (some s), p)

add_taken : Option (Result (Unit {0})) → Option ℕ × Pool → Result (Option ℕ) × Pool
unfolding add_result
add_taken installed (none, p) = (err enospc, p)
add_taken installed (some s, p) = add_result s installed p

pub add_region : Option (Result (Unit {0})) → Pool → Result (Option ℕ) × Pool
unfolding alloc add_taken
add_region installed p = add_taken installed (alloc p)

-- `kvm_remove_memory_region`: the slot whose deletion the ioctl asks for, and the pool after it.
pub remove_region : ℤ → Pool → Option ℕ × Pool
unfolding release
remove_region (negsuc n) p = (none, p)
remove_region (pos s) p = if not (in_pool (pos s)) then (none, p) else (some s, release p (pos s))

pub data Call : Type 0 where
  allocs : Call
  releases : ℤ → Call

pub step : Pool → Call → Pool
unfolding alloc release
step p allocs = (alloc p).1
step p (releases s) = release p s

pub run : Pool → List Call → Pool
unfolding step
run p [] = p
run p (c ∷ cs) = run (step p c) cs
