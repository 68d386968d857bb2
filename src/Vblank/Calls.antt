-- ===== src/Vblank/Calls.antt =====
-- The counter of the VM and the isolates, as threads change them: each call takes its locks one
-- after the other, and other calls come in between.
use nvkvm_pv.Base.{
  ℕ, ◌+◌, ◌-◌, ◌≤◌, ◌<◌, ◌≡◌, ◌≢◌, Bool, true, false, if◌then◌else◌, leb, ◌==◌, List, [], ◌∷◌, some,
  get_elem?, set, swap_remove, update,
}
use nvkvm_pv.Vblank.Slots.{
  Isolate, nvkms_vblank_max, reserve_slot, finish_slot, retire_slot, purge_slot, kill_slot,
  claim_slot, reset_slot, reserved, no_vblank,
}

abbrev pub isolate_max : ℕ
isolate_max = 4096

-- A thread in the midst of a call: it has taken a unit for an isolate and a handle, it has units
-- to give back, or it has claimed the slot of an isolate and not yet reset its table.
pub data Thread : Type 0 where
  took : ℕ → ℕ → Thread
  owes : ℕ → Thread
  claimed : ℕ → Thread

pub record Vm : Type 0 where
  pub nvkms_vblank_total : ℕ
  pub isolates : ℕ → Isolate
  pub threads : List Thread

-- `nvkvm_nvkms_vblank_release`
abbrev pub vblank_release : ℕ → ℕ → ℕ
vblank_release total count =
    if count == 0 then total else if leb count total then total - count else 0

-- The end of a call that changed isolate `id` and has units to give back.
abbrev pub returning : Vm → ℕ → ℕ × Isolate → Vm
returning s id (n, iso) = record s {
  isolates = update s.isolates id iso;
  threads = owes n ∷ s.threads;
}

-- The second part of a reservation, by thread `k`.
abbrev pub reserved_by : Vm → ℕ → ℕ → ℕ × Isolate → Vm
reserved_by s k id (r, iso) = record s {
  isolates = update s.isolates id iso;
  threads = if r == 0 then set s.threads k (owes 1) else swap_remove k s.threads;
}

-- The second part of the creation of isolate `id`, by thread `k`.
abbrev pub reset_by : Vm → ℕ → ℕ → Vm
reset_by s k id = record s {
  isolates = update s.isolates id (reset_slot (s.isolates id));
  threads = swap_remove k s.threads;
}

abbrev pub InRange : ℕ → Type 0
InRange id = (1 ≤ id) × (id < isolate_max)

-- One locked part of a call. `vacate` stands for each place that gives up a slot, and `careful`
-- says that the table of a new occupant is reset only while no entry of it is reserved.
pub data Step (careful : Bool) (s : Vm) : Vm → Type 0 where
  take :
      (id handle : ℕ)
      → InRange id
      → s.nvkms_vblank_total < nvkms_vblank_max
      → Step careful s (record s {
        nvkms_vblank_total = s.nvkms_vblank_total + 1;
        threads = took id handle ∷ s.threads;
      })
  reserve :
      (k id handle : ℕ)
      → InRange id
      → get_elem? s.threads k ≡ some (took id handle)
      → Step careful s (reserved_by s k id (reserve_slot (s.isolates id) id handle))
  finish :
      (id reservation device disp control : ℕ) (success : Bool)
      → InRange id
      → reservation ≢ 0
      → Step careful s
          (returning s id (finish_slot (s.isolates id) id reservation success device disp control))
  retire :
      (id handle device disp control : ℕ)
      → InRange id
      → control ≢ 0
      → Step careful s (returning s id (retire_slot (s.isolates id) id handle device disp control))
  purge :
      (id handle : ℕ)
      → InRange id
      → Step careful s (returning s id (purge_slot (s.isolates id) id handle))
  stop :
      (id : ℕ)
      → InRange id
      → Step careful s (record s {
        isolates = update s.isolates id (record (s.isolates id) { xrm_accepting = false });
      })
  kill : (id : ℕ) → InRange id → Step careful s (returning s id (kill_slot (s.isolates id)))
  give :
      (k n : ℕ)
      → get_elem? s.threads k ≡ some (owes n)
      → Step careful s (record s {
        nvkms_vblank_total = vblank_release s.nvkms_vblank_total n;
        threads = swap_remove k s.threads;
      })
  vacate :
      (id : ℕ)
      → InRange id
      → Step careful s
          (record s { isolates = update s.isolates id (record (s.isolates id) { in_use = false }) })
  claim :
      (id : ℕ)
      → InRange id
      → (s.isolates id).in_use ≡ false
      → Step careful s (record s {
        isolates = update s.isolates id (claim_slot (s.isolates id) id);
        threads = claimed id ∷ s.threads;
      })
  reset :
      (k id : ℕ)
      → InRange id
      → get_elem? s.threads k ≡ some (claimed id)
      → (careful ≡ true → reserved (s.isolates id) ≡ 0)
      → Step careful s (reset_by s k id)

pub data Reach (careful : Bool) (s : Vm) : Vm → Type 0 where
  here : Reach careful s s
  next : {t u : Vm} → Reach careful s t → Step careful t u → Reach careful s u

abbrev pub fresh : Vm
fresh = record {
  nvkms_vblank_total = 0;
  isolates = λ _. record {
    in_use = false;
    id = 0;
    xrm_accepting = false;
    nvkms_vblank = λ _. no_vblank;
    nvkms_vblank_seq = 0;
  };
  threads = [];
}
