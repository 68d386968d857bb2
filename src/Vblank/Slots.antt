-- ===== src/Vblank/Slots.antt =====
-- The table of an isolate, and what each call does to it under the lock of the isolate.
use nvkvm_pv.Base.{
  ℕ, zero, suc, ◌+◌, Bool, true, not, ◌&&◌, ◌||◌, if◌then◌else◌, ◌==◌, update, Option, none, some,
  sum_below,
}
use nvkvm_pv.Base.Words.{add64}

abbrev pub nvkms_vblank_max : ℕ
nvkms_vblank_max = 64

-- `struct nvkvm_nvkms_vblank`
pub record Vblank : Type 0 where
  pub reservation : ℕ
  pub handle_id : ℕ
  pub device_handle : ℕ
  pub disp_handle : ℕ
  pub control_handle : ℕ

abbrev pub no_vblank : Vblank
no_vblank = record {
  reservation = 0;
  handle_id = 0;
  device_handle = 0;
  disp_handle = 0;
  control_handle = 0;
}

-- The fields of `struct nvkvm_isolate` that the quota reads.
pub record Isolate : Type 0 where
  pub in_use : Bool
  pub id : ℕ
  pub xrm_accepting : Bool
  pub nvkms_vblank : ℕ → Vblank
  pub nvkms_vblank_seq : ℕ

-- How many entries are reserved.
abbrev pub occupied : Vblank → ℕ
occupied v = if v.reservation == 0 then 0 else 1

abbrev pub reserved : Isolate → ℕ
reserved iso = sum_below nvkms_vblank_max occupied iso.nvkms_vblank

-- The first of `k` entries from `i` on that passes a test.
unfoldable pub find_vblank : ℕ → ℕ → (Vblank → Bool) → (ℕ → Vblank) → Option ℕ
find_vblank zero i test v = none
find_vblank (suc k) i test v =
    let rest = find_vblank k (suc i) test v in if test (v i) then some i else rest

abbrev pub is_free : Vblank → Bool
is_free v = v.reservation == 0

-- A sequence number that is not 0, and the one after it.
abbrev pub reservation_of : ℕ → ℕ
reservation_of seq = if seq == 0 then add64 seq 1 else seq

-- The reservation, or 0, and the isolate after the locked part of `nvkvm_isolate_nvkms_vblank_reserve`.
abbrev pub reserve_at : Isolate → ℕ → Option ℕ → ℕ × Isolate
reserve_at iso handle none = (0, iso)
reserve_at iso handle (some i) = (
  reservation_of iso.nvkms_vblank_seq,
  record iso {
    nvkms_vblank = update iso.nvkms_vblank i (record no_vblank {
      reservation = reservation_of iso.nvkms_vblank_seq;
      handle_id = handle;
    });
    nvkms_vblank_seq = add64 (reservation_of iso.nvkms_vblank_seq) 1;
  },
)

unfoldable pub reserve_slot : Isolate → ℕ → ℕ → ℕ × Isolate
reserve_slot iso id handle =
    if iso.in_use && iso.id == id && iso.xrm_accepting
    then reserve_at iso handle (find_vblank nvkms_vblank_max 0 is_free iso.nvkms_vblank)
    else (0, iso)

-- How many units the VM gets back, and the isolate after the locked part of the call.
abbrev pub clear_at : Isolate → Option ℕ → ℕ × Isolate
clear_at iso none = (0, iso)
clear_at iso (some i) = (1, record iso { nvkms_vblank = update iso.nvkms_vblank i no_vblank })

abbrev pub answer_at : Isolate → ℕ → ℕ → ℕ → Option ℕ → ℕ × Isolate
answer_at iso device disp control none = (0, iso)
answer_at iso device disp control (some i) = (
  0,
  record iso {
    nvkms_vblank = update iso.nvkms_vblank i (record (iso.nvkms_vblank i) {
      device_handle = device;
      disp_handle = disp;
      control_handle = control;
    });
  },
)

-- `nvkvm_isolate_nvkms_vblank_finish`
unfoldable pub finish_slot : Isolate → ℕ → ℕ → Bool → ℕ → ℕ → ℕ → ℕ × Isolate
finish_slot iso id reservation success device disp control =
    let found =
      find_vblank nvkms_vblank_max 0 (λ v. v.reservation == reservation) iso.nvkms_vblank in
    if iso.in_use && iso.id == id
    then (if not success || control == 0
        then clear_at iso found
        else answer_at iso device disp control found)
    else (0, iso)

-- `nvkvm_isolate_nvkms_vblank_retire`
abbrev pub is_control : ℕ → ℕ → ℕ → ℕ → Vblank → Bool
is_control handle device disp control v =
    not (v.reservation == 0)
    && not (v.control_handle == 0)
    && v.handle_id == handle
    && v.device_handle == device
    && v.disp_handle == disp
    && v.control_handle == control

unfoldable pub retire_slot : Isolate → ℕ → ℕ → ℕ → ℕ → ℕ → ℕ × Isolate
retire_slot iso id handle device disp control =
    if iso.in_use && iso.id == id
    then clear_at iso
        (find_vblank nvkms_vblank_max 0 (is_control handle device disp control) iso.nvkms_vblank)
    else (0, iso)

-- The loops that clear each of `k` entries from `i` on that passes a test, and count them.
unfoldable pub clear_all : ℕ → ℕ → (Vblank → Bool) → (ℕ → Vblank) → ℕ × (ℕ → Vblank)
clear_all zero i test v = (0, v)
clear_all (suc k) i test v =
    let rest = clear_all k (suc i) test (if test (v i) then update v i no_vblank else v) in
    ((if test (v i) then 1 else 0) + rest.0, rest.1)

abbrev pub with_vblank : Isolate → ℕ × (ℕ → Vblank) → ℕ × Isolate
with_vblank iso (n, v) = (n, record iso { nvkms_vblank = v })

-- `nvkvm_isolate_nvkms_vblank_purge_handle`
unfoldable pub purge_slot : Isolate → ℕ → ℕ → ℕ × Isolate
purge_slot iso id handle =
    if iso.in_use && iso.id == id
    then with_vblank iso (
        clear_all nvkms_vblank_max 0 (λ v. not (v.reservation == 0) && v.handle_id == handle)
          iso.nvkms_vblank)
    else (0, iso)

-- The part of `nvkvm_isolate_kill` that returns the units.
unfoldable pub kill_slot : Isolate → ℕ × Isolate
kill_slot iso =
    with_vblank iso (clear_all nvkms_vblank_max 0 (λ v. not (v.reservation == 0)) iso.nvkms_vblank)

-- The parts of `alloc_isolate_slot` that claim a slot, and that reset its table under the lock.
unfoldable pub claim_slot : Isolate → ℕ → Isolate
claim_slot iso id = record iso { in_use = true; id = id }

unfoldable pub reset_slot : Isolate → Isolate
reset_slot iso = record iso {
  xrm_accepting = true;
  nvkms_vblank = λ _. no_vblank;
  nvkms_vblank_seq = 1;
}
