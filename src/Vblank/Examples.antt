-- ===== src/Vblank/Examples.antt =====
-- Concrete runs of the quota.
use nvkvm_pv.Base.{
  ◌+◌, ◌≤◌, ◌≡◌, refl, Bool, true, false, ◌∷◌, sum_below-zero, update, total, arith,
}
use nvkvm_pv.Vblank.Slots.{
  nvkms_vblank_max, occupied, reserved, find_vblank, reserve_slot, claim_slot, reset_slot,
}
use nvkvm_pv.Vblank.Calls.{
  Vm, took, claimed, reserved_by, reset_by, take, reserve, vacate, claim, reset, Reach, here, next,
  fresh,
}
use nvkvm_pv.Vblank.Quota.{units, all_reserved, Reach-charged, reoccupied-charged}

-- Isolate 5 starts, a thread takes a unit for its handle 9, and reserves an entry.
abbrev starting : Vm
starting = record fresh {
  isolates = update fresh.isolates 5 (claim_slot (fresh.isolates 5) 5);
  threads = claimed 5 ∷ fresh.threads;
}

abbrev started : Vm
started = reset_by starting 0 5

abbrev taking : Vm
taking = record started { nvkms_vblank_total = 0 + 1; threads = took 5 9 ∷ started.threads }

abbrev holding : Vm
holding = reserved_by taking 0 5 (reserve_slot (taking.isolates 5) 5 9)

holding_has :
    (((holding.isolates 5).nvkms_vblank 0).reservation ≡ 1) × (holding.nvkms_vblank_total ≡ 1)
unfolding reserve_slot claim_slot reset_slot find_vblank
holding_has = (refl, refl)

reaches : (careful : Bool) → Reach careful fresh holding
unfolding claim_slot
reaches careful =
    next
      (next
        (next (next here (claim 5 (omega arith, omega arith) refl))
          (reset 0 5 (omega arith, omega arith) refl (λ h. zero)))
        (take 5 9 (omega arith, omega arith) (omega arith)))
      (reserve 0 5 9 (omega arith, omega arith) refl)
  where
    zero : reserved (starting.isolates 5) ≡ 0
    zero = sum_below-zero occupied nvkms_vblank_max (starting.isolates 5).nvkms_vblank (λ i. refl)

Reach-charged_example :
    (all_reserved holding + total units holding.threads ≤ holding.nvkms_vblank_total)
    × (holding.nvkms_vblank_total ≤ nvkms_vblank_max)
    × (true ≡ true
        → all_reserved holding + total units holding.threads ≡ holding.nvkms_vblank_total)
Reach-charged_example = Reach-charged true holding (reaches true)

-- The spawn fails, which gives the slot up, and another isolate gets it.
abbrev given_up : Vm
given_up = record holding {
  isolates = update holding.isolates 5 (record (holding.isolates 5) { in_use = false });
}

abbrev reclaimed : Vm
reclaimed = record given_up {
  isolates = update given_up.isolates 5 (claim_slot (given_up.isolates 5) 5);
  threads = claimed 5 ∷ given_up.threads;
}

reclaims : Reach false fresh reclaimed
reclaims =
    next (next (reaches false) (vacate 5 (omega arith, omega arith)))
      (claim 5 (omega arith, omega arith) refl)

reoccupied-charged_example :
    all_reserved (reset_by reclaimed 0 5)
      + total units (reset_by reclaimed 0 5).threads
      + reserved (reclaimed.isolates 5)
    ≤ nvkms_vblank_max
reoccupied-charged_example =
    reoccupied-charged reclaimed (reset_by reclaimed 0 5) 0 5 reclaims (omega arith, omega arith)
      refl here
