-- ===== src/Vblank/Quota.antt =====
-- The counter of the VM beside the reserved entries and the units that threads hold, from step to step.
use nvkvm_pv.Base.{
  ◌∷◌, ℕ, ◌+◌, ◌≤◌, ◌≡◌, ◌≢◌, refl, Bool, true, false, ◌==◌, some, get_elem?, swap_remove, update,
  arith, inl, inr, ◌⊎◌, sum_below, sum_below-update, sum_below-zero, total, total-set,
  total-swap_remove,
}
use nvkvm_pv.Vblank.Slots.{
  Isolate, nvkms_vblank_max, occupied, reserved, no_vblank, claim_slot, reset_slot,
}
use nvkvm_pv.Vblank.Calls.{
  Vm, Thread, took, owes, claimed, isolate_max, vblank_release, returning, reserved_by, reset_by,
  InRange, Step, take, reserve, finish, retire, purge, stop, kill, give, vacate, claim, reset,
  Reach, here, next, fresh,
}
use nvkvm_pv.Vblank.Inv.{
  Conserves, finish_slot-Conserves, retire_slot-Conserves, purge_slot-Conserves,
  kill_slot-Conserves, reserve_slot_lem,
}

-- The units that a thread holds.
abbrev pub units : Thread → ℕ
units (took id handle) = 1
units (owes n) = n
units (claimed id) = 0

-- All reserved entries, and all units that threads hold.
abbrev pub all_reserved : Vm → ℕ
all_reserved s = sum_below isolate_max reserved s.isolates

abbrev pub charged : Vm → ℕ
charged s = all_reserved s + total units s.threads

-- The counter covers what is charged and `lost` units more.
pub record IsValid (careful : Bool) (lost : ℕ) (s : Vm) : Type 0 where
  pub bounded : s.nvkms_vblank_total ≤ nvkms_vblank_max
  pub covered : charged s + lost ≤ s.nvkms_vblank_total
  pub exact : careful ≡ true → charged s + lost ≡ s.nvkms_vblank_total

-- A step that changes neither the counter nor what is charged.
same-IsValid :
    (careful : Bool) (lost : ℕ) (s t : Vm)
    → t.nvkms_vblank_total ≡ s.nvkms_vblank_total
    → charged t ≡ charged s
    → IsValid careful lost s
    → IsValid careful lost t
same-IsValid careful lost s t e c v = record {
  bounded = omega (arith, v.bounded);
  covered = omega (arith, v.covered);
  exact = λ h. omega (arith, v.exact h);
}

returning-IsValid :
    (careful : Bool) (lost : ℕ) (s : Vm) (id : ℕ) (r : ℕ × Isolate)
    → InRange id
    → Conserves (s.isolates id) r
    → IsValid careful lost s
    → IsValid careful lost (returning s id r)
returning-IsValid careful lost s id (n, iso) r c v =
    same-IsValid careful lost s (returning s id (n, iso)) refl
      (omega (arith, c, sum_below-update reserved isolate_max id s.isolates iso r.1)) v

-- A change of an isolate that keeps its entries.
update-IsValid :
    (careful : Bool) (lost : ℕ) (s : Vm) (id : ℕ) (iso : Isolate)
    → InRange id
    → reserved iso ≡ reserved (s.isolates id)
    → IsValid careful lost s
    → IsValid careful lost (record s { isolates = update s.isolates id iso })
update-IsValid careful lost s id iso r c v =
    same-IsValid careful lost s (record s { isolates = update s.isolates id iso }) refl
      (omega (arith, c, sum_below-update reserved isolate_max id s.isolates iso r.1)) v

reserved_by-IsValid :
    (careful : Bool) (lost : ℕ) (s : Vm) (k id handle : ℕ) (r : ℕ × Isolate)
    → InRange id
    → get_elem? s.threads k ≡ some (took id handle)
    → ((r.0 ≡ 0) × (reserved r.1 ≡ reserved (s.isolates id)))
      ⊎ ((r.0 ≢ 0) × (reserved r.1 ≡ reserved (s.isolates id) + 1))
    → IsValid careful lost s
    → IsValid careful lost (reserved_by s k id r)
reserved_by-IsValid careful lost s k id handle (n, iso) r g (inl (z, c)) v =
    let f : (n == 0) ≡ true = ground arith in
    let sums = sum_below-update reserved isolate_max id s.isolates iso r.1 in
    same-IsValid careful lost s (reserved_by s k id (n, iso)) refl
      (rw f (omega (arith, c, sums, total-set units s.threads k (owes 1) (took id handle) g))) v
reserved_by-IsValid careful lost s k id handle (n, iso) r g (inr (z, c)) v =
    let f : (n == 0) ≡ false = ground arith in
    let sums = sum_below-update reserved isolate_max id s.isolates iso r.1 in
    same-IsValid careful lost s (reserved_by s k id (n, iso)) refl
      (rw f (omega (arith, c, sums, total-swap_remove units s.threads k (took id handle) g))) v

reserved-reset_slot : (iso : Isolate) → reserved (reset_slot iso) ≡ 0
unfolding reset_slot
reserved-reset_slot iso = sum_below-zero occupied nvkms_vblank_max (λ _. no_vblank) (λ i. refl)

reserved-claim_slot : (iso : Isolate) (id : ℕ) → reserved (claim_slot iso id) ≡ reserved iso
unfolding claim_slot
reserved-claim_slot iso id = refl

-- The entries that are still reserved when a table is reset are lost.
charged-reset_by :
    (s : Vm) (k id : ℕ)
    → InRange id
    → get_elem? s.threads k ≡ some (claimed id)
    → charged (reset_by s k id) + reserved (s.isolates id) ≡ charged s
charged-reset_by s k id r g = omega (
  arith,
  reserved-reset_slot (s.isolates id),
  sum_below-update reserved isolate_max id s.isolates (reset_slot (s.isolates id)) r.1,
  total-swap_remove units s.threads k (claimed id) g,
)

reset_by-IsValid :
    (careful : Bool) (lost : ℕ) (s : Vm) (k id : ℕ)
    → InRange id
    → get_elem? s.threads k ≡ some (claimed id)
    → (careful ≡ true → reserved (s.isolates id) ≡ 0)
    → IsValid careful lost s
    → IsValid careful lost (reset_by s k id)
reset_by-IsValid careful lost s k id r g c v =
    let e = charged-reset_by s k id r g in
    record {
      bounded = v.bounded;
      covered = omega (arith, v.covered, e);
      exact = λ h. omega (arith, v.exact h, c h, e);
    }

claim-IsValid :
    (careful : Bool) (lost : ℕ) (s : Vm) (id : ℕ)
    → InRange id
    → IsValid careful lost s
    → IsValid careful lost (record s {
      isolates = update s.isolates id (claim_slot (s.isolates id) id);
      threads = claimed id ∷ s.threads;
    })
claim-IsValid careful lost s id r v =
    let iso = claim_slot (s.isolates id) id in
    same-IsValid careful lost s
      (record s { isolates = update s.isolates id iso; threads = claimed id ∷ s.threads }) refl
      (omega (
        arith,
        reserved-claim_slot (s.isolates id) id,
        sum_below-update reserved isolate_max id s.isolates iso r.1,
      ))
      v

give-IsValid :
    (careful : Bool) (lost : ℕ) (s : Vm) (k n : ℕ)
    → get_elem? s.threads k ≡ some (owes n)
    → IsValid careful lost s
    → IsValid careful lost (record s {
      nvkms_vblank_total = vblank_release s.nvkms_vblank_total n;
      threads = swap_remove k s.threads;
    })
give-IsValid careful lost s k n g v =
    let sums = total-swap_remove units s.threads k (owes n) g in
    let e : vblank_release s.nvkms_vblank_total n + n ≡ s.nvkms_vblank_total =
      let l : n ≤ s.nvkms_vblank_total = omega (arith, v.covered, sums) in ground arith in
    record {
      bounded = omega (arith, v.bounded, e);
      covered = omega (arith, v.covered, sums, e);
      exact = λ h. omega (arith, v.exact h, sums, e);
    }

Step-IsValid :
    (careful : Bool) (lost : ℕ) {s t : Vm}
    → Step careful s t
    → IsValid careful lost s
    → IsValid careful lost t
Step-IsValid careful lost (take id handle r l) v = record {
  bounded = omega arith;
  covered = omega (arith, v.covered);
  exact = λ h. omega (arith, v.exact h);
}
Step-IsValid careful lost {s} (reserve k id handle r g) v =
    reserved_by-IsValid careful lost s k id handle _ r g
      (reserve_slot_lem (s.isolates id) id handle) v
Step-IsValid careful lost {s} (finish id reservation device disp control success r z) v =
    returning-IsValid careful lost s id _ r
      (finish_slot-Conserves (s.isolates id) id reservation device disp control success z) v
Step-IsValid careful lost {s} (retire id handle device disp control r z) v =
    returning-IsValid careful lost s id _ r
      (retire_slot-Conserves (s.isolates id) id handle device disp control) v
Step-IsValid careful lost {s} (purge id handle r) v =
    returning-IsValid careful lost s id _ r (purge_slot-Conserves (s.isolates id) id handle) v
Step-IsValid careful lost {s} (stop id r) v = update-IsValid careful lost s id _ r refl v
Step-IsValid careful lost {s} (kill id r) v =
    returning-IsValid careful lost s id _ r (kill_slot-Conserves (s.isolates id)) v
Step-IsValid careful lost {s} (give k n g) v = give-IsValid careful lost s k n g v
Step-IsValid careful lost {s} (vacate id r) v = update-IsValid careful lost s id _ r refl v
Step-IsValid careful lost {s} (claim id r u) v = claim-IsValid careful lost s id r v
Step-IsValid careful lost {s} (reset k id r g c) v = reset_by-IsValid careful lost s k id r g c v

fresh-IsValid : (careful : Bool) → IsValid careful 0 fresh
fresh-IsValid careful =
    let z : all_reserved fresh ≡ 0 =
      sum_below-zero reserved isolate_max fresh.isolates
        (λ i. sum_below-zero occupied nvkms_vblank_max (λ _. no_vblank) (λ j. refl)) in
    record { bounded = omega arith; covered = omega (arith, z); exact = λ h. omega (arith, z) }

Reach-IsValid :
    (careful : Bool) (lost : ℕ) {s t : Vm}
    → Reach careful s t
    → IsValid careful lost s
    → IsValid careful lost t
Reach-IsValid careful lost here v = v
Reach-IsValid careful lost (next r st) v =
    Step-IsValid careful lost st (Reach-IsValid careful lost r v)

-- From a table of isolates with no entry, over any interleaving of the locked parts of the calls,
-- the reserved entries of all isolates and the units that threads hold are together at most the
-- counter, which is at most 64; they are exactly the counter if the table of a new occupant is
-- reset only while no entry of it is reserved.
pub Reach-charged :
    (careful : Bool) (t : Vm)
    → Reach careful fresh t
    → (all_reserved t + total units t.threads ≤ t.nvkms_vblank_total)
      × (t.nvkms_vblank_total ≤ nvkms_vblank_max)
      × (careful ≡ true → all_reserved t + total units t.threads ≡ t.nvkms_vblank_total)
Reach-charged careful t r =
    let v = Reach-IsValid careful 0 r (fresh-IsValid careful) in
    (omega (arith, v.covered), v.bounded, λ h. omega (arith, v.exact h))

-- If the table of a slot's new occupant is reset while entries of it are reserved, the quota is
-- smaller by as many for good: whatever happens afterwards, all isolates and threads together have
-- at most 64 less that number.
pub reoccupied-charged :
    (s t : Vm) (k id : ℕ)
    → Reach false fresh s
    → InRange id
    → get_elem? s.threads k ≡ some (claimed id)
    → Reach false (reset_by s k id) t
    → all_reserved t + total units t.threads + reserved (s.isolates id) ≤ nvkms_vblank_max
reoccupied-charged s t k id r i g q =
    let v = Reach-IsValid false 0 r (fresh-IsValid false) in
    let e = charged-reset_by s k id i g in
    let u : IsValid false (reserved (s.isolates id)) (reset_by s k id) = record {
      bounded = v.bounded;
      covered = omega (arith, v.covered, e);
      exact = λ h. cc;
    } in
    let w = Reach-IsValid false (reserved (s.isolates id)) q u in
    omega (arith, w.bounded, w.covered)
