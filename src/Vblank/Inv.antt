-- ===== src/Vblank/Inv.antt =====
-- What each locked part of a call does to the number of reserved entries of its isolate.
use nvkvm_pv.Base.{
  ℕ, zero, suc, ◌+◌, ◌≤◌, ◌<◌, ◌≡◌, ◌≢◌, refl, Bool, true, ◌==◌, Option, none, some, update, not,
  ◌&&◌, ◌||◌, arith, inl, inr, ◌⊎◌, Bool-cases, sum_below, sum_below-update,
}
use nvkvm_pv.Vblank.Slots.{
  Vblank, Isolate, nvkms_vblank_max, occupied, reserved, no_vblank, find_vblank, is_free,
  reservation_of, reserve_at, reserve_slot, clear_at, answer_at, finish_slot, is_control,
  retire_slot, clear_all, purge_slot, kill_slot,
}

find_vblank_lem :
    (k i : ℕ) (test : Vblank → Bool) (v : ℕ → Vblank) (j : ℕ)
    → find_vblank k i test v ≡ some j
    → (j < i + k) × (test (v j) ≡ true)
unfolding find_vblank
find_vblank_lem zero i test v j h = cc
find_vblank_lem (suc k) i test v j h = elim (Bool-cases (test (v i))) [
  | inl b ↦
      let z : ◌≡◌ {A = Option ℕ} (some i) (some j) = rw b at h in
      let q : i ≡ j = cc in (omega arith, rw (← q) b)
  | inr b ↦ let (x, y) = find_vblank_lem k (suc i) test v j (rw b at h) in (omega arith, y)
]

-- The units that an isolate has and those that it returns are those that it had.
abbrev pub Conserves : Isolate → ℕ × Isolate → Type 0
Conserves iso r = reserved r.1 + r.0 ≡ reserved iso

clear_at-Conserves :
    (iso : Isolate) (test : Vblank → Bool) (o : Option ℕ)
    → find_vblank nvkms_vblank_max 0 test iso.nvkms_vblank ≡ o
    → ((v : Vblank) → test v ≡ true → occupied v ≡ 1)
    → Conserves iso (clear_at iso o)
clear_at-Conserves iso test none h t = omega arith
clear_at-Conserves iso test (some i) h t =
    let (l, b) = find_vblank_lem nvkms_vblank_max 0 test iso.nvkms_vblank i h in
    let one = t (iso.nvkms_vblank i) b in
    omega
      (arith, sum_below-update occupied nvkms_vblank_max i iso.nvkms_vblank no_vblank (omega arith))

answer_at-Conserves :
    (iso : Isolate) (test : Vblank → Bool) (device disp control : ℕ) (o : Option ℕ)
    → find_vblank nvkms_vblank_max 0 test iso.nvkms_vblank ≡ o
    → Conserves iso (answer_at iso device disp control o)
answer_at-Conserves iso test device disp control none h = omega arith
answer_at-Conserves iso test device disp control (some i) h =
    let (l, b) = find_vblank_lem nvkms_vblank_max 0 test iso.nvkms_vblank i h in
    let e =
      sum_below-update occupied nvkms_vblank_max i iso.nvkms_vblank
        (record (iso.nvkms_vblank i) {
          device_handle = device;
          disp_handle = disp;
          control_handle = control;
        })
        (omega arith) in
    omega (arith, e)

pub finish_slot-Conserves :
    (iso : Isolate) (id reservation device disp control : ℕ) (success : Bool)
    → reservation ≢ 0
    → Conserves iso (finish_slot iso id reservation success device disp control)
unfolding finish_slot
finish_slot-Conserves iso id reservation device disp control success z =
    elim (Bool-cases (iso.in_use && iso.id == id)) [
      | inl a ↦ elim (Bool-cases (not success || control == 0)) [
        | inl b ↦
            rw (a, b)
              (clear_at-Conserves iso (λ v. v.reservation == reservation) _ refl
                (λ v h. ground arith))
        | inr b ↦
            rw (a, b)
              (answer_at-Conserves iso (λ v. v.reservation == reservation) device disp control _
                refl)
      ]
      | inr a ↦ rw a (omega arith)
    ]

pub retire_slot-Conserves :
    (iso : Isolate) (id handle device disp control : ℕ)
    → Conserves iso (retire_slot iso id handle device disp control)
unfolding retire_slot
retire_slot-Conserves iso id handle device disp control =
    elim (Bool-cases (iso.in_use && iso.id == id)) [
      | inl a ↦ rw a (
          clear_at-Conserves iso (is_control handle device disp control) _ refl
            (λ v h. ground arith))
      | inr a ↦ rw a (omega arith)
    ]

clear_all_lem :
    (k i : ℕ) (test : Vblank → Bool) (v : ℕ → Vblank)
    → i + k ≤ nvkms_vblank_max
    → ((x : Vblank) → test x ≡ true → occupied x ≡ 1)
    → sum_below nvkms_vblank_max occupied (clear_all k i test v).1 + (clear_all k i test v).0
      ≡ sum_below nvkms_vblank_max occupied v
unfolding clear_all
clear_all_lem zero i test v l t = omega arith
clear_all_lem (suc k) i test v l t = elim (Bool-cases (test (v i))) [
  | inl b ↦
      let one = t (v i) b in
      rw b (
        omega (
          arith,
          clear_all_lem k (suc i) test (update v i no_vblank) (omega arith) t,
          sum_below-update occupied nvkms_vblank_max i v no_vblank (omega arith),
        ))
  | inr b ↦ rw b (omega (arith, clear_all_lem k (suc i) test v (omega arith) t))
]

pub purge_slot-Conserves :
    (iso : Isolate) (id handle : ℕ) → Conserves iso (purge_slot iso id handle)
unfolding purge_slot
purge_slot-Conserves iso id handle = elim (Bool-cases (iso.in_use && iso.id == id)) [
  | inl a ↦ rw a (
      clear_all_lem nvkms_vblank_max 0 (λ v. not (v.reservation == 0) && v.handle_id == handle)
        iso.nvkms_vblank (omega arith) (λ x h. ground arith))
  | inr a ↦ rw a (omega arith)
]

pub kill_slot-Conserves : (iso : Isolate) → Conserves iso (kill_slot iso)
unfolding kill_slot
kill_slot-Conserves iso =
    clear_all_lem nvkms_vblank_max 0 (λ v. not (v.reservation == 0)) iso.nvkms_vblank (omega arith)
      (λ x h. ground arith)

-- A reservation is 0, with no change, or one more entry is reserved.
pub reserve_slot_lem :
    (iso : Isolate) (id handle : ℕ)
    → (((reserve_slot iso id handle).0 ≡ 0)
        × (reserved (reserve_slot iso id handle).1 ≡ reserved iso))
      ⊎ (((reserve_slot iso id handle).0 ≢ 0)
          × (reserved (reserve_slot iso id handle).1 ≡ reserved iso + 1))
unfolding reserve_slot
reserve_slot_lem iso id handle =
    elim (Bool-cases (iso.in_use && iso.id == id && iso.xrm_accepting)) [
      | inl a ↦ rw a (of _ refl)
      | inr a ↦ rw a (inl (refl, refl))
    ]
  where
    of :
        (o : Option ℕ)
        → find_vblank nvkms_vblank_max 0 is_free iso.nvkms_vblank ≡ o
        → (((reserve_at iso handle o).0 ≡ 0)
            × (reserved (reserve_at iso handle o).1 ≡ reserved iso))
          ⊎ (((reserve_at iso handle o).0 ≢ 0)
              × (reserved (reserve_at iso handle o).1 ≡ reserved iso + 1))
    of none h = inl (refl, refl)
    of (some i) h =
        let (l, b) = find_vblank_lem nvkms_vblank_max 0 is_free iso.nvkms_vblank i h in
        let one : reservation_of iso.nvkms_vblank_seq ≢ 0 = λ e. ground (arith, e) in
        inr (
          one,
          ground (
            arith,
            b,
            sum_below-update occupied nvkms_vblank_max i iso.nvkms_vblank
                (record no_vblank {
                  reservation = reservation_of iso.nvkms_vblank_seq;
                  handle_id = handle;
                })
                (omega arith),
          ),
        )
