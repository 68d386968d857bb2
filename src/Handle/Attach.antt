-- ===== src/Handle/Attach.antt =====
-- Attaching a descriptor that an isolate supplied, with other threads in between.
use nvkvm_pv.Base.{
  ℕ, ◌%◌, ◌≡◌, true, false, Option, none, some, update, update_self, arith, inl, inr, Bool-cases,
  ap, ◌∙◌,
}
use native.Mathlib.Nat.{mod-eq_of_lt}
use nvkvm_pv.Base.Results.{ok}
use nvkvm_pv.Handle.Os.{Os, Table, handle_max, attach_fd_matches_dev}
use nvkvm_pv.Handle.Alloc.{reserve, alloc_slot, alloc_pending}
use nvkvm_pv.Handle.Life.{bad_id, with_fd, attach_commit, attach_fd, abort_open}
use nvkvm_pv.Handle.Scan.{InRange, alloc_slot_idle}
use nvkvm_pv.Handle.Inv.{IsValid}
use nvkvm_pv.Handle.Keep.{abort_open-IsValid}
use nvkvm_pv.Handle.Reuse.{alloc_pending_lem}

-- What a successful attach has done, from the table `u` that the second half met.
pub record Attached (os : Os) (t u : Table) (id fd : ℕ) (w : Table) : Type 0 where
  pub pending :
      ((t.handles id).in_use ≡ true) × ((t.handles id).id ≡ id) × ((t.handles id).fd ≡ none)
  pub matched : attach_fd_matches_dev os fd (t.handles id).dev_id ≡ true
  pub still_pending :
      ((u.handles id).in_use ≡ true) × ((u.handles id).id ≡ id) × ((u.handles id).fd ≡ none)
  pub content : (i : ℕ) → w.handles i ≡ update u.handles id (with_fd fd (u.handles id)) i

-- An attach that succeeds was of a pending handle, in use under the id and with no descriptor, at
-- both times that the lock was held, and of a descriptor that is the device which the handle claimed when the first half read it. It stores
-- the descriptor, and changes nothing else that the other threads left.
pub attach_fd-Attached :
    (os : Os) (between : Table → Table) (t : Table) (id fd : ℕ)
    → (attach_fd os between t id (some fd)).0 ≡ ok tt
    → Attached os t (between t) id fd (attach_fd os between t id (some fd)).1
unfolding attach_fd
attach_fd-Attached os between t id fd e = elim (Bool-cases (bad_id id)) [
  | inl b ↦ ground arith
  | inr b ↦
      let m : id % handle_max ≡ id = mod-eq_of_lt {n = id} {m = handle_max} (ground arith) in
      record {
        pending = (ground arith, ground arith, ground arith);
        matched = ground arith;
        still_pending = (ground arith, ground arith, ground arith);
        content = λ i. ground arith;
      }
]

-- The slot is given up and given out again between the two halves.
abbrev pub reused : ℕ → ℕ → ℕ → Table → Table
reused id session dev t = (alloc_pending (abort_open t id) session dev).1

commit_pending :
    (u : Table) (id fd : ℕ)
    → InRange id
    → (u.handles id).in_use ≡ true
    → (u.handles id).id ≡ id
    → (u.handles id).fd ≡ none
    → ((attach_commit u id fd).0 ≡ ok tt)
      × ((attach_commit u id fd).1.handles id ≡ with_fd fd (u.handles id))
unfolding attach_commit
commit_pending u id fd r a b c =
    let m : id % handle_max ≡ id = mod-eq_of_lt r.1 in (ground arith, ground arith)

attach_fd-commit :
    (os : Os) (between : Table → Table) (t : Table) (id fd : ℕ)
    → IsValid t
    → (t.handles id).in_use ≡ true
    → (t.handles id).fd ≡ none
    → attach_fd_matches_dev os fd (t.handles id).dev_id ≡ true
    → attach_fd os between t id (some fd) ≡ attach_commit (between t) id fd
unfolding attach_fd
attach_fd-commit os between t id fd v a b c =
    let (i, r) = v.ids id a in let m : id % handle_max ≡ id = mod-eq_of_lt r.1 in ground arith

reserve-ok :
    (session dev id : ℕ) (p : Option ℕ × Table) → p.0 ≡ some id → (reserve session dev p).0 ≡ ok id
unfolding reserve
reserve-ok session dev id (none, u) e = cc
reserve-ok session dev id (some i, u) e = cc

abort_open-frees :
    (t : Table) (id : ℕ)
    → IsValid t
    → (t.handles id).in_use ≡ true
    → (t.handles id).fd ≡ none
    → (((abort_open t id).handles id).in_use ≡ false) × ((abort_open t id).next_id ≡ t.next_id)
unfolding abort_open
abort_open-frees t id v a b =
    let (i, r) = v.ids id a in
    let m : id % handle_max ≡ id = mod-eq_of_lt r.1 in (ground arith, ground arith)

reused-ok :
    (t : Table) (id session dev : ℕ)
    → IsValid t
    → (t.handles id).in_use ≡ true
    → (t.handles id).fd ≡ none
    → t.next_id ≡ id
    → (alloc_pending (abort_open t id) session dev).0 ≡ ok id
unfolding alloc_pending
reused-ok t id session dev v a b n =
    let (f, k) = abort_open-frees t id v a b in
    let e : (abort_open t id).next_id ≡ id = k ∙ n in
    reserve-ok session dev id (alloc_slot (abort_open t id))
      (alloc_slot_idle (abort_open t id) (rw e (v.ids id a).1) (rw e f) ∙ ap some e)

-- The second half validates the id again, and not the generation. If the slot is given up and the
-- same id is given out for another device while the lock is dropped, which takes a search that
-- has come round to the id, the attach still succeeds: the handle of device `dev` gets a
-- descriptor that was only compared with the device of the old handle.
pub attach_fd_race :
    (os : Os) (t : Table) (id fd session dev : ℕ)
    → IsValid t
    → (t.handles id).in_use ≡ true
    → (t.handles id).fd ≡ none
    → t.next_id ≡ id
    → attach_fd_matches_dev os fd (t.handles id).dev_id ≡ true
    → let r = attach_fd os (reused id session dev) t id (some fd) in
      (r.0 ≡ ok tt) × ((r.1.handles id).dev_id ≡ dev) × ((r.1.handles id).fd ≡ some fd)
attach_fd_race os t id fd session dev v a b n m =
    let u = reused id session dev t in
    let s =
      (alloc_pending_lem (abort_open t id) session dev (abort_open-IsValid t id v)).0 id
        (reused-ok t id session dev v a b n) in
    let c = s.content id ∙ update_self (abort_open t id).handles id _ in
    let (x, y) =
      commit_pending u id fd (v.ids id a).1 (ap (λ h. h.in_use) c) (ap (λ h. h.id) c)
        (ap (λ h. h.fd) c) in
    rw (attach_fd-commit os (reused id session dev) t id fd v a b m)
      (x, ap (λ h. h.dev_id) y ∙ ap (λ h. h.dev_id) c, ap (λ h. h.fd) y)
