-- ===== src/Handle/Pins.antt =====
-- References of isolates: pins and outdated generations.
use nvkvm_pv.Base.{
  ℕ, ◌+◌, ◌%◌, ◌^◌, ◌<◌, ◌≡◌, ◌≢◌, true, some, update, update_self, arith, inl, inr, Bool-cases, ap,
  ◌∙◌,
}
use native.Mathlib.Nat.{mod-eq_of_lt}
use nvkvm_pv.Base.Results.{ok, err, ebadf, ebusy}
use nvkvm_pv.Handle.Os.{Os, Table, handle_max}
use nvkvm_pv.Handle.Alloc.{alloc_pending}
use nvkvm_pv.Handle.Life.{
  bad_id, names, close, free, acquire_fd, Acquired, acquire_fd_ref_isolate, ref_isolate_generation,
  unref_isolate_generation, pinned,
}
use nvkvm_pv.Handle.Session.{close_session}
use nvkvm_pv.Handle.Scan.{InRange}
use nvkvm_pv.Handle.Inv.{IsValid}
use nvkvm_pv.Handle.Keep.{close-IsValid, bad_id-InRange, free-Edited}
use nvkvm_pv.Handle.Teardown.{handles-close_session}
use nvkvm_pv.Handle.Reuse.{alloc_pending_lem, close-ok}

-- What a successful pin has done.
pub record Pinned (t : Table) (id : ℕ) (u : Table) : Type 0 where
  pub range : InRange id
  pub named : names t id ≡ true
  pub content : (i : ℕ) → u.handles i ≡ update t.handles id (pinned (t.handles id)) i

acquire-Pinned :
    (os : Os) (t : Table) (id : ℕ) (a : Acquired)
    → (acquire_fd_ref_isolate os t id).0 ≡ some a
    → Pinned t id (acquire_fd_ref_isolate os t id).1
unfolding acquire_fd_ref_isolate acquire_fd
acquire-Pinned os t id a e = elim (Bool-cases (bad_id id)) [
  | inl b ↦ ground arith
  | inr b ↦
      let r = bad_id-InRange id b in
      let m : id % handle_max ≡ id = mod-eq_of_lt r.1 in
      record { range = r; named = ground arith; content = λ i. ground arith }
]

Pinned-protects :
    (t u : Table) (id session : ℕ)
    → Pinned t id u
    → (t.handles id).isolate_refcount + 1 < 2 ^ 32
    → (close u id ≡ (err ebusy, u))
      × ((close_session u session).handles id ≡ u.handles id)
      × ((i : ℕ) → (unref_isolate_generation u id 0).1.handles i ≡ t.handles i)
unfolding close unref_isolate_generation
Pinned-protects t u id session p w =
    let m : id % handle_max ≡ id = mod-eq_of_lt p.range.1 in
    let c = p.content id in
    (
      ground (arith, p.named, p.range),
      ground (arith, handles-close_session u session id p.range.0 p.range.1),
      λ i. ground (arith, p.named, p.range, p.content i),
    )

-- Where the count of the handle's references is below 2^32 - 1, so that the increment of 32 bits does
-- not wrap, a pin that succeeded holds: the handle cannot be closed, which the code answers with
-- EBUSY and no change, no session's teardown touches it, and dropping the pin restores every slot.
pub acquire-protects :
    (os : Os) (t : Table) (id session : ℕ) (a : Acquired)
    → (acquire_fd_ref_isolate os t id).0 ≡ some a
    → (t.handles id).isolate_refcount + 1 < 2 ^ 32
    → let u = (acquire_fd_ref_isolate os t id).1 in
      (close u id ≡ (err ebusy, u))
      × ((close_session u session).handles id ≡ u.handles id)
      × ((i : ℕ) → (unref_isolate_generation u id 0).1.handles i ≡ t.handles i)
acquire-protects os t id session a e w =
    Pinned-protects t (acquire_fd_ref_isolate os t id).1 id session (acquire-Pinned os t id a e) w

outdated :
    (w : Table) (id g : ℕ)
    → g ≢ 0
    → (w.handles id).generation ≢ g
    → (ref_isolate_generation w id g ≡ (err ebadf, w))
      × (unref_isolate_generation w id g ≡ (err ebadf, w))
unfolding ref_isolate_generation unref_isolate_generation
outdated w id g z n = elim (Bool-cases (bad_id id)) [
  | inl b ↦ ground arith
  | inr b ↦ let m : id % handle_max ≡ id = mod-eq_of_lt (bad_id-InRange id b).1 in ground arith
]

generation-free : (t : Table) (id : ℕ) → (free t id).next_generation ≡ t.next_generation
generation-free t id = (free-Edited t id).next_generation

-- A handle is closed and its id given out again: the generation of the old handle no longer fits,
-- so that a delayed reference or release of the old one is refused and changes nothing.
pub reuse_outdates :
    (t : Table) (id session dev : ℕ)
    → IsValid t
    → (close t id).0 ≡ ok tt
    → (alloc_pending (close t id).1 session dev).0 ≡ ok id
    → let w = (alloc_pending (close t id).1 session dev).1 in
      let g = (t.handles id).generation in
      (ref_isolate_generation w id g ≡ (err ebadf, w))
      × (unref_isolate_generation w id g ≡ (err ebadf, w))
reuse_outdates t id session dev v e a =
    let (r, n, z, f) = close-ok t id e in
    let m : id % handle_max ≡ id = mod-eq_of_lt r.1 in
    let c : (t.handles id).in_use ≡ true = ground arith in
    let s = (alloc_pending_lem (close t id).1 session dev (close-IsValid t id v)).0 id a in
    let old = v.epochs id c in
    let w = (alloc_pending (close t id).1 session dev).1 in
    let fresh : (w.handles id).generation ≡ t.next_generation =
      ap (λ h. h.generation) (s.content id ∙ update_self (close t id).1.handles id _)
      ∙ ap (λ p. p.1.next_generation) f
      ∙ generation-free t id in
    outdated w id (t.handles id).generation (omega (arith, old)) (λ q. omega (arith, fresh, old, q))
