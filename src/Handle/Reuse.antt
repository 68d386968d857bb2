-- ===== src/Handle/Reuse.antt =====
-- Reserving and closing one handle, and old ids.
use nvkvm_pv.Base.{
  ℕ, ◌%◌, ◌≡◌, ◌≢◌, refl, true, false, Option, none, some, update, update_self, arith, inl, inr,
  Bool-cases, ◌∙◌, subst,
}
use native.Mathlib.Nat.{mod-eq_of_lt}
use nvkvm_pv.Base.Results.{Result, ok, err, ebadf, emfile}
use nvkvm_pv.Handle.Os.{Os, Table, handle_max, cleared}
use nvkvm_pv.Handle.Alloc.{write, fill_nvidia, alloc_slot, reserve, alloc_pending}
use nvkvm_pv.Handle.Life.{bad_id, names, get, close, free, acquire_fd, ref_isolate_generation}
use nvkvm_pv.Handle.Scan.{InRange, Claimed, alloc_slot-Claimed, alloc_slot-none}
use nvkvm_pv.Handle.Inv.{IsValid}
use nvkvm_pv.Handle.Keep.{free-Edited}

-- What a successful reservation has done.
pub record Reserved (t : Table) (session dev id : ℕ) (u : Table) : Type 0 where
  pub was_free : get t id ≡ none
  pub found : get u id ≡ some id
  pub content :
      (i : ℕ)
      → u.handles i
        ≡ update t.handles id
            (record (fill_nvidia session dev none cleared) {
              id = id;
              generation = t.next_generation;
              in_use = true;
            })
            i
  pub closed : u.closed ≡ t.closed

reserve-Reserved :
    (t u : Table) (session dev id : ℕ)
    → Claimed t id u
    → Reserved t session dev id (write u id (fill_nvidia session dev none))
unfolding get
reserve-Reserved t u session dev id c =
    let e : id % handle_max ≡ id = mod-eq_of_lt c.range.1 in
    record {
      was_free = ground (arith, c.was_free);
      found = ground (arith, c.content id);
      content = λ i. ground (arith, c.content i, c.content id);
      closed = c.closed;
    }

abbrev AllBusy : Table → Type 0
AllBusy t = (id : ℕ) → InRange id → (t.handles id).in_use ≡ true

abbrev Reserves : Table → ℕ → ℕ → Result ℕ × Table → Type 0
Reserves t session dev (r, u) =
    ((id : ℕ) → r ≡ ok id → Reserved t session dev id u) × (r ≡ err emfile → AllBusy t)

reserve-Reserves :
    (t : Table) (session dev : ℕ) (p : Option ℕ × Table)
    → ((id : ℕ) → p.0 ≡ some id → Claimed t id p.1)
    → (p.0 ≡ none → AllBusy t)
    → Reserves t session dev (reserve session dev p)
unfolding reserve
reserve-Reserves t session dev (none, u) c b = (λ id e. cc, λ _. b refl)
reserve-Reserves t session dev (some i, u) c b = (
  λ id e.
      subst (λ j. Reserved t session dev j (write u i (fill_nvidia session dev none))) (cc)
        (reserve-Reserved t u session dev i (c i refl)),
  λ e. cc,
)

-- A reservation in a valid table hands out an id that named nothing, puts a fresh generation and
-- no descriptor behind it, and leaves all other slots as they were. It fails only if every id is
-- taken.
pub alloc_pending_lem :
    (t : Table) (session dev : ℕ)
    → IsValid t
    → ((id : ℕ)
        → (alloc_pending t session dev).0 ≡ ok id
        → Reserved t session dev id (alloc_pending t session dev).1)
      × ((alloc_pending t session dev).0 ≡ err emfile
          → (id : ℕ) → InRange id
          → (t.handles id).in_use ≡ true)
unfolding alloc_pending
alloc_pending_lem t session dev v =
    reserve-Reserves t session dev (alloc_slot t) (λ id. alloc_slot-Claimed t id v.next)
      (alloc_slot-none t v.next)

-- What is left of a closed handle.
pub record Gone (t : Table) (id : ℕ) (u : Table) : Type 0 where
  pub unreferenced : (t.handles id).isolate_refcount ≡ 0
  pub lost : get u id ≡ none
  pub no_fd : (os : Os) → acquire_fd os u id ≡ none
  pub no_ref : (g : ℕ) → ref_isolate_generation u id g ≡ (err ebadf, u)
  pub others : (i : ℕ) → i ≢ id → u.handles i ≡ t.handles i

pub close-ok :
    (t : Table) (id : ℕ)
    → (close t id).0 ≡ ok tt
    → InRange id
      × (names t id ≡ true)
      × ((t.handles id).isolate_refcount ≡ 0)
      × (close t id ≡ (ok tt, free t id))
unfolding close
close-ok t id e = elim (Bool-cases (bad_id id)) [
  | inl b ↦ ground arith
  | inr b ↦
      let m : id % handle_max ≡ id = mod-eq_of_lt {n = id} {m = handle_max} (ground arith) in
      ground arith
]

free-Gone :
    (t : Table) (id : ℕ) → InRange id → (t.handles id).isolate_refcount ≡ 0 → Gone t id (free t id)
unfolding get acquire_fd ref_isolate_generation
free-Gone t id r z =
    let m : id % handle_max ≡ id = mod-eq_of_lt r.1 in
    let c : (free t id).handles id ≡ record (t.handles id) { fd = none; in_use = false } =
      (free-Edited t id).content id ∙ update_self t.handles id _ in
    record {
      unreferenced = z;
      lost = ground arith;
      no_fd = λ os. ground arith;
      no_ref = λ g. ground arith;
      others = λ i n. ground (arith, (free-Edited t id).content i);
    }

-- A close that succeeds was of a handle that no isolate references. Afterwards its id names
-- nothing: no lookup, no dup and no reference succeeds. All other slots stay as they were.
pub close-Gone : (t : Table) (id : ℕ) → (close t id).0 ≡ ok tt → Gone t id (close t id).1
close-Gone t id e = let (r, n, z, f) = close-ok t id e in rw f (free-Gone t id r z)
