-- ===== src/Tables/HandleAlloc.antt =====
-- What an id names, and what an allocation of a handle does to it.
use nvkvm_pv.Base.{
  ℕ, ◌^◌, ◌≤◌, ◌<◌, ◌≡◌, ◌≢◌, refl, ◌∙◌, sym, true, false, ◌||◌, none, some, leb, ◌==◌, arith, inl,
  inr, ◌⊎◌, Bool-cases, update_ne, ==-refl,
}
use nvkvm_pv.Tables.Ids.{id_pack, id_slot, after_gen}
use nvkvm_pv.Tables.Handles.{Handles, max_handles, handles_init, take_handle, handle_lookup}

-- The entries in use have the id of their slot's generation.
pub record IsValid (t : Handles) : Type 0 where
  pub next : (1 ≤ t.next_slot) × (t.next_slot < max_handles)
  pub epochs : (s : ℕ) → t.generation s < 2 ^ 16
  pub ids : (s : ℕ) → (t.slots s).in_use ≡ true → (t.slots s).handle_id ≡ id_pack (t.generation s) s

pub handles_init-IsValid : IsValid handles_init
handles_init-IsValid = record {
  next = (omega arith, omega arith);
  epochs = λ s. omega arith;
  ids = λ s h. cc;
}

-- What an allocation returned.
pub record Allocated (t : Handles) (id : ℕ) (u : Handles) : Type 0 where
  pub slot : ℕ
  pub range : (1 ≤ slot) × (slot < max_handles)
  pub was_free : (t.slots slot).in_use ≡ false
  pub names : handle_lookup u id ≡ some slot
  pub others : (j : ℕ) → j ≢ id → handle_lookup u j ≡ handle_lookup t j
  pub kept : (s : ℕ) → slot ≢ s → u.slots s ≡ t.slots s
  pub generation : id ≡ id_pack (after_gen (t.generation slot)) slot
  pub valid : IsValid u

pub lookup_at :
    (t : Handles) (id s : ℕ)
    → id_slot id ≡ s
    → 1 ≤ s
    → s < max_handles
    → (t.slots s).in_use ≡ true
    → (t.slots s).handle_id ≡ id
    → handle_lookup t id ≡ some s
unfolding handle_lookup
lookup_at t id s e a b u i =
    let z : (s == 0 || leb max_handles s) ≡ false = ground arith in rw (e, z, u, i, ==-refl id) refl

-- An id that the entry of its slot does not have names nothing.
pub lookup_not :
    (t : Handles) (id : ℕ)
    → ((t.slots (id_slot id)).in_use ≡ false) ⊎ ((t.slots (id_slot id)).handle_id ≢ id)
    → handle_lookup t id ≡ none
unfolding handle_lookup
lookup_not t id (inl f) = ground (arith, f)
lookup_not t id (inr n) = ground (arith, n)

lookup_same :
    (t u : Handles) (id : ℕ)
    → u.slots (id_slot id) ≡ t.slots (id_slot id)
    → handle_lookup u id ≡ handle_lookup t id
unfolding handle_lookup
lookup_same t u id e = rw e refl

pub take-Allocated :
    (t : Handles) (kind s : ℕ)
    → IsValid t
    → (1 ≤ s) × (s < max_handles)
    → (t.slots s).in_use ≡ false
    → Allocated t (id_pack (after_gen (t.generation s)) s) (take_handle t kind (some s)).1
unfolding take_handle
take-Allocated t kind s v r f =
    let id = id_pack (after_gen (t.generation s)) s in
    let u = (take_handle t kind (some s)).1 in
    let i : id_slot id ≡ s = omega arith in
    record {
      slot = s;
      range = r;
      was_free = f;
      names = lookup_at u id s i r.0 r.1 (ground arith) (ground arith);
      others = λ j n. elim (Bool-cases (id_slot j == s)) [
        | inl b ↦ lookup_not u j (inr (ground arith)) ∙ sym (lookup_not t j (inl (ground arith)))
        | inr b ↦ lookup_same t u j (ground arith)
      ];
      kept = λ j n. update_ne t.slots s _ j n;
      generation = refl;
      valid = record {
        next = (ground arith, ground arith);
        epochs = λ j. ground (arith, v.epochs j);
        ids = λ j h. ground (arith, v.ids j);
      };
    }
