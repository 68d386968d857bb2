-- ===== src/Handle/Inv.antt =====
-- The invariant of the handle table.
use nvkvm_pv.Base.{ℕ, ◌+◌, ◌^◌, ◌≤◌, ◌<◌, ◌≡◌, ◌≢◌, true, update, arith}
use nvkvm_pv.Handle.Os.{Handle, Table, handle_mem_max, table_init}
use nvkvm_pv.Handle.Scan.{InRange, Claimed, Unclaimed}

pub record IsValid (t : Table) : Type 0 where
  pub next : InRange t.next_id
  pub epoch : 1 ≤ t.next_generation
  pub ids : (i : ℕ) → (t.handles i).in_use ≡ true → ((t.handles i).id ≡ i) × InRange i
  pub epochs :
      (i : ℕ)
      → (t.handles i).in_use ≡ true
      → (1 ≤ (t.handles i).generation) × ((t.handles i).generation < t.next_generation)
  pub epochs_ne :
      (i j : ℕ)
      → i ≢ j
      → (t.handles i).in_use ≡ true
      → (t.handles j).in_use ≡ true
      → (t.handles i).generation ≢ (t.handles j).generation
  pub sizes : (i : ℕ) → (t.handles i).in_use ≡ true → (t.handles i).size ≤ handle_mem_max

pub table_init-IsValid : IsValid table_init
unfolding table_init
table_init-IsValid = record {
  next = omega arith;
  epoch = omega arith;
  ids = λ i h. ground arith;
  epochs = λ i h. ground arith;
  epochs_ne = λ i j n h k. ground arith;
  sizes = λ i h. ground arith;
}

-- A new content of slot `i` that is no more in use than the old one and keeps its identity.
abbrev pub Keeps : Handle → Handle → Type 0
Keeps old new =
    new.in_use ≡ true
    → (old.in_use ≡ true)
      × (new.id ≡ old.id)
      × (new.generation ≡ old.generation)
      × (new.size ≤ handle_mem_max)

pub record Edited (t : Table) (i : ℕ) (h : Handle) (u : Table) : Type 0 where
  pub content : (j : ℕ) → u.handles j ≡ update t.handles i h j
  pub next_id : u.next_id ≡ t.next_id
  pub next_generation : u.next_generation ≡ t.next_generation

pub Edited-IsValid :
    (t u : Table) (i : ℕ) (h : Handle)
    → Edited t i h u
    → (IsValid t → Keeps (t.handles i) h)
    → IsValid t
    → IsValid u
Edited-IsValid t u i h e keep v =
    let k = keep v in
    record {
      next = ground (arith, e.next_id, v.next);
      epoch = ground (arith, e.next_generation, v.epoch);
      ids = λ j a. ground (arith, e.content j, v.ids i, v.ids j);
      epochs = λ j a. ground (arith, e.content j, e.next_generation, v.epochs i, v.epochs j);
      epochs_ne = λ j l n a b.
          ground
            (arith, e.content j, e.content l, v.epochs_ne i l, v.epochs_ne j i, v.epochs_ne j l);
      sizes = λ j a. ground (arith, e.content j, v.sizes i, v.sizes j);
    }

pub Claimed-IsValid :
    (t u : Table) (id : ℕ) → Claimed t id u → t.next_generation + 1 < 2 ^ 64 → IsValid t → IsValid u
Claimed-IsValid t u id c w v = record {
  next = c.next;
  epoch = ground (arith, c.generation);
  ids = λ i h. ground (arith, c.content i, v.ids i);
  epochs = λ i h. ground (arith, c.content i, c.generation, v.epochs i, v.epoch);
  epochs_ne = λ i j n h k.
      ground (arith, c.content i, c.content j, v.epochs i, v.epochs j, v.epochs_ne i j);
  sizes = λ i h. ground (arith, c.content i, v.sizes i);
}

pub Unclaimed-IsValid : (t u : Table) → Unclaimed t u → IsValid t → IsValid u
Unclaimed-IsValid t u c v = record {
  next = c.next;
  epoch = ground (arith, c.generation, v.epoch);
  ids = λ i h. ground (arith, c.content i, v.ids i);
  epochs = λ i h. ground (arith, c.content i, c.generation, v.epochs i);
  epochs_ne = λ i j n h k. ground (arith, c.content i, c.content j, v.epochs_ne i j);
  sizes = λ i h. ground (arith, c.content i, v.sizes i);
}
