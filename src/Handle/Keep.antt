-- ===== src/Handle/Keep.antt =====
-- The operations on the handle table and its invariant.
use nvkvm_pv.Base.{
  ℕ, ◌%◌, ◌≡◌, refl, Bool, true, false, not, ◌&&◌, Option, none, some, if◌then◌else◌, ltb, arith,
  inl, inr, Bool-cases,
}
use native.Mathlib.Nat.{mod-eq_of_lt}
use nvkvm_pv.Handle.Os.{Os, Handle, Table, handle_max}
use nvkvm_pv.Handle.Alloc.{write}
use nvkvm_pv.Handle.Life.{
  bad_id, with_fd, retired, pinned, unpinned, slot, names, has_fd, stale, pin, Acquired,
  attach_commit, abort_open, acquire_fd, acquire_fd_ref_isolate, ref_isolate_generation,
  unref_isolate_generation, close, free,
}
use nvkvm_pv.Handle.Scan.{InRange}
use nvkvm_pv.Handle.Inv.{IsValid, Keeps, Edited, Edited-IsValid}

pub if-IsValid :
    {A : Type 0} (b : Bool) (x y : A × Table)
    → IsValid x.1
    → (b ≡ false → IsValid y.1)
    → IsValid (if b then x else y).1
if-IsValid true x y v w = v
if-IsValid false x y v w = w refl

pub when-IsValid : (b : Bool) (t u : Table) → IsValid t → IsValid u → IsValid (if b then u else t)
when-IsValid true t u v w = w
when-IsValid false t u v w = v

pub bad_id-InRange : (id : ℕ) → bad_id id ≡ false → InRange id
bad_id-InRange id h = ground arith

write-Edited :
    (t : Table) (id : ℕ) (f : Handle → Handle)
    → InRange id
    → Edited t id (f (t.handles id)) (write t id f)
write-Edited t id f r = record {
  content = λ j. rw (mod-eq_of_lt r.1);
  next_id = refl;
  next_generation = refl;
}

pub write-IsValid :
    (t : Table) (id : ℕ) (f : Handle → Handle)
    → InRange id
    → (IsValid t → Keeps (t.handles id) (f (t.handles id)))
    → IsValid t
    → IsValid (write t id f)
write-IsValid t id f r k v =
    Edited-IsValid t (write t id f) id (f (t.handles id)) (write-Edited t id f r) k v

pub free-Edited :
    (t : Table) (i : ℕ) → Edited t i (record (t.handles i) { fd = none; in_use = false }) (free t i)
free-Edited t i = go (t.handles i).fd refl
  where
    go :
        (o : Option ℕ)
        → (t.handles i).fd ≡ o
        → Edited t i (record (t.handles i) { fd = none; in_use = false }) (free t i)
    go none e = record {
      content = λ j. ground arith;
      next_id = ground arith;
      next_generation = ground arith;
    }
    go (some fd) e = record {
      content = λ j. ground arith;
      next_id = ground arith;
      next_generation = ground arith;
    }

pub free-IsValid : (t : Table) (i : ℕ) → IsValid t → IsValid (free t i)
free-IsValid t i v = Edited-IsValid t (free t i) i _ (free-Edited t i) (λ w h. ground arith) v

pub ref-IsValid : (t : Table) (id g : ℕ) → IsValid t → IsValid (ref_isolate_generation t id g).1
unfolding ref_isolate_generation
ref-IsValid t id g v = if-IsValid (bad_id id) _ _ v λ b.
    if-IsValid (stale t id g) _ _ v
      λ _. write-IsValid t id pinned (bad_id-InRange id b) (λ w h. (h, refl, refl, w.sizes id h)) v

pub unref-IsValid : (t : Table) (id g : ℕ) → IsValid t → IsValid (unref_isolate_generation t id g).1
unfolding unref_isolate_generation
unref-IsValid t id g v = if-IsValid (bad_id id) _ _ v λ b.
    if-IsValid (stale t id g) _ _ v λ _.
      write-IsValid t id unpinned (bad_id-InRange id b) (λ w h. (h, refl, refl, w.sizes id h)) v

pub attach_commit-IsValid :
    (t : Table) (id fd : ℕ) → InRange id → IsValid t → IsValid (attach_commit t id fd).1
unfolding attach_commit
attach_commit-IsValid t id fd r v = if-IsValid (not (names t id)) _ _ v λ b.
    if-IsValid (has_fd (slot t id).fd) _ _ v
      λ _. write-IsValid t id (with_fd fd) r (λ w h. (h, refl, refl, w.sizes id h)) v

pub close-IsValid : (t : Table) (id : ℕ) → IsValid t → IsValid (close t id).1
unfolding close
close-IsValid t id v = if-IsValid (bad_id id) _ _ v λ b. if-IsValid (not (names t id)) _ _ v λ _.
    if-IsValid (ltb 0 (slot t id).isolate_refcount) _ _ v λ _. free-IsValid t (id % handle_max) v

pub abort_open-IsValid : (t : Table) (id : ℕ) → IsValid t → IsValid (abort_open t id)
unfolding abort_open
abort_open-IsValid t id v = elim (Bool-cases (bad_id id)) [
  | inl b ↦ rw b v
  | inr b ↦ rw b (
      when-IsValid (names t id && not (has_fd (slot t id).fd)) t _ v
        (write-IsValid t id retired (bad_id-InRange id b) (λ w h. ground arith) v))
]

pin-IsValid :
    (t : Table) (id : ℕ) (a : Option Acquired) → InRange id → IsValid t → IsValid (pin t id a).1
pin-IsValid t id none r v = v
pin-IsValid t id (some a) r v = go a.dup_fd refl
  where
    go : (o : Option ℕ) → a.dup_fd ≡ o → IsValid (pin t id (some a)).1
    go none e = rw e v
    go (some fd) e = rw e (write-IsValid t id pinned r (λ w h. (h, refl, refl, w.sizes id h)) v)

pub acquire-IsValid :
    (os : Os) (t : Table) (id : ℕ) → IsValid t → IsValid (acquire_fd_ref_isolate os t id).1
unfolding acquire_fd_ref_isolate
acquire-IsValid os t id v = elim (Bool-cases (bad_id id)) [
  | inl b ↦ rw b v
  | inr b ↦ pin-IsValid t id (acquire_fd os t id) (bad_id-InRange id b) v
]
