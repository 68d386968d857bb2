-- ===== src/Tables/MmapInv.antt =====
-- The invariant of windows and mappings.
use nvkvm_pv.Base.{
  ℕ, ◌+◌, ◌^◌, ◌≤◌, ◌<◌, ◌≡◌, ◌≢◌, refl, ap, sym, subst, ◌∙◌, true, ◌&&◌, List, if◌then◌else◌, ◌==◌,
  arith, inl, inr, Bool-cases, ==-true, ==-refl, update, sum_below, sum_below-update,
}
use nvkvm_pv.Tables.Regions.{Region}
use nvkvm_pv.Tables.RegionLaws.{Fits, IsApart, hit, covered}
use nvkvm_pv.Tables.Mmaps.{GpaWindow, MmapEntry, Mappings, max_mmaps, set_free}

-- What an entry holds of byte `b` of the window with an id.
abbrev pub holds : ℕ → ℕ → MmapEntry → ℕ
holds id b e =
    if e.in_use && e.window_id == id
    then hit b (record { offset = e.window_offset; size = e.size })
    else 0

-- How many mappings hold it.
abbrev pub held : (ℕ → MmapEntry) → ℕ → ℕ → ℕ
held slots id b = sum_below max_mmaps (holds id b) slots

-- A mapping lies in its window, in whole pages.
abbrev pub Inside : GpaWindow → MmapEntry → Type 0
Inside w e =
    e.in_use ≡ true
    → w.in_use ≡ true
    → e.window_id ≡ w.window_id
    → Fits 0 w.size (record { offset = e.window_offset; size = e.size })

pub record IsValid (t : Mappings) : Type 0 where
  pub next : (1 ≤ t.next_slot) × (t.next_slot < max_mmaps)
  pub distinct :
      (i j : ℕ)
      → i ≢ j
      → (t.windows i).in_use ≡ true
      → (t.windows j).in_use ≡ true
      → (t.windows i).window_id ≢ (t.windows j).window_id
  pub small : (i : ℕ) → (t.windows i).in_use ≡ true → (t.windows i).size ≤ 2 ^ 62
  pub apart :
      (i : ℕ) → (t.windows i).in_use ≡ true → IsApart 0 (t.windows i).size (t.windows i).free
  pub once :
      (i : ℕ)
      → (t.windows i).in_use ≡ true
      → (b : ℕ) → covered b (t.windows i).free + held t.slots (t.windows i).window_id b ≤ 1
  pub inside : (i s : ℕ) → Inside (t.windows i) (t.slots s)

-- Another list of free regions for one window.
module _ (t : Mappings) (i : ℕ) (free : List Region) where
  abbrev windows_of : ℕ → GpaWindow
  windows_of = (set_free t i free).windows

  set_free_at :
      (j : ℕ)
      → windows_of j ≡ record (t.windows j) { free = if i == j then free else (t.windows j).free }
  set_free_at j = elim (Bool-cases (i == j)) [
    | inl b ↦
        let e : i ≡ j = ==-true _ _ b in
        rw b (ap (λ (x : ℕ). record (t.windows x) { free = free }) e)
    | inr b ↦ rw b refl
  ]

  pub set_free-in_use : (j : ℕ) → (windows_of j).in_use ≡ (t.windows j).in_use
  set_free-in_use j = ap (λ (w : GpaWindow). w.in_use) (set_free_at j)

  pub set_free-window_id : (j : ℕ) → (windows_of j).window_id ≡ (t.windows j).window_id
  set_free-window_id j = ap (λ (w : GpaWindow). w.window_id) (set_free_at j)

  pub set_free-size : (j : ℕ) → (windows_of j).size ≡ (t.windows j).size
  set_free-size j = ap (λ (w : GpaWindow). w.size) (set_free_at j)

  set_free-free : (j : ℕ) → (windows_of j).free ≡ (if i == j then free else (t.windows j).free)
  set_free-free j = ap (λ (w : GpaWindow). w.free) (set_free_at j)

  pub set_free_self : (windows_of i).free ≡ free
  set_free_self = set_free-free i ∙ rw (==-refl i) refl

  pub set_free-IsValid :
      IsValid t
      → (t.windows i).in_use ≡ true
      → IsApart 0 (t.windows i).size free
      → ((b : ℕ) → covered b free + held t.slots (t.windows i).window_id b ≤ 1)
      → IsValid (set_free t i free)
  set_free-IsValid v u a o = record {
    next = v.next;
    distinct = λ j k n x y e.
        v.distinct j k n (sym (set_free-in_use j) ∙ x) (sym (set_free-in_use k) ∙ y)
          (sym (set_free-window_id j) ∙ e ∙ set_free-window_id k);
    small = λ j x. rw (set_free-size j) (v.small j (sym (set_free-in_use j) ∙ x));
    apart =
        λ j x. rw (set_free-size j, set_free-free j) (here_apart j (sym (set_free-in_use j) ∙ x));
    once = λ j x b.
        rw (set_free-window_id j, set_free-free j) (here_once j (sym (set_free-in_use j) ∙ x) b);
    inside = λ j s x y e.
        rw (set_free-size j)
          (v.inside j s x (sym (set_free-in_use j) ∙ y) (e ∙ set_free-window_id j));
  }
    where
      here_apart :
          (j : ℕ)
          → (t.windows j).in_use ≡ true
          → IsApart 0 (t.windows j).size (if i == j then free else (t.windows j).free)
      here_apart j x = elim (Bool-cases (i == j)) [
        | inl b ↦ rw b (subst (λ (k : ℕ). IsApart 0 (t.windows k).size free) (==-true _ _ b) a)
        | inr b ↦ rw b (v.apart j x)
      ]

      here_once :
          (j : ℕ)
          → (t.windows j).in_use ≡ true
          → (b : ℕ)
          → covered b (if i == j then free else (t.windows j).free)
              + held t.slots (t.windows j).window_id b
            ≤ 1
      here_once j x b = elim (Bool-cases (i == j)) [
        | inl c ↦ rw c (
            subst (λ (k : ℕ). covered b free + held t.slots (t.windows k).window_id b ≤ 1)
              (==-true _ _ c) (o b))
        | inr c ↦ rw c (v.once j x b)
      ]

-- Another entry in one slot: its bytes instead of those of the entry before.
pub set_slot-IsValid :
    (t : Mappings) (s : ℕ) (e : MmapEntry) (generation : ℕ → ℕ) (next : ℕ)
    (holes : List (ℕ × Region))
    → IsValid t
    → s < max_mmaps
    → (1 ≤ next) × (next < max_mmaps)
    → ((j : ℕ) → Inside (t.windows j) e)
    → ((j : ℕ)
        → (t.windows j).in_use ≡ true
        → (b : ℕ)
        → covered b (t.windows j).free
            + held t.slots (t.windows j).window_id b
            + holds (t.windows j).window_id b e
          ≤ 1 + holds (t.windows j).window_id b (t.slots s))
    → IsValid (record {
      windows = t.windows;
      slots = update t.slots s e;
      generation = generation;
      next_slot = next;
      holes = holes;
    })
set_slot-IsValid t s e generation next holes v l n i o = record {
  next = n;
  distinct = v.distinct;
  small = v.small;
  apart = v.apart;
  once = λ j u b.
      omega (
        arith,
        o j u b,
        sum_below-update (holds (t.windows j).window_id b) max_mmaps s t.slots e l,
      );
  inside = λ j k. at_slot j k;
}
  where
    at_slot : (j k : ℕ) → Inside (t.windows j) (update t.slots s e k)
    at_slot j k = elim (Bool-cases (s == k)) [ inl b ↦ rw b (i j) | inr b ↦ rw b (v.inside j k) ]
