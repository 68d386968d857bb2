-- ===== src/Tables/MmapRuns.antt =====
-- Mappings that come and go.
use nvkvm_pv.Base.{
  ℕ, zero, suc, ◌+◌, ◌%◌, ◌^◌, ◌≤◌, ◌<◌, ◌≡◌, refl, ap, sym, subst, ◌∙◌, Bool, true, false, ◌&&◌,
  Option, none, some, List, ◌==◌, arith, inl, inr, Bool-cases, Option-cases, ==-true, ==-false,
  ==-refl, sum_below-update,
}
use nvkvm_pv.Tables.Regions.{Region, add_free_region, take_region}
use nvkvm_pv.Tables.RegionLaws.{
  Fits, IsApart, hit, covered, Takes, take_region-Takes, add_free_region-Holds,
}
use nvkvm_pv.Tables.Mmaps.{
  GpaWindow, MmapEntry, Mappings, max_mmaps, no_mmap, set_free, clear_mmap, windows_take,
  find_window, give_back, free_in,
}
use nvkvm_pv.Tables.MmapInv.{IsValid, holds, held, set_free-IsValid, set_slot-IsValid}

pub take_region-some :
    (hi : ℕ) (rs : List Region) (size off : ℕ) (rest : List Region)
    → hi ≤ 2 ^ 62
    → 1 ≤ size
    → size % 4096 ≡ 0
    → IsApart 0 hi rs
    → take_region rs size ≡ some (off, rest)
    → Takes 0 hi rs size off rest
take_region-some hi rs size off rest s p z v h = elim (take_region-Takes 0 hi rs size s p z v) [
  | inl (n, _) ↦
      let q : ◌≡◌ {A = Option (ℕ × List Region)} none (some (off, rest)) = sym n ∙ h in cc
  | inr (k, us, g, t) ↦
      let q : ◌≡◌ {A = Option (ℕ × List Region)} (some (k, us)) (some (off, rest)) = sym g ∙ h in
      let a : k ≡ off = cc in
      let b : us ≡ rest = cc in
      subst (λ (x : List Region). Takes 0 hi rs size off x) b
        (subst (λ (x : ℕ). Takes 0 hi rs size x us) a t)
]

pub windows_take-some :
    (k i : ℕ) (ws : ℕ → GpaWindow) (size j off : ℕ) (free : List Region)
    → windows_take k i ws size ≡ some (j, off, free)
    → ((ws j).in_use ≡ true) × (take_region (ws j).free size ≡ some (off, free))
unfolding windows_take
windows_take-some zero i ws size j off free h = cc
windows_take-some (suc k) i ws size j off free h = elim (Bool-cases (ws i).in_use) [
  | inr u ↦ windows_take-some k (suc i) ws size j off free (rw u at h)
  | inl u ↦ elim (Option-cases (take_region (ws i).free size)) [
    | inl g ↦ windows_take-some k (suc i) ws size j off free (rw (u, g) at h)
    | inr ((o, us), g) ↦
        let q : ◌≡◌ {A = Option (ℕ × ℕ × List Region)} (some (i, o, us)) (some (j, off, free)) =
          rw (u, g) at h in
        let a : i ≡ j = cc in
        let b : ◌≡◌ {A = Option (ℕ × List Region)} (some (o, us)) (some (off, free)) = cc in
        (rw (← a) u, rw (← a) (g ∙ b))
  ]
]

find_window-some :
    (k i : ℕ) (ws : ℕ → GpaWindow) (id j : ℕ)
    → find_window k i ws id ≡ some j
    → ((ws j).in_use ≡ true) × ((ws j).window_id ≡ id)
unfolding find_window
find_window-some zero i ws id j h = cc
find_window-some (suc k) i ws id j h = elim (Bool-cases ((ws i).in_use && (ws i).window_id == id)) [
  | inr u ↦ find_window-some k (suc i) ws id j (rw u at h)
  | inl u ↦
      let q : some i ≡ some j = rw u at h in
      let a : i ≡ j = cc in
      subst (λ (x : ℕ). ((ws x).in_use ≡ true) × ((ws x).window_id ≡ id)) a
        (ground arith, ground arith)
]

-- Bytes that nobody holds go back to the free regions.
set_added-IsValid :
    (memory : Bool) (t : Mappings) (i off size : ℕ)
    → IsValid t
    → (t.windows i).in_use ≡ true
    → Fits 0 (t.windows i).size (record { offset = off; size = size })
    → ((b : ℕ)
        → hit b (record { offset = off; size = size })
            + covered b (t.windows i).free
            + held t.slots (t.windows i).window_id b
          ≤ 1)
    → IsValid (set_free t i (add_free_region memory (t.windows i).free off size).1)
set_added-IsValid memory t i off size v u f o =
    let (a, n, p, c) =
      add_free_region-Holds memory 0 (t.windows i).size (t.windows i).free off size (v.small i u) f
        (v.apart i u) (λ b. omega (arith, o b)) in
    set_free-IsValid t i (add_free_region memory (t.windows i).free off size).1 v u p (λ b.
      elim (Bool-cases memory) [
        | inl m ↦ omega (arith, c m b, o b)
        | inr m ↦ omega (arith, ap (covered b) (n m), o b)
      ])

-- Equal ids are of one window.
pub same_window :
    (t : Mappings) (i j : ℕ)
    → IsValid t
    → (t.windows i).in_use ≡ true
    → (t.windows j).in_use ≡ true
    → (t.windows i).window_id ≡ (t.windows j).window_id
    → i ≡ j
same_window t i j v x y e = elim (Bool-cases (i == j)) [
  | inl b ↦ ==-true _ _ b
  | inr b ↦ absurd (v.distinct i j (==-false _ _ b) x y e)
]

pub give_back-IsValid :
    (memory : Bool) (t : Mappings) (i off size : ℕ) (o : Option ℕ)
    → IsValid t
    → (t.windows i).in_use ≡ true
    → find_window 7 1 t.windows (t.windows i).window_id ≡ o
    → Fits 0 (t.windows i).size (record { offset = off; size = size })
    → ((b : ℕ)
        → hit b (record { offset = off; size = size })
            + covered b (t.windows i).free
            + held t.slots (t.windows i).window_id b
          ≤ 1)
    → IsValid (give_back memory t off size o)
give_back-IsValid memory t i off size none v u h f d = v
give_back-IsValid memory t i off size (some j) v u h f d =
    let (x, y) = find_window-some 7 1 t.windows (t.windows i).window_id j h in
    let e : i ≡ j = sym (same_window t j i v x u y) in
    subst (λ (k : ℕ). IsValid (set_free t k (add_free_region memory (t.windows k).free off size).1))
      e (set_added-IsValid memory t i off size v u f d)

holes-IsValid :
    (t : Mappings) (hs : List (ℕ × Region)) → IsValid t → IsValid (record t { holes = hs })
holes-IsValid t hs v = record {
  next = v.next;
  distinct = v.distinct;
  small = v.small;
  apart = v.apart;
  once = v.once;
  inside = v.inside;
}

clear_mmap-IsValid : (t : Mappings) (s : ℕ) → IsValid t → s < max_mmaps → IsValid (clear_mmap t s)
clear_mmap-IsValid t s v l =
    set_slot-IsValid t s no_mmap t.generation t.next_slot t.holes v l v.next (λ j x. cc)
      (λ j u b. omega (arith, v.once j u b))

pub holds-own :
    (id b : ℕ) (e : MmapEntry)
    → e.in_use ≡ true
    → id ≡ e.window_id
    → holds id b e ≡ hit b (record { offset = e.window_offset; size = e.size })
holds-own id b e u i = rw (u, i, ==-refl e.window_id) refl

-- What is held by no entry.
pub holds-other : (id b : ℕ) (e : MmapEntry) → e.in_use ≡ false → holds id b e ≡ 0
holds-other id b e u = rw u refl

pub free_in-IsValid :
    (memory : Bool) (t : Mappings) (s : ℕ) (o : Option ℕ)
    → IsValid t
    → s < max_mmaps
    → (t.slots s).in_use ≡ true
    → find_window 7 1 t.windows (t.slots s).window_id ≡ o
    → IsValid (free_in memory (clear_mmap t s) (t.slots s).window_offset (t.slots s).size o)
free_in-IsValid memory t s none v l u h = clear_mmap-IsValid t s v l
free_in-IsValid memory t s (some i) v l u h =
    let (x, y) = find_window-some 7 1 t.windows (t.slots s).window_id i h in
    holes-IsValid _ _ (
      set_added-IsValid memory (clear_mmap t s) i (t.slots s).window_offset (t.slots s).size
        (clear_mmap-IsValid t s v l) x (v.inside i s u x (sym y))
        (λ b. omega (
          arith,
          holds-own (t.windows i).window_id b (t.slots s) u y,
          v.once i x b,
          sum_below-update (holds (t.windows i).window_id b) max_mmaps s t.slots no_mmap l,
        )))
