-- ===== src/Tables/MmapCalls.antt =====
-- Single calls on the mappings and sequences of them.
use nvkvm_pv.Base.{
  ℕ, ◌+◌, ◌%◌, ◌^◌, ◌≤◌, ◌<◌, ◌≡◌, refl, subst, ◌∙◌, Bool, true, false, not, ◌||◌, Option, none,
  some, List, [], ◌∷◌, leb, ◌==◌, arith, inl, inr, Bool-cases, All, ==-true, update,
}
use nvkvm_pv.Tables.Ids.{id_slot, after_slot}
use nvkvm_pv.Tables.Search.{search-some}
use nvkvm_pv.Tables.Handles.{Handles}
use nvkvm_pv.Tables.Regions.{Region, align_up}
use nvkvm_pv.Tables.RegionLaws.{Fits, hit, covered}
use nvkvm_pv.Tables.Mmaps.{
  GpaWindow, MmapEntry, Mappings, max_mmaps, set_free, windows_take, record_mmap, place_mmap,
  mmap_alloc, mmap_free, mmap_used, usable,
}
use nvkvm_pv.Tables.MmapInv.{
  IsValid, Inside, holds, held, set_free-IsValid, set_slot-IsValid, set_free-in_use,
  set_free-window_id, set_free-size, set_free_self,
}
use nvkvm_pv.Tables.MmapRuns.{
  take_region-some, windows_take-some, same_window, give_back-IsValid, holds-own, free_in-IsValid,
}

-- The state between the cut and the entry: the bytes that were cut are nobody's.
abbrev Loose : Mappings → ℕ → ℕ → ℕ → Type 0
Loose t i off size =
    (b : ℕ)
    → hit b (record { offset = off; size = size })
        + covered b (t.windows i).free
        + held t.slots (t.windows i).window_id b
      ≤ 1

entered-IsValid :
    (t : Mappings) (i s : ℕ) (e : MmapEntry) (generation : ℕ → ℕ) (next : ℕ)
    → IsValid t
    → (t.windows i).in_use ≡ true
    → s < max_mmaps
    → (t.slots s).in_use ≡ false
    → (1 ≤ next) × (next < max_mmaps)
    → e.in_use ≡ true
    → (t.windows i).window_id ≡ e.window_id
    → Fits 0 (t.windows i).size (record { offset = e.window_offset; size = e.size })
    → Loose t i e.window_offset e.size
    → IsValid (record {
      windows = t.windows;
      slots = update t.slots s e;
      generation = generation;
      next_slot = next;
      holes = t.holes;
    })
entered-IsValid t i s e generation next v u l free n used id f d =
    set_slot-IsValid t s e generation next t.holes v l n inside_of once_of
  where
    inside_of : (j : ℕ) → Inside (t.windows j) e
    inside_of j x y z =
        subst
          (λ (k : ℕ).
            Fits 0 (t.windows k).size (record { offset = e.window_offset; size = e.size }))
          (same_window t i j v u y (id ∙ z)) f

    once_of :
        (j : ℕ)
        → (t.windows j).in_use ≡ true
        → (b : ℕ)
        → covered b (t.windows j).free
            + held t.slots (t.windows j).window_id b
            + holds (t.windows j).window_id b e
          ≤ 1 + holds (t.windows j).window_id b (t.slots s)
    once_of j x b = elim (Bool-cases (e.window_id == (t.windows j).window_id)) [
      | inr c ↦ rw (used, c) (omega (arith, v.once j x b))
      | inl c ↦
          let k : i ≡ j = same_window t i j v u x (id ∙ ==-true _ _ c) in
          subst
            (λ (w : ℕ).
              covered b (t.windows w).free
                + held t.slots (t.windows w).window_id b
                + holds (t.windows w).window_id b e
              ≤ 1 + holds (t.windows w).window_id b (t.slots s))
            k (omega (arith, d b, holds-own (t.windows i).window_id b e used id))
    ]

after_slot-max :
    (s : ℕ) → s < max_mmaps → (1 ≤ after_slot max_mmaps s) × (after_slot max_mmaps s < max_mmaps)
after_slot-max s l = (ground arith, ground arith)

record_mmap-IsValid :
    (memory : Bool) (t : Mappings) (hid hoff size prot i off : ℕ) (w : GpaWindow) (o : Option ℕ)
    → IsValid t
    → (t.windows i).in_use ≡ true
    → (t.windows i).window_id ≡ w.window_id
    → Fits 0 (t.windows i).size (record { offset = off; size = size })
    → Loose t i off size
    → ((s : ℕ) → o ≡ some s → (s < max_mmaps) × ((t.slots s).in_use ≡ false))
    → IsValid (record_mmap memory t hid hoff size prot w off o).1
unfolding record_mmap
record_mmap-IsValid memory t hid hoff size prot i off w none v u e f d g =
    rw (← e) (give_back-IsValid memory t i off size _ v u refl f d)
record_mmap-IsValid memory t hid hoff size prot i off w (some s) v u e f d g =
    let (l, x) = g s refl in entered-IsValid t i s _ _ _ v u l x (after_slot-max s l) refl e f d

align_up_page : (v : ℕ) → 1 ≤ v → v ≤ 2 ^ 62 → (1 ≤ align_up v) × (align_up v % 4096 ≡ 0)
align_up_page v p l = (omega arith, omega arith)

place_mmap-IsValid :
    (memory : Bool) (t : Mappings) (hid hoff size prot : ℕ) (o : Option (ℕ × ℕ × List Region))
    → IsValid t
    → 1 ≤ size
    → size % 4096 ≡ 0
    → windows_take 7 1 t.windows size ≡ o
    → IsValid (place_mmap memory t hid hoff size prot o).1
unfolding place_mmap
place_mmap-IsValid memory t hid hoff size prot none v p z h = v
place_mmap-IsValid memory t hid hoff size prot (some (i, off, free)) v p z h =
    let (u, g) = windows_take-some 7 1 t.windows size i off free h in
    let k =
      take_region-some (t.windows i).size (t.windows i).free size off free (v.small i u) p z
        (v.apart i u) g in
    let w : IsValid (set_free t i free) =
      set_free-IsValid t i free v u k.apart (λ b. omega (arith, k.split b, v.once i u b)) in
    record_mmap-IsValid memory (set_free t i free) hid hoff size prot i off (t.windows i) _ w
      (set_free-in_use t i free i ∙ u) (set_free-window_id t i free i)
      (rw (set_free-size t i free i) k.fits)
      (λ b.
        rw (set_free-window_id t i free i, set_free_self t i free)
          (omega (arith, k.split b, v.once i u b)))
      (λ s e.
        let (_, l, n) =
          search-some max_mmaps (mmap_used t) t.next_slot 0 max_mmaps s e (omega arith) in
        (l, n))

pub mmap_alloc-IsValid :
    (memory : Bool) (hs : Handles) (t : Mappings) (hid hoff size prot : ℕ)
    → IsValid t
    → size ≤ 2 ^ 62
    → IsValid (mmap_alloc memory hs t hid hoff size prot).1
unfolding mmap_alloc
mmap_alloc-IsValid memory hs t hid hoff size prot v l = elim (Bool-cases (size == 0)) [
  | inl a ↦ rw a v
  | inr a ↦ elim (Bool-cases (usable hs hid)) [
    | inr b ↦ rw (a, b) v
    | inl b ↦
        let (p, z) = align_up_page size (ground arith) l in
        rw (a, b) (place_mmap-IsValid memory t hid hoff (align_up size) prot _ v p z refl)
  ]
]

pub mmap_free-IsValid :
    (memory : Bool) (t : Mappings) (id : ℕ) → IsValid t → IsValid (mmap_free memory t id).1
unfolding mmap_free
mmap_free-IsValid memory t id v =
    elim (Bool-cases (id_slot id == 0 || leb max_mmaps (id_slot id))) [
      | inl a ↦ rw a v
      | inr a ↦
          elim (Bool-cases
            (not (t.slots (id_slot id)).in_use || not ((t.slots (id_slot id)).mmap_id == id))) [
              | inl b ↦ rw (a, b) v
              | inr b ↦
                  rw (a, b)
                    (free_in-IsValid memory t (id_slot id) _ v (ground arith) (ground arith) refl)
            ]
    ]

-- A call on the mappings; every one comes with the answer of `malloc` and the handles of the
-- moment.
pub data Call : Type 0 where
  allocs : Bool → Handles → (hid hoff size prot : ℕ) → Call
  frees : Bool → (id : ℕ) → Call

abbrev pub call : Call → Mappings → Mappings
call (allocs memory hs hid hoff size prot) t = (mmap_alloc memory hs t hid hoff size prot).1
call (frees memory id) t = (mmap_free memory t id).1

abbrev pub Sized : Call → Type 0
Sized (allocs memory hs hid hoff size prot) = size ≤ 2 ^ 62
Sized (frees memory id) = Unit

abbrev pub calls : List Call → Mappings → Mappings
calls [] t = t
calls (c ∷ cs) t = calls cs (call c t)

-- Any sequence of allocations of at most 2^62 bytes and of frees, each run without other threads in
-- between, whatever ids and handles they name and whether `malloc` gives memory or not, keeps the
-- mappings valid: the free regions of every window are whole pages in order with gaps, every mapping lies in its window, and no byte
-- of a window is in two mappings, or in a mapping and free.
pub calls-IsValid :
    (cs : List Call) (t : Mappings) → All Sized cs → IsValid t → IsValid (calls cs t)
calls-IsValid [] t l v = v
calls-IsValid (allocs memory hs hid hoff size prot ∷ cs) t (l, ls) v =
    calls-IsValid cs _ ls (mmap_alloc-IsValid memory hs t hid hoff size prot v l)
calls-IsValid (frees memory id ∷ cs) t (l, ls) v =
    calls-IsValid cs _ ls (mmap_free-IsValid memory t id v)
