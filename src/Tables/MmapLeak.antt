-- ===== src/Tables/MmapLeak.antt =====
-- Mappings in the upper half of the slots, whose ids have no room for the slot.
use nvkvm_pv.Base.{
  ℕ, zero, suc, ◌≤◌, ◌<◌, ◌≡◌, refl, ap, subst, ◌∙◌, Bool, true, false, not, ◌||◌, Option, none,
  some, List, [], ◌∷◌, leb, ◌==◌, arith, inl, inr, Bool-cases, ==-true, ==-false, ==-refl,
  update_ne,
}
use native.Mathlib.Nat.{mod-lt}
use nvkvm_pv.Tables.Ids.{id_slot}
use nvkvm_pv.Tables.Search.{search-some}
use nvkvm_pv.Tables.Handles.{Handles}
use nvkvm_pv.Tables.Regions.{Region, align_up}
use nvkvm_pv.Tables.Mmaps.{
  GpaWindow, MmapEntry, Mappings, max_mmaps, no_mmap, set_free, clear_mmap, give_back, free_in,
  record_mmap, place_mmap, mmap_alloc, mmap_free, mmap_used, usable, count_mmaps,
}
use nvkvm_pv.Tables.MmapCalls.{Call, allocs, frees, call, calls}

abbrev Stays : Mappings → Mappings → ℕ → Type 0
Stays t u s = (u.slots s ≡ t.slots s)

give_back-slots :
    (memory : Bool) (t : Mappings) (off size : ℕ) (o : Option ℕ)
    → (give_back memory t off size o).slots ≡ t.slots
give_back-slots memory t off size none = refl
give_back-slots memory t off size (some i) = refl

free_in-slots :
    (memory : Bool) (t : Mappings) (off size : ℕ) (o : Option ℕ)
    → (free_in memory t off size o).slots ≡ t.slots
free_in-slots memory t off size none = refl
free_in-slots memory t off size (some i) = refl

record_mmap-Stays :
    (memory : Bool) (t : Mappings) (hid hoff size prot off s : ℕ) (w : GpaWindow) (o : Option ℕ)
    → (t.slots s).in_use ≡ true
    → ((k : ℕ) → o ≡ some k → (t.slots k).in_use ≡ false)
    → Stays t (record_mmap memory t hid hoff size prot w off o).1 s
unfolding record_mmap
record_mmap-Stays memory t hid hoff size prot off s w none u g =
    ap (λ (f : ℕ → MmapEntry). f s) (give_back-slots memory t off size _)
record_mmap-Stays memory t hid hoff size prot off s w (some k) u g = update_ne t.slots k _ s (λ e.
    let q : (t.slots s).in_use ≡ false =
      subst (λ (x : ℕ). (t.slots x).in_use ≡ false) e (g k refl) in
    cc)

place_mmap-Stays :
    (memory : Bool) (t : Mappings) (hid hoff size prot s : ℕ) (o : Option (ℕ × ℕ × List Region))
    → (t.slots s).in_use ≡ true
    → Stays t (place_mmap memory t hid hoff size prot o).1 s
unfolding place_mmap
place_mmap-Stays memory t hid hoff size prot s none u = refl
place_mmap-Stays memory t hid hoff size prot s (some (i, off, free)) u =
    record_mmap-Stays memory (set_free t i free) hid hoff size prot off s (t.windows i) _ u
      (λ k e. (search-some max_mmaps (mmap_used t) t.next_slot 0 max_mmaps k e (omega arith)).2)

mmap_alloc-Stays :
    (memory : Bool) (hs : Handles) (t : Mappings) (hid hoff size prot s : ℕ)
    → (t.slots s).in_use ≡ true
    → Stays t (mmap_alloc memory hs t hid hoff size prot).1 s
unfolding mmap_alloc
mmap_alloc-Stays memory hs t hid hoff size prot s u = elim (Bool-cases (size == 0)) [
  | inl a ↦ rw a refl
  | inr a ↦ elim (Bool-cases (usable hs hid)) [
    | inr b ↦ rw (a, b) refl
    | inl b ↦ rw (a, b) (place_mmap-Stays memory t hid hoff (align_up size) prot s _ u)
  ]
]

mmap_free-Stays :
    (memory : Bool) (t : Mappings) (id s : ℕ) → 4096 ≤ s → Stays t (mmap_free memory t id).1 s
unfolding mmap_free
mmap_free-Stays memory t id s l =
    elim (Bool-cases (id_slot id == 0 || leb max_mmaps (id_slot id))) [
      | inl a ↦ rw a refl
      | inr a ↦
          elim (Bool-cases
            (not (t.slots (id_slot id)).in_use || not ((t.slots (id_slot id)).mmap_id == id))) [
              | inl b ↦ rw (a, b) refl
              | inr b ↦
                  rw (a, b)
                    (ap (λ (f : ℕ → MmapEntry). f s)
                        (free_in-slots memory (clear_mmap t (id_slot id)) _ _ _)
                      ∙ update_ne t.slots (id_slot id) no_mmap s
                          (λ e. absurd (omega (arith, mod-lt id {m = 4096} (omega arith)))))
            ]
    ]

counted :
    (n s hid : ℕ) (slots : ℕ → MmapEntry)
    → s < n
    → (slots s).in_use ≡ true
    → (slots s).handle_id ≡ hid
    → 1 ≤ count_mmaps n slots hid
unfolding count_mmaps
counted zero s hid slots l u h = absurd (omega arith)
counted (suc n) s hid slots l u h = elim (Bool-cases (n == s)) [
  | inl b ↦ let e : n ≡ s = ==-true _ _ b in rw (e, u, h, ==-refl hid) (omega arith)
  | inr b ↦ omega (arith, ==-false _ _ b, counted n s hid slots (omega (arith, ==-false _ _ b)) u h)
]

-- A mapping in slot 4096 or above is there for ever: an id has 12 bits for the slot, so that no
-- sequence of allocations and frees, whatever ids it names, changes the entry, and its handle always
-- counts at least one mapping.
pub calls_leak :
    (cs : List Call) (t : Mappings) (s : ℕ)
    → 4096 ≤ s
    → s < max_mmaps
    → (t.slots s).in_use ≡ true
    → ((calls cs t).slots s ≡ t.slots s)
      × (1 ≤ count_mmaps max_mmaps (calls cs t).slots (t.slots s).handle_id)
calls_leak [] t s l m u = (refl, counted max_mmaps s (t.slots s).handle_id t.slots m u refl)
calls_leak (c ∷ cs) t s l m u =
    let (a, b) = calls_leak cs (call c t) s l m (ap (λ (e : MmapEntry). e.in_use) (step c) ∙ u) in
    (a ∙ step c, rw (← step c) b)
  where
    step : (c : Call) → Stays t (call c t) s
    step (allocs memory hs hid hoff size prot) = mmap_alloc-Stays memory hs t hid hoff size prot s u
    step (frees memory id) = mmap_free-Stays memory t id s l
