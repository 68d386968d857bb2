-- ===== src/Tables/Mmaps.antt =====
-- The GPA windows and the mappings that are cut out of them.
use nvkvm_pv.Base.{
  ℕ, zero, suc, ◌+◌, Bool, true, false, not, ◌&&◌, ◌||◌, Option, none, some, List, ◌∷◌,
  if◌then◌else◌, leb, ◌==◌, update,
}
use nvkvm_pv.Base.Words.{add64}
use nvkvm_pv.Base.Results.{Result, ok, err, einval, enoent, enospc}
use nvkvm_pv.Tables.Ids.{id_pack, id_slot, after_gen, after_slot, search}
use nvkvm_pv.Tables.Handles.{Handles, handle_lookup}
use nvkvm_pv.Tables.Regions.{Region, align_up, add_free_region, take_region, punch_around}

abbrev pub max_mmaps : ℕ
max_mmaps = 8192

abbrev pub max_windows : ℕ
max_windows = 8

-- `qva` is where the window stands in the device's own address space.
pub record GpaWindow : Type 0 where
  pub in_use : Bool
  pub window_id : ℕ
  pub gpa_base : ℕ
  pub size : ℕ
  pub qva : ℕ
  pub free : List Region

pub record MmapEntry : Type 0 where
  pub in_use : Bool
  pub mmap_id : ℕ
  pub handle_id : ℕ
  pub handle_offset : ℕ
  pub vmm_va : ℕ
  pub gpa : ℕ
  pub size : ℕ
  pub prot : ℕ
  pub window_id : ℕ
  pub window_offset : ℕ

-- `holes` holds the ranges that were punched, each with the index of its window.
pub record Mappings : Type 0 where
  pub windows : ℕ → GpaWindow
  pub slots : ℕ → MmapEntry
  pub generation : ℕ → ℕ
  pub next_slot : ℕ
  pub holes : List (ℕ × Region)

abbrev pub no_mmap : MmapEntry
no_mmap = record {
  in_use = false;
  mmap_id = 0;
  handle_id = 0;
  handle_offset = 0;
  vmm_va = 0;
  gpa = 0;
  size = 0;
  prot = 0;
  window_id = 0;
  window_offset = 0;
}

-- `windows_take`, with `k` windows to go from number `i` on: the window, the offset taken, and its
-- free regions after it.
unfoldable pub windows_take : ℕ → ℕ → (ℕ → GpaWindow) → ℕ → Option (ℕ × ℕ × List Region)
windows_take zero i ws size = none
windows_take (suc k) i ws size =
    let rest = windows_take k (suc i) ws size in
    if not (ws i).in_use then rest else elim (take_region (ws i).free size) [
      | none ↦ rest
      | some (off, free) ↦ some (i, off, free)
    ]

-- The loop that looks for the window of an id.
unfoldable pub find_window : ℕ → ℕ → (ℕ → GpaWindow) → ℕ → Option ℕ
find_window zero i ws id = none
find_window (suc k) i ws id =
    let rest = find_window k (suc i) ws id in
    if (ws i).in_use && (ws i).window_id == id then some i else rest

abbrev pub set_free : Mappings → ℕ → List Region → Mappings
set_free t i free = record t { windows = update t.windows i (record (t.windows i) { free = free }) }

-- A range goes back to the free regions of the window of an id, if there is one.
abbrev pub give_back : Bool → Mappings → ℕ → ℕ → Option ℕ → Mappings
give_back memory t off size none = t
give_back memory t off size (some i) =
    set_free t i (add_free_region memory (t.windows i).free off size).1

abbrev pub usable : Handles → ℕ → Bool
usable hs id = elim (handle_lookup hs id) [ none ↦ false | some s ↦ (hs.slots s).ready ]

-- The entry for `[off, off + size)` of window `w` goes into the slot that the search found.
unfoldable pub record_mmap :
    Bool → Mappings → ℕ → ℕ → ℕ → ℕ → GpaWindow → ℕ → Option ℕ → Result (ℕ × ℕ) × Mappings
record_mmap memory t hid hoff size prot w off none =
    (err enospc, give_back memory t off size (find_window 7 1 t.windows w.window_id))
record_mmap memory t hid hoff size prot w off (some s) =
    let gen = after_gen (t.generation s) in
    let e : MmapEntry = record {
      in_use = true;
      mmap_id = id_pack gen s;
      handle_id = hid;
      handle_offset = hoff;
      vmm_va = add64 w.qva off;
      gpa = add64 w.gpa_base off;
      size = size;
      prot = prot;
      window_id = w.window_id;
      window_offset = off;
    } in
    (
      ok (e.gpa, e.mmap_id),
      record t {
        slots = update t.slots s e;
        generation = update t.generation s gen;
        next_slot = after_slot max_mmaps s;
      },
    )

abbrev pub mmap_used : Mappings → ℕ → Bool
mmap_used t s = (t.slots s).in_use

unfoldable pub place_mmap :
    Bool → Mappings → ℕ → ℕ → ℕ → ℕ → Option (ℕ × ℕ × List Region) → Result (ℕ × ℕ) × Mappings
place_mmap memory t hid hoff size prot none = (err enospc, t)
place_mmap memory t hid hoff size prot (some (i, off, free)) =
    record_mmap memory (set_free t i free) hid hoff size prot (t.windows i) off
      (search max_mmaps (mmap_used t) t.next_slot 0 max_mmaps)

-- `nvkvm_tables_mmap_alloc`: the address and the id.
unfoldable pub mmap_alloc : Bool → Handles → Mappings → ℕ → ℕ → ℕ → ℕ → Result (ℕ × ℕ) × Mappings
mmap_alloc memory hs t hid hoff size prot =
    if size == 0
    then (err einval, t)
    else if not (usable hs hid)
    then (err enoent, t)
    else place_mmap memory t hid hoff (align_up size) prot
        (windows_take 7 1 t.windows (align_up size))

abbrev pub hole : ℕ → Option Region → List (ℕ × Region) → List (ℕ × Region)
hole i none hs = hs
hole i (some r) hs = (i, r) ∷ hs

-- The end of a mapping in its window: the free regions first, then the hole around them.
abbrev pub free_in : Bool → Mappings → ℕ → ℕ → Option ℕ → Mappings
free_in memory t off size none = t
free_in memory t off size (some i) =
    let rs = (add_free_region memory (t.windows i).free off size).1 in
    record (set_free t i rs) { holes = hole i (punch_around rs off size) t.holes }

abbrev pub clear_mmap : Mappings → ℕ → Mappings
clear_mmap t s = record t { slots = update t.slots s no_mmap }

-- `nvkvm_tables_mmap_free`
unfoldable pub mmap_free : Bool → Mappings → ℕ → Result (Unit {0}) × Mappings
mmap_free memory t id =
    let s = id_slot id in
    let m = t.slots s in
    if s == 0 || leb max_mmaps s
    then (err enoent, t)
    else if not m.in_use || not (m.mmap_id == id)
    then (err enoent, t)
    else (
      ok tt,
      free_in memory (clear_mmap t s) m.window_offset m.size
          (find_window 7 1 t.windows m.window_id),
    )

-- `nvkvm_tables_mmap_count_for_handle`, over the first `n` slots.
unfoldable pub count_mmaps : ℕ → (ℕ → MmapEntry) → ℕ → ℕ
count_mmaps zero slots hid = 0
count_mmaps (suc n) slots hid =
    (if (slots n).in_use && (slots n).handle_id == hid then 1 else 0) + count_mmaps n slots hid
