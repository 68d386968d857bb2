-- ===== src/MmapTable/Translate.antt =====
-- The address in the isolate of a range of the guest, `iso_mmap_translate`.
use nvkvm_pv.Base.{
  ℕ, zero, suc, ◌-◌, Bool, not, ◌&&◌, Option, none, some, if◌then◌else◌, ltb, leb, ◌==◌,
}
use nvkvm_pv.Base.Words.{add64}
use nvkvm_pv.MmapTable.Table.{Entry, IsoMmapTbl, iso_mmap_max}

-- An entry that stands for memory in the isolate.
abbrev pub is_usable : ℕ → Entry → Bool
is_usable isolate e =
    e.used
    && e.stub_mirrored
    && e.isolate_id == isolate
    && not (e.gva == 0)
    && not (e.len == 0)
    && not (e.stub_va == 0)
    && not (ltb (add64 e.gva e.len) e.gva)

abbrev pub contains_va : ℕ → Entry → Bool
contains_va cur e = leb e.gva cur && ltb cur (add64 e.gva e.len)

-- The first of `k` entries from index `i` on that contains `cur`.
unfoldable pub find_hit : ℕ → ℕ → (ℕ → Entry) → ℕ → ℕ → Option Entry
find_hit zero i entry isolate cur = none
find_hit (suc k) i entry isolate cur =
    let rest = find_hit k (suc i) entry isolate cur in
    if is_usable isolate (entry i) && contains_va cur (entry i) then some (entry i) else rest

-- `found` carries `*stub_base_out`, and `spent` stands for a loop that has used up its fuel.
pub data Walk : Type 0 where
  found : ℕ → Walk
  refused : Walk
  spent : Walk

-- What a round does with the entry that was found, when `stub_base` is known; `go` is the rest of
-- the loop, from a guest address, `stub_base` and `stub_next`.
abbrev pub advance : (ℕ → ℕ → ℕ → Walk) → ℕ → ℕ → ℕ → Entry → Walk
advance go end cur stub_base e =
    let next = add64 e.gva e.len in
    if leb next cur
    then Walk.refused
    else if leb end next
    then Walk.found stub_base
    else go next stub_base (add64 e.stub_va e.len)

abbrev pub next_round : (ℕ → ℕ → ℕ → Walk) → ℕ → ℕ → ℕ → ℕ → Option Entry → Walk
next_round go end cur stub_base stub_next none = Walk.refused
next_round go end cur stub_base stub_next (some e) =
    if not (e.stub_va == stub_next) then Walk.refused else advance go end cur stub_base e

-- The rounds after the first.
unfoldable pub walk : ℕ → (ℕ → Entry) → ℕ → ℕ → ℕ → ℕ → ℕ → Walk
walk zero entry isolate end cur stub_base stub_next = Walk.spent
walk (suc fuel) entry isolate end cur stub_base stub_next =
    next_round (walk fuel entry isolate end) end cur stub_base stub_next
      (find_hit (iso_mmap_max - 1) 1 entry isolate cur)

abbrev pub first_round : (ℕ → ℕ → ℕ → Walk) → ℕ → ℕ → Option Entry → Walk
first_round go end cur none = Walk.refused
first_round go end cur (some e) = advance go end cur (add64 e.stub_va (cur - e.gva)) e

-- `iso_mmap_translate`: no entry ends twice, so that there are at most as many rounds as entries.
unfoldable pub iso_mmap_translate : IsoMmapTbl → ℕ → ℕ → ℕ → Walk
iso_mmap_translate t isolate base len =
    if len == 0
    then Walk.refused
    else if ltb (add64 base len) base
    then Walk.refused
    else first_round (walk iso_mmap_max t.entry isolate (add64 base len)) (add64 base len) base
        (find_hit (iso_mmap_max - 1) 1 t.entry isolate base)
