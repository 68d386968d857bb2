-- ===== src/MmapTable/Table.antt =====
-- The table `iso_mmap_tbl` and its tokens.
use nvkvm_pv.Base.{
  ℕ, zero, suc, ◌+◌, ◌-◌, ◌%◌, Bool, true, false, not, ◌||◌, Option, none, some, if◌then◌else◌, leb,
  ◌==◌, update,
}
use nvkvm_pv.KvmSlot.{ℤ}

-- `struct nvkvm_iso_mmap_entry`; the addresses `gva`, `stub_va` and `qva` are 0 where there is none.
pub record Entry : Type 0 where
  pub used : Bool
  pub stub_mirrored : Bool
  pub isolate_id : ℕ
  pub gva : ℕ
  pub stub_va : ℕ
  pub qva : ℕ
  pub len : ℕ
  pub kvm_slot : ℤ
  pub gpa : ℕ
  pub handle_id : ℕ

abbrev pub iso_mmap_max : ℕ
iso_mmap_max = 8192

pub record IsoMmapTbl : Type 0 where
  pub entry : ℕ → Entry
  pub seq : ℕ

-- The search for an entry that is not used, `k` rounds of it; token 0 if there is none.
unfoldable pub alloc_from : ℕ → IsoMmapTbl → Entry → ℕ × IsoMmapTbl
alloc_from zero t e = (0, t)
alloc_from (suc k) t e =
    let tok = t.seq in
    let t' = record t { seq = tok % (iso_mmap_max - 1) + 1 } in
    let rest = alloc_from k t' e in
    if not (t.entry tok).used
    then (tok, record t' { entry = update t.entry tok (record e { used = true }) })
    else rest

-- `iso_mmap_alloc`, the arguments of which are the fields of `e`.
unfoldable pub iso_mmap_alloc : IsoMmapTbl → Entry → ℕ × IsoMmapTbl
iso_mmap_alloc t e = alloc_from (iso_mmap_max - 1) t e

-- `iso_mmap_free`: the entry that was detached.
unfoldable pub iso_mmap_free : IsoMmapTbl → ℕ → ℕ → Option Entry × IsoMmapTbl
iso_mmap_free t token owner =
    if token == 0 || leb iso_mmap_max token || owner == 0
    then (none, t)
    else if not (t.entry token).used || not ((t.entry token).isolate_id == owner)
    then (none, t)
    else (
      some (t.entry token),
      record t { entry = update t.entry token (record (t.entry token) { used = false }) },
    )
