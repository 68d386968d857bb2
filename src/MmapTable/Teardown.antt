-- ===== src/MmapTable/Teardown.antt =====
-- What ends a mapping: the request, the close of its handle, and the end of its isolate.
use nvkvm_pv.Base.{
  ℕ, zero, suc, ◌-◌, Bool, true, false, not, ◌&&◌, Option, none, some, List, [], ◌∷◌, ◌++◌,
  if◌then◌else◌, ◌==◌, update,
}
use nvkvm_pv.Base.Results.{Result, ok, err, einval, enoent}
use nvkvm_pv.KvmSlot.{ℤ, pos, negsuc}
use nvkvm_pv.MmapTable.Table.{Entry, IsoMmapTbl, iso_mmap_max, iso_mmap_free}

-- The calls that take the mapping down, in order.
pub data Action : Type 0 where
  isolate_munmap : ℕ → ℕ → ℕ → Action  -- `nvkvm_isolate_munmap`: isolate, address, length
  win_unplace : ℕ → ℕ → ℕ → Action
  restore_anon : ℕ → ℕ → Action  -- `nvkvm_window_restore_anon`
  delete_region : ℕ → Action  -- KVM_SET_USER_MEMORY_REGION with no memory
  slot_release : ℕ → Action  -- `nvkvm_kvm_slot_release`
  host_munmap : ℕ → ℕ → Action
  gpa_free : ℕ → ℕ → Action  -- `nvkvm_sparse_gpa_free`

-- A memory slot of the mapping's own, if the VM's file is open.
abbrev pub slot_actions : Bool → ℤ → List Action
slot_actions true (pos slot) = delete_region slot ∷ slot_release slot ∷ []
slot_actions true (negsuc n) = []
slot_actions false slot = []

-- NVKVM_IN_WINDOW_SLOT is -2.
abbrev pub is_in_window : ℤ → Bool
is_in_window (pos n) = false
is_in_window (negsuc n) = n == 1

abbrev pub host_side : Bool → Entry → List Action
host_side vm_open e =
    (if is_in_window e.kvm_slot
      then (if e.qva == 0 then [] else restore_anon e.qva e.len ∷ [])
      else slot_actions vm_open e.kvm_slot
        ++ (if e.qva == 0 then [] else host_munmap e.qva e.len ∷ []))
    ++ (if e.gpa == 0 then [] else gpa_free e.gpa e.len ∷ [])

abbrev pub isolate_side : Entry → List Action
isolate_side e =
    if e.stub_mirrored && not (e.stub_va == 0)
    then isolate_munmap e.isolate_id e.stub_va e.len ∷ win_unplace e.isolate_id e.stub_va e.len ∷ []
    else []

-- `nvkvm_req_munmap_on_isolate`
abbrev pub munmap_freed : Bool → Option Entry × IsoMmapTbl → Result (List Action) × IsoMmapTbl
munmap_freed vm_open (none, t) = (err enoent, t)
munmap_freed vm_open (some e, t) = (ok (isolate_side e ++ host_side vm_open e), t)

unfoldable pub munmap_on_isolate : Bool → IsoMmapTbl → ℕ → ℕ → Result (List Action) × IsoMmapTbl
munmap_on_isolate vm_open t isolate token =
    if isolate == 0 then (err einval, t) else munmap_freed vm_open (iso_mmap_free t token isolate)

-- An entry is detached.
abbrev pub detached : IsoMmapTbl → ℕ → IsoMmapTbl
detached t i = record t { entry = update t.entry i (record (t.entry i) { used = false }) }

-- What other threads make of the table while the lock is dropped, after index `i` was detached.
abbrev pub Others : Type 0
Others = ℕ → IsoMmapTbl → IsoMmapTbl

-- The loops of `nvkvm_iso_mmap_reap_isolate` and `nvkvm_iso_mmap_reap_handle`, over `k` entries from
-- index `i` on: the entries that they detach, in order. After each, the lock is dropped.
unfoldable pub reap : ℕ → ℕ → (Entry → Bool) → Others → IsoMmapTbl → List Entry × IsoMmapTbl
reap zero i matches others t = ([], t)
reap (suc k) i matches others t =
    let rest =
      reap k (suc i) matches others (if matches (t.entry i) then others i (detached t i) else t) in
    (if matches (t.entry i) then t.entry i ∷ rest.0 else rest.0, rest.1)

abbrev pub is_of_isolate : ℕ → Entry → Bool
is_of_isolate isolate e = e.used && e.isolate_id == isolate

abbrev pub is_of_handle : ℕ → ℕ → Entry → Bool
is_of_handle isolate handle e = e.used && e.isolate_id == isolate && e.handle_id == handle

abbrev pub host_sides : Bool → List Entry → List Action
host_sides vm_open [] = []
host_sides vm_open (e ∷ es) = host_side vm_open e ++ host_sides vm_open es

abbrev pub with_entries : Bool → List Entry × IsoMmapTbl → List Action × IsoMmapTbl
with_entries vm_open (es, t) = (host_sides vm_open es, t)

-- `nvkvm_iso_mmap_reap_isolate`, up to the call that forgets the window of the isolate.
unfoldable pub reap_isolate : Bool → Others → IsoMmapTbl → ℕ → List Action × IsoMmapTbl
reap_isolate vm_open others t isolate =
    with_entries vm_open (reap (iso_mmap_max - 1) 1 (is_of_isolate isolate) others t)

-- `nvkvm_iso_mmap_reap_handle`
unfoldable pub reap_handle : Bool → Others → IsoMmapTbl → ℕ → ℕ → List Action × IsoMmapTbl
reap_handle vm_open others t isolate handle =
    if handle == 0
    then ([], t)
    else with_entries vm_open (reap (iso_mmap_max - 1) 1 (is_of_handle isolate handle) others t)
