-- ===== src/MmapTable/Examples.antt =====
-- Concrete tables of mappings.
use nvkvm_pv.Base.{ap, ℕ, ◌+◌, ◌-◌, ◌^◌, ◌<◌, ◌≡◌, ◌≢◌, refl, true, false, ◌⊎◌, arith, update}
use nvkvm_pv.KvmSlot.{negsuc}
use nvkvm_pv.MmapTable.Table.{Entry, IsoMmapTbl, iso_mmap_max, iso_mmap_alloc, iso_mmap_free}
use nvkvm_pv.MmapTable.Translate.{find_hit, walk, Walk, iso_mmap_translate}
use nvkvm_pv.MmapTable.Teardown.{
  munmap_on_isolate, is_of_isolate, is_of_handle, host_sides, reap_isolate, reap_handle, detached,
}
use nvkvm_pv.MmapTable.Translation.{IsSized, Stands, Covered, iso_mmap_translate-Covered}
use nvkvm_pv.MmapTable.Exact.{Disjoint, iso_mmap_translate-Maps, iso_mmap_translate-ne-spent}
use nvkvm_pv.MmapTable.Tokens.{InRange, Takes, iso_mmap_alloc-Takes}
use nvkvm_pv.MmapTable.Ends.{reap_isolate_none}
use nvkvm_pv.MmapTable.Others.{
  quiet, entries_with, reap_lem, munmap, reap_entry, Reach, here, next, reap-Reach, Reach-same,
}

abbrev entry_of : ℕ → ℕ → ℕ → ℕ → Entry
entry_of isolate gva stub_va gpa = record {
  used = true;
  stub_mirrored = true;
  isolate_id = isolate;
  gva = gva;
  stub_va = stub_va;
  qva = 0;
  len = 8192;
  kvm_slot = negsuc 1;
  gpa = gpa;
  handle_id = 5;
}

abbrev no_entry : Entry
no_entry = record {
  used = false;
  stub_mirrored = false;
  isolate_id = 0;
  gva = 0;
  stub_va = 0;
  qva = 0;
  len = 0;
  kvm_slot = negsuc 0;
  gpa = 0;
  handle_id = 0;
}

abbrev first_chunk : Entry
first_chunk = entry_of 7 65536 1048576 4096

abbrev second_chunk : Entry
second_chunk = entry_of 7 73728 1056768 12288

-- Two chunks of isolate 7 that follow one another, as entries 1 and 2.
abbrev chunks : IsoMmapTbl
chunks = record { entry = update (update (λ _. no_entry) 1 first_chunk) 2 second_chunk; seq = 3 }

chunks-IsSized : IsSized chunks.entry
chunks-IsSized i = ground arith

chunks-Disjoint : Disjoint chunks.entry 7
chunks-Disjoint i j d u v = ground arith

translated : iso_mmap_translate chunks 7 69632 8192 ≡ Walk.found 1052672
unfolding iso_mmap_translate find_hit walk
translated = refl

iso_mmap_translate-Covered_example :
    (69632 + 8192 < 2 ^ 64) × Covered chunks.entry 7 69632 1052672 8192
iso_mmap_translate-Covered_example =
    iso_mmap_translate-Covered chunks 7 69632 8192 1052672 (omega arith) (omega arith)
      chunks-IsSized translated

iso_mmap_translate-Maps_example : Stands chunks.entry 7 (69632 + 5000) (1052672 + 5000)
iso_mmap_translate-Maps_example =
    iso_mmap_translate-Maps chunks 7 69632 8192 1052672 (omega arith) (omega arith) chunks-IsSized
      chunks-Disjoint translated 5000 (omega arith)

iso_mmap_translate-ne-spent_example : iso_mmap_translate chunks 7 69632 8192 ≢ Walk.spent
iso_mmap_translate-ne-spent_example = iso_mmap_translate-ne-spent chunks 7 69632 8192 chunks-IsSized

abbrev third_chunk : Entry
third_chunk = entry_of 8 65536 2097152 20480

iso_mmap_alloc-Takes_example :
    (((iso_mmap_alloc chunks third_chunk).0 ≡ 0)
      × ((iso_mmap_alloc chunks third_chunk).1.entry ≡ chunks.entry)
      × InRange (iso_mmap_alloc chunks third_chunk).1.seq
      × ((i : ℕ) → InRange i → (chunks.entry i).used ≡ true))
    ⊎ Takes chunks third_chunk (iso_mmap_alloc chunks third_chunk)
iso_mmap_alloc-Takes_example = iso_mmap_alloc-Takes chunks third_chunk (omega arith, omega arith)

-- Isolate 8 has a mapping made, a request that names isolate 9 asks for the end of the first entry,
-- and a loop reaps the entry of isolate 8.
abbrev with_third : IsoMmapTbl
with_third = record chunks { entry = update chunks.entry 3 third_chunk }

abbrev asked : IsoMmapTbl
asked = (munmap_on_isolate true with_third 9 1).1

abbrev after_others : IsoMmapTbl
after_others = detached asked 3

others-Reach : Reach 7 with_third after_others
unfolding munmap_on_isolate iso_mmap_free
others-Reach = next (next here (munmap true 9 1 (omega arith))) (reap_entry 3 8 (omega arith) refl)

Reach-same_example : InRange after_others.seq × (after_others.entry 1 ≡ chunks.entry 1)
Reach-same_example = Reach-same 7 1 others-Reach (omega arith, omega arith) refl

third_stays : ((reap_isolate true quiet with_third 7).1.entry 3).used ≡ true
unfolding reap_isolate
third_stays =
    let (r, e) =
      Reach-same 8 3
        (reap-Reach 8 (iso_mmap_max - 1) 1 7 (is_of_isolate 7) quiet with_third (omega arith)
          (λ e h. h) (λ j u. here))
        (omega arith, omega arith) refl in
    ap (λ (x : Entry). x.used) e

reap_isolate_none_example : ((reap_isolate true quiet with_third 7).1.entry 3).isolate_id ≢ 7
reap_isolate_none_example =
    reap_isolate_none true quiet with_third 7 3 (λ k entry j h. h) (omega arith, omega arith)
      third_stays

reap_lem_example :
    ((reap_isolate true quiet chunks 7).0
      ≡ host_sides true (entries_with (is_of_isolate 7) (iso_mmap_max - 1) 1 chunks.entry))
    × ((reap_handle true quiet chunks 7 5).0
        ≡ host_sides true (entries_with (is_of_handle 7 5) (iso_mmap_max - 1) 1 chunks.entry))
reap_lem_example = reap_lem true chunks 7 5 (omega arith)
