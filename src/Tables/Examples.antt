-- ===== src/Tables/Examples.antt =====
-- The tables at concrete inputs.
use nvkvm_pv.Base.{
  All, ◌≢◌, ℕ, ◌≤◌, ◌<◌, ◌≡◌, ◌⊎◌, refl, true, false, none, some, List, [], ◌∷◌, arith, update,
  Option,
}
use nvkvm_pv.Base.Results.{ok, err, eexist, enospc}
use nvkvm_pv.Tables.Handles.{
  Handles, max_handles, handles_init, no_handle, handle_alloc, handle_lookup, handle_close,
}
use nvkvm_pv.Tables.HandleAlloc.{Allocated, handles_init-IsValid}
use nvkvm_pv.Tables.HandleLaws.{handle_alloc_lem, releases, handle_close-releases}
use nvkvm_pv.Tables.Links.{Link, linked, link}
use nvkvm_pv.Tables.LinkCounts.{IsValid}
use nvkvm_pv.Tables.LinkLaws.{Links, link-Links}

handle_alloc_lem_example :
    let r = handle_alloc handles_init 1 in
    ((r ≡ (err enospc, handles_init))
      × ((s : ℕ) → 1 ≤ s → s < max_handles → (handles_init.slots s).in_use ≡ true))
    ⊎ ((id : ℕ) × (r.0 ≡ ok id) × Allocated handles_init id r.1)
handle_alloc_lem_example = handle_alloc_lem handles_init 1 handles_init-IsValid (omega arith)

-- Slot 1 in its first generation with so many references.
abbrev with_refs : ℕ → Handles
with_refs n = record handles_init {
  slots =
      update handles_init.slots 1 (record no_handle {
        in_use = true;
        handle_id = 4097;
        kind = 1;
        ready = true;
        refcount = n;
      });
}

handle_close-releases_example :
    ((((with_refs 2).slots 1).refcount ≤ 2)
      × (u : Handles) × (handle_close (releases 2 4097) (with_refs 2) 0 0 4097 ≡ some (ok tt, u))
      × (handle_lookup u 4097 ≡ none))
    ⊎ ((2 < ((with_refs 2).slots 1).refcount)
        × (handle_close (releases 2 4097) (with_refs 2) 0 0 4097 ≡ none))
unfolding handle_lookup
handle_close-releases_example = handle_close-releases 2 (with_refs 2) 4097 1 refl

abbrev free_links : List (Option Link)
free_links = none ∷ none ∷ []

free_links-IsValid : IsValid free_links
free_links-IsValid i h = omega arith

link-Links_example :
    ((linked 1 2 free_links ≡ true) × (link free_links 1 2 (some 9) ≡ (err eexist, free_links)))
    ⊎ ((linked 1 2 free_links ≡ false)
        × All (λ e. e ≢ none) free_links
        × (link free_links 1 2 (some 9) ≡ (err enospc, free_links)))
    ⊎ ((us : List (Option Link)) × (link free_links 1 2 (some 9) ≡ (ok tt, us))
        × Links free_links 1 2 9 us)
link-Links_example = link-Links free_links 1 2 9 free_links-IsValid
