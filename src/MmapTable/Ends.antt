-- ===== src/MmapTable/Ends.antt =====
-- What the request for the end of a mapping does, and what is left when an isolate was reaped.
use nvkvm_pv.Base.{
  ℕ, zero, suc, ◌+◌, ◌-◌, ◌≤◌, ◌<◌, ◌≡◌, ◌≢◌, refl, Bool, true, false, none, some, ◌++◌, ◌==◌,
  arith, inl, inr, ◌⊎◌, Bool-cases, update, update_ne,
}
use nvkvm_pv.Base.Results.{ok, err, enoent}
use nvkvm_pv.MmapTable.Table.{Entry, IsoMmapTbl, iso_mmap_max, iso_mmap_free}
use nvkvm_pv.MmapTable.Tokens.{InRange, iso_mmap_free-cases}
use nvkvm_pv.MmapTable.Teardown.{
  host_side, isolate_side, munmap_freed, munmap_on_isolate, Others, detached, reap, is_of_isolate,
  reap_isolate,
}

-- A request for a token either finds no entry of the isolate's, and then does nothing and reports
-- ENOENT, or takes down what the entry records, inside and outside the isolate, and clears it; the
-- same token is refused to every isolate right after.
munmap_on_isolate_once :
    (vm_open : Bool) (t : IsoMmapTbl) (isolate token : ℕ)
    → isolate ≢ 0
    → ((munmap_on_isolate vm_open t isolate token ≡ (err enoent, t))
        × (InRange token → (t.entry token).used ≡ true → (t.entry token).isolate_id ≢ isolate))
      ⊎ (((t.entry token).used ≡ true)
          × ((t.entry token).isolate_id ≡ isolate)
          × ((munmap_on_isolate vm_open t isolate token).0
              ≡ ok (isolate_side (t.entry token) ++ host_side vm_open (t.entry token)))
          × ((i : ℕ)
              → i ≢ token
              → (munmap_on_isolate vm_open t isolate token).1.entry i ≡ t.entry i)
          × ((other : ℕ)
              → other ≢ 0
              → munmap_on_isolate vm_open (munmap_on_isolate vm_open t isolate token).1 other token
                ≡ (err enoent, (munmap_on_isolate vm_open t isolate token).1)))
unfolding munmap_on_isolate
munmap_on_isolate_once vm_open t isolate token z =
    let f : (isolate == 0) ≡ false = ground arith in
    rw f (cases (iso_mmap_free-cases t token isolate))
  where
    u : IsoMmapTbl
    u = record t { entry = update t.entry token (record (t.entry token) { used = false }) }

    again : (other : ℕ) → other ≢ 0 → munmap_on_isolate vm_open u other token ≡ (err enoent, u)
    again other o =
        let f : (other == 0) ≡ false = ground arith in
        rw f (elim (iso_mmap_free-cases u token other) [
          | inl (r, p, q, s, e) ↦ let x : false ≡ true = ground (arith, q) in cc
          | inr (e, r) ↦ rw e refl
        ])

    cases :
        (InRange token
            × (isolate ≢ 0)
            × ((t.entry token).used ≡ true)
            × ((t.entry token).isolate_id ≡ isolate)
            × (iso_mmap_free t token isolate ≡ (some (t.entry token), u)))
          ⊎ ((iso_mmap_free t token isolate ≡ (none, t))
              × (InRange token
                  → isolate ≢ 0
                  → (t.entry token).used ≡ true
                  → (t.entry token).isolate_id ≢ isolate))
        → ((munmap_freed vm_open (iso_mmap_free t token isolate) ≡ (err enoent, t))
            × (InRange token → (t.entry token).used ≡ true → (t.entry token).isolate_id ≢ isolate))
          ⊎ (((t.entry token).used ≡ true)
              × ((t.entry token).isolate_id ≡ isolate)
              × ((munmap_freed vm_open (iso_mmap_free t token isolate)).0
                  ≡ ok (isolate_side (t.entry token) ++ host_side vm_open (t.entry token)))
              × ((i : ℕ)
                  → i ≢ token
                  → (munmap_freed vm_open (iso_mmap_free t token isolate)).1.entry i ≡ t.entry i)
              × ((other : ℕ)
                  → other ≢ 0
                  → munmap_on_isolate vm_open
                      (munmap_freed vm_open (iso_mmap_free t token isolate)).1
                      other
                      token
                    ≡ (err enoent, (munmap_freed vm_open (iso_mmap_free t token isolate)).1)))
    cases (inr (e, r)) = rw e (inl (refl, λ x y. r x z y))
    cases (inl (r, p, q, s, e)) =
        rw e (inr (q, s, refl, λ i d. update_ne t.entry token _ i (λ x. d (omega arith)), again))

-- What other threads do meanwhile, such that they give the mapping's owner no new mapping.
abbrev pub AddsNone : (Entry → Bool) → Others → Type 0
AddsNone matches others =
    (k : ℕ) (t : IsoMmapTbl) (j : ℕ)
    → matches (t.entry j) ≡ false
    → matches ((others k t).entry j) ≡ false

reap_keeps :
    (k i : ℕ) (matches : Entry → Bool) (others : Others) (t : IsoMmapTbl) (j : ℕ)
    → AddsNone matches others
    → ((e : Entry) → matches (record e { used = false }) ≡ false)
    → matches (t.entry j) ≡ false
    → matches ((reap k i matches others t).1.entry j) ≡ false
unfolding reap
reap_keeps zero i matches others t j a c h = h
reap_keeps (suc k) i matches others t j a c h = elim (Bool-cases (matches (t.entry i))) [
  | inl b ↦ rw b (
      reap_keeps k (suc i) matches others _ j a c (
        a i (detached t i) j
          (elim (Bool-cases (i == j)) [ inl x ↦ rw x (c (t.entry i)) | inr x ↦ rw x h ])))
  | inr b ↦ rw b (reap_keeps k (suc i) matches others t j a c h)
]

reap_all :
    (k i : ℕ) (matches : Entry → Bool) (others : Others) (t : IsoMmapTbl) (j : ℕ)
    → AddsNone matches others
    → ((e : Entry) → matches (record e { used = false }) ≡ false)
    → i ≤ j
    → j < i + k
    → matches ((reap k i matches others t).1.entry j) ≡ false
unfolding reap
reap_all zero i matches others t j a c l m = absurd (omega arith)
reap_all (suc k) i matches others t j a c l m = elim (Bool-cases (i == j)) [
  | inl x ↦ elim (Bool-cases (matches (t.entry i))) [
    | inl b ↦
        rw b (
          reap_keeps k (suc i) matches others _ j a c (a i (detached t i) j (rw x (c (t.entry i)))))
    | inr b ↦
        let q : i ≡ j = ground arith in
        let r : matches (t.entry j) ≡ false = rw q at b in
        rw b (reap_keeps k (suc i) matches others t j a c r)
  ]
  | inr x ↦ elim (Bool-cases (matches (t.entry i))) [
    | inl b ↦ rw b (reap_all k (suc i) matches others _ j a c (ground arith) (omega arith))
    | inr b ↦ rw b (reap_all k (suc i) matches others t j a c (ground arith) (omega arith))
  ]
]

-- Where no other thread enters a mapping for an isolate while its mappings are reaped, none of
-- them is left in the table afterwards.
pub reap_isolate_none :
    (vm_open : Bool) (others : Others) (t : IsoMmapTbl) (isolate j : ℕ)
    → AddsNone (is_of_isolate isolate) others
    → InRange j
    → ((reap_isolate vm_open others t isolate).1.entry j).used ≡ true
    → ((reap_isolate vm_open others t isolate).1.entry j).isolate_id ≢ isolate
unfolding reap_isolate
reap_isolate_none vm_open others t isolate j a r u =
    let e =
      reap_all (iso_mmap_max - 1) 1 (is_of_isolate isolate) others t j a (λ x. refl) r.0
        (omega (arith, r)) in
    λ q. ground (arith, e, u, q)
