-- ===== src/MmapTable/Others.antt =====
-- The mappings of an isolate while others come and go, and what the end of one detaches.
use nvkvm_pv.Base.{
  ℕ, zero, suc, ◌-◌, ◌<◌, ◌≡◌, ◌≢◌, refl, ap, ◌∙◌, Bool, true, false, List, [], ◌∷◌, ◌==◌, arith,
  inl, inr, ◌⊎◌, Bool-cases, update, update_ne,
}
use nvkvm_pv.MmapTable.Table.{Entry, IsoMmapTbl, iso_mmap_max, iso_mmap_alloc}
use nvkvm_pv.MmapTable.Tokens.{InRange, Takes, iso_mmap_alloc-Takes, iso_mmap_free-cases}
use nvkvm_pv.MmapTable.Teardown.{
  munmap_on_isolate, Others, detached, reap, is_of_isolate, is_of_handle, host_sides, reap_isolate,
  reap_handle,
}

-- Entries `i` to `i + k - 1` of which a test holds.
abbrev pub keep_if : Bool → Entry → List Entry → List Entry
keep_if true e es = e ∷ es
keep_if false e es = es

abbrev pub entries_with : (Entry → Bool) → ℕ → ℕ → (ℕ → Entry) → List Entry
entries_with matches zero i entry = []
entries_with matches (suc k) i entry =
    keep_if (matches (entry i)) (entry i) (entries_with matches k (suc i) entry)

entries_with-update :
    (matches : Entry → Bool) (k i j : ℕ) (entry : ℕ → Entry) (e : Entry)
    → j < i
    → entries_with matches k i (update entry j e) ≡ entries_with matches k i entry
entries_with-update matches zero i j entry e l = refl
entries_with-update matches (suc k) i j entry e l =
    let s : update entry j e i ≡ entry i = update_ne entry j e i (λ q. absurd (omega arith)) in
    let ih = entries_with-update matches k (suc i) j entry e (omega arith) in rw (s, ih) refl

-- No other thread does anything.
abbrev pub quiet : Others
quiet k t = t

reap-quiet :
    (k i : ℕ) (matches : Entry → Bool) (t : IsoMmapTbl)
    → (reap k i matches quiet t).0 ≡ entries_with matches k i t.entry
unfolding reap
reap-quiet zero i matches t = refl
reap-quiet (suc k) i matches t = elim (Bool-cases (matches (t.entry i))) [
  | inl b ↦
      let ih = reap-quiet k (suc i) matches (detached t i) in
      let s =
        entries_with-update matches k (suc i) i t.entry (record (t.entry i) { used = false })
          (omega arith) in
      rw (b, ih, s) refl
  | inr b ↦ let ih = reap-quiet k (suc i) matches t in rw (b, ih) refl
]

-- Undisturbed, the end of an isolate takes down outside it what each of its entries records, once
-- each and in the order of the table, and the end of a handle that is not 0 the same for the
-- entries of the handle in one isolate.
pub reap_lem :
    (vm_open : Bool) (t : IsoMmapTbl) (isolate handle : ℕ)
    → handle ≢ 0
    → ((reap_isolate vm_open quiet t isolate).0
        ≡ host_sides vm_open (entries_with (is_of_isolate isolate) (iso_mmap_max - 1) 1 t.entry))
      × ((reap_handle vm_open quiet t isolate handle).0
          ≡ host_sides vm_open
              (entries_with (is_of_handle isolate handle) (iso_mmap_max - 1) 1 t.entry))
unfolding reap_isolate reap_handle
reap_lem vm_open t isolate handle z =
    let f : (handle == 0) ≡ false = ground arith in
    (
      ap (host_sides vm_open) (reap-quiet (iso_mmap_max - 1) 1 (is_of_isolate isolate) t),
      rw f (
          ap (host_sides vm_open)
            (reap-quiet (iso_mmap_max - 1) 1 (is_of_handle isolate handle) t)),
    )

-- One locked part of a call: a new mapping for anyone, a request for the end of one that names
-- another isolate than `own`, or a round of a loop that reaps the mappings of another isolate or of
-- a handle in it.
pub data Step (own : ℕ) (t : IsoMmapTbl) : IsoMmapTbl → Type 0 where
  alloc : (e : Entry) → Step own t (iso_mmap_alloc t e).1
  munmap :
      (vm_open : Bool) (isolate token : ℕ)
      → isolate ≢ own
      → Step own t (munmap_on_isolate vm_open t isolate token).1
  reap_entry :
      (i isolate : ℕ)
      → isolate ≢ own
      → is_of_isolate isolate (t.entry i) ≡ true
      → Step own t (detached t i)

pub data Reach (own : ℕ) (t : IsoMmapTbl) : IsoMmapTbl → Type 0 where
  here : Reach own t t
  next : {u v : IsoMmapTbl} → Reach own t u → Step own u v → Reach own t v

Reach-trans : (own : ℕ) {t u v : IsoMmapTbl} → Reach own t u → Reach own u v → Reach own t v
Reach-trans own p here = p
Reach-trans own p (next q s) = next (Reach-trans own p q) s

-- The loops are made of such rounds and of what other threads do in between.
pub reap-Reach :
    (own k i isolate : ℕ) (matches : Entry → Bool) (others : Others) (t : IsoMmapTbl)
    → isolate ≢ own
    → ((e : Entry) → matches e ≡ true → is_of_isolate isolate e ≡ true)
    → ((j : ℕ) (u : IsoMmapTbl) → Reach own u (others j u))
    → Reach own t (reap k i matches others t).1
unfolding reap
reap-Reach own zero i isolate matches others t d m o = here
reap-Reach own (suc k) i isolate matches others t d m o = elim (Bool-cases (matches (t.entry i))) [
  | inl b ↦
      let p : Reach own t (detached t i) = next here (reap_entry i isolate d (m (t.entry i) b)) in
      rw b (
        Reach-trans own (Reach-trans own p (o i (detached t i)))
          (reap-Reach own k (suc i) isolate matches others _ d m o))
  | inr b ↦ rw b (reap-Reach own k (suc i) isolate matches others t d m o)
]

-- What holds of an entry of isolate `own` from step to step.
abbrev Keeps : ℕ → ℕ → IsoMmapTbl → IsoMmapTbl → Type 0
Keeps own j t u = InRange u.seq × (u.entry j ≡ t.entry j)

Step-Keeps :
    (own j : ℕ) {t u : IsoMmapTbl}
    → Step own t u
    → InRange t.seq
    → is_of_isolate own (t.entry j) ≡ true
    → Keeps own j t u
unfolding munmap_on_isolate
Step-Keeps own j {t} (alloc e) r o = taken (iso_mmap_alloc-Takes t e r)
  where
    taken :
        (((iso_mmap_alloc t e).0 ≡ 0)
            × ((iso_mmap_alloc t e).1.entry ≡ t.entry)
            × InRange (iso_mmap_alloc t e).1.seq
            × ((i : ℕ) → InRange i → (t.entry i).used ≡ true))
          ⊎ Takes t e (iso_mmap_alloc t e)
        → Keeps own j t (iso_mmap_alloc t e).1
    taken (inl (a, b, c, d)) = (c, ap (λ (f : ℕ → Entry). f j) b)
    taken (inr p) =
        (p.seq, p.same j (λ q. let x : (t.entry j).used ≡ false = rw q p.unused in ground arith))
Step-Keeps own j {t} (munmap vm_open isolate token d) r o = elim (Bool-cases (isolate == 0)) [
  | inl b ↦ rw b (r, refl)
  | inr b ↦ rw b (elim (iso_mmap_free-cases t token isolate) [
    | inl (x, y, z, w, e) ↦ rw e (
      r,
      update_ne t.entry token _ j
          (λ q. let v : (t.entry j).isolate_id ≡ isolate = rw q at w in d (ground arith)),
    )
    | inr (e, x) ↦ rw e (r, refl)
  ])
]
Step-Keeps own j {t} (reap_entry i isolate d m) r o = (
  r,
  update_ne t.entry i _ j
      (λ q. let v : is_of_isolate isolate (t.entry j) ≡ true = rw q at m in d (ground arith)),
)

-- From a table whose next token is in range, over any interleaving of new mappings for anyone, of
-- requests that name other isolates, and of the rounds of the loops that reap the mappings of other
-- isolates and of handles in them, an entry that is in use for an isolate stays as it is.
pub Reach-same :
    (own j : ℕ) {t u : IsoMmapTbl}
    → Reach own t u
    → InRange t.seq
    → is_of_isolate own (t.entry j) ≡ true
    → InRange u.seq × (u.entry j ≡ t.entry j)
Reach-same own j here r o = (r, refl)
Reach-same own j (next p s) r o =
    let (x, y) = Reach-same own j p r o in let (a, b) = Step-Keeps own j s x (rw y o) in (a, b ∙ y)
