-- ===== src/MmapTable/Tokens.antt =====
-- What the calls that make and free a token do to the table.
use nvkvm_pv.Base.{
  ℕ, zero, suc, ◌+◌, ◌-◌, ◌%◌, ◌≤◌, ◌<◌, ◌≡◌, ◌≢◌, refl, true, false, not, ◌||◌, none, some, leb,
  ◌==◌, arith, inl, inr, ◌⊎◌, Bool-cases, update,
}
use nvkvm_pv.MmapTable.Table.{
  Entry, IsoMmapTbl, iso_mmap_max, alloc_from, iso_mmap_alloc, iso_mmap_free,
}

abbrev pub InRange : ℕ → Type 0
InRange token = (1 ≤ token) × (token < iso_mmap_max)

-- The entry `tok` was not used and is now the new one, and the others are as they were.
pub record Takes (t : IsoMmapTbl) (e : Entry) (r : ℕ × IsoMmapTbl) : Type 0 where
  pub range : InRange r.0
  pub unused : (t.entry r.0).used ≡ false
  pub now : r.1.entry r.0 ≡ record e { used = true }
  pub same : (j : ℕ) → j ≢ r.0 → r.1.entry j ≡ t.entry j
  pub seq : InRange r.1.seq

-- The entry that round `j` looks at.
abbrev turn : ℕ → ℕ → ℕ
turn seq j = (seq - 1 + j) % (iso_mmap_max - 1) + 1

alloc_from-Takes :
    (k : ℕ) (t : IsoMmapTbl) (e : Entry)
    → InRange t.seq
    → (((alloc_from k t e).0 ≡ 0)
        × ((alloc_from k t e).1.entry ≡ t.entry)
        × InRange (alloc_from k t e).1.seq
        × ((j : ℕ) → j < k → (t.entry (turn t.seq j)).used ≡ true))
      ⊎ Takes t e (alloc_from k t e)
unfolding alloc_from
alloc_from-Takes zero t e r = inl (refl, refl, r, λ j h. absurd (omega arith))
alloc_from-Takes (suc k) t e r = elim (Bool-cases (t.entry t.seq).used) [
  | inl u ↦ rw u (later u (alloc_from-Takes k t' e (omega (arith, r))))
  | inr u ↦ rw u (
      inr (record {
        range = r;
        unused = u;
        now = ground arith;
        same = λ j d. ground arith;
        seq = omega (arith, r);
      }))
]
  where
    t' : IsoMmapTbl
    t' = record t { seq = t.seq % (iso_mmap_max - 1) + 1 }

    turns :
        (t.entry t.seq).used ≡ true
        → ((j : ℕ) → j < k → (t.entry (turn t'.seq j)).used ≡ true)
        → (j : ℕ) → j < suc k
        → (t.entry (turn t.seq j)).used ≡ true
    turns u d zero h = let q : turn t.seq 0 ≡ t.seq = omega (arith, r) in rw q u
    turns u d (suc j) h =
        let q : turn t.seq (suc j) ≡ turn t'.seq j = omega (arith, r) in rw q (d j (omega arith))

    later :
        (t.entry t.seq).used ≡ true
        → (((alloc_from k t' e).0 ≡ 0)
            × ((alloc_from k t' e).1.entry ≡ t.entry)
            × InRange (alloc_from k t' e).1.seq
            × ((j : ℕ) → j < k → (t.entry (turn t'.seq j)).used ≡ true))
          ⊎ Takes t' e (alloc_from k t' e)
        → (((alloc_from k t' e).0 ≡ 0)
            × ((alloc_from k t' e).1.entry ≡ t.entry)
            × InRange (alloc_from k t' e).1.seq
            × ((j : ℕ) → j < suc k → (t.entry (turn t.seq j)).used ≡ true))
          ⊎ Takes t e (alloc_from k t' e)
    later u (inr p) =
        inr (record { range = p.range; unused = p.unused; now = p.now; same = p.same; seq = p.seq })
    later u (inl (a, b, c, d)) = inl (a, b, c, turns u d)

-- While the next token is in range, a call either makes one of an entry that was not used, and
-- changes no other entry, or returns 0 and changes none, when each entry but that of index 0 is
-- used.
pub iso_mmap_alloc-Takes :
    (t : IsoMmapTbl) (e : Entry)
    → InRange t.seq
    → (((iso_mmap_alloc t e).0 ≡ 0)
        × ((iso_mmap_alloc t e).1.entry ≡ t.entry)
        × InRange (iso_mmap_alloc t e).1.seq
        × ((i : ℕ) → InRange i → (t.entry i).used ≡ true))
      ⊎ Takes t e (iso_mmap_alloc t e)
unfolding iso_mmap_alloc
iso_mmap_alloc-Takes t e r = all_turns (alloc_from-Takes (iso_mmap_max - 1) t e r)
  where
    all_turns :
        (((alloc_from (iso_mmap_max - 1) t e).0 ≡ 0)
            × ((alloc_from (iso_mmap_max - 1) t e).1.entry ≡ t.entry)
            × InRange (alloc_from (iso_mmap_max - 1) t e).1.seq
            × ((j : ℕ) → j < iso_mmap_max - 1 → (t.entry (turn t.seq j)).used ≡ true))
          ⊎ Takes t e (alloc_from (iso_mmap_max - 1) t e)
        → (((alloc_from (iso_mmap_max - 1) t e).0 ≡ 0)
            × ((alloc_from (iso_mmap_max - 1) t e).1.entry ≡ t.entry)
            × InRange (alloc_from (iso_mmap_max - 1) t e).1.seq
            × ((i : ℕ) → InRange i → (t.entry i).used ≡ true))
          ⊎ Takes t e (alloc_from (iso_mmap_max - 1) t e)
    all_turns (inr p) = inr p
    all_turns (inl (a, b, c, d)) = inl (
      a,
      b,
      c,
      λ i h.
          let q : turn t.seq ((i + (iso_mmap_max - 1) - t.seq) % (iso_mmap_max - 1)) ≡ i =
            omega (arith, r, h) in
          let u = d ((i + (iso_mmap_max - 1) - t.seq) % (iso_mmap_max - 1)) (omega arith) in
          rw q at u,
    )

-- A token in range names an entry of the isolate, which is then detached, or the call changes
-- nothing.
pub iso_mmap_free-cases :
    (t : IsoMmapTbl) (token owner : ℕ)
    → (InRange token
        × (owner ≢ 0)
        × ((t.entry token).used ≡ true)
        × ((t.entry token).isolate_id ≡ owner)
        × (iso_mmap_free t token owner ≡ (
          some (t.entry token),
          record t { entry = update t.entry token (record (t.entry token) { used = false }) },
        )))
      ⊎ ((iso_mmap_free t token owner ≡ (none, t))
          × (InRange token
              → owner ≢ 0
              → (t.entry token).used ≡ true
              → (t.entry token).isolate_id ≢ owner))
unfolding iso_mmap_free
iso_mmap_free-cases t token owner =
    elim (Bool-cases (token == 0 || leb iso_mmap_max token || owner == 0)) [
      | inl b ↦ inr (rw b refl, λ r o u. absurd (ground arith))
      | inr b ↦
          elim (Bool-cases
            (not (t.entry token).used || not ((t.entry token).isolate_id == owner))) [
              | inl c ↦ inr (rw (b, c) refl, λ r o u q. ground arith)
              | inr c ↦ inl (
                (ground arith, ground arith),
                ground arith,
                ground arith,
                ground arith,
                rw (b, c) refl,
              )
            ]
    ]
