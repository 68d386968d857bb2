-- ===== src/Tables/HandleLaws.antt =====
-- The id of a new handle, and the wait of a close.
use nvkvm_pv.Base.{
  ℕ, zero, suc, ◌-◌, ◌≤◌, ◌<◌, ◌≡◌, ◌≢◌, refl, sym, subst, true, false, not, ◌||◌, Option, none,
  some, List, [], ◌∷◌, leb, ltb, ◌==◌, arith, inl, inr, ◌⊎◌, Bool-cases, Option-cases, ==-true,
  ==-refl,
}
use nvkvm_pv.Base.Results.{Result, ok, err, ebusy, enospc}
use nvkvm_pv.Tables.Ids.{search, id_pack, id_slot, after_gen}
use nvkvm_pv.Tables.Search.{search-some, search-none}
use nvkvm_pv.Tables.Handles.{
  Handles, max_handles, handle_used, take_handle, handle_alloc, handle_lookup, clear, abort,
  drain_refs, put_handle, release, unready, handle_close, close_found, drained,
}
use nvkvm_pv.Tables.HandleAlloc.{IsValid, Allocated, lookup_at, lookup_not, take-Allocated}

-- From a valid table, an allocation of a valid kind either reports that there is no space, with all
-- 4095 slots in use and nothing changed, or returns an id of a slot that was free: the id names that
-- slot, every other id names what it did, and the table stays valid.
pub handle_alloc_lem :
    (t : Handles) (kind : ℕ)
    → IsValid t
    → kind ≢ 0
    → let r = handle_alloc t kind in
      ((r ≡ (err enospc, t)) × ((s : ℕ) → 1 ≤ s → s < max_handles → (t.slots s).in_use ≡ true))
      ⊎ ((id : ℕ) × (r.0 ≡ ok id) × Allocated t id r.1)
unfolding handle_alloc take_handle
handle_alloc_lem t kind v n =
    let k : (kind == 0) ≡ false = ground arith in
    elim (Option-cases (search max_handles (handle_used t) t.next_slot 0 max_handles)) [
      | inl e ↦ inl (
        rw (k, e) refl,
        λ s a b. search-none max_handles (handle_used t) t.next_slot s e v.next.1 a b,
      )
      | inr (s, e) ↦
          let (a, b, c) =
            search-some max_handles (handle_used t) t.next_slot 0 max_handles s e (omega arith) in
          inr (
            id_pack (after_gen (t.generation s)) s,
            rw (k, e) refl,
            rw (k, e) (take-Allocated t kind s v (a, b) c),
          )
    ]

lookup-in_use :
    (t : Handles) (id s : ℕ)
    → handle_lookup t id ≡ some s
    → (id_slot id ≡ s)
      × (1 ≤ s)
      × (s < max_handles)
      × ((t.slots s).in_use ≡ true)
      × ((t.slots s).handle_id ≡ id)
unfolding handle_lookup
lookup-in_use t id s h = elim (Bool-cases (id_slot id == 0 || leb max_handles (id_slot id))) [
  | inl b ↦ let e : none ≡ some s = rw b at h in cc
  | inr b ↦
      elim (Bool-cases
        (not (t.slots (id_slot id)).in_use || not ((t.slots (id_slot id)).handle_id == id))) [
          | inl c ↦ let e : none ≡ some s = rw (b, c) at h in cc
          | inr c ↦
              let e : some (id_slot id) ≡ some s = rw (b, c) at h in
              let q : id_slot id ≡ s = cc in
              let g : ((t.slots (id_slot id)).in_use ≡ true)
                  × ((t.slots (id_slot id)).handle_id ≡ id) =
                (ground arith, ground arith) in
              let z : (1 ≤ id_slot id) × (id_slot id < max_handles) =
                (ground arith, ground arith) in
              subst
                (λ (x : ℕ).
                  (id_slot id ≡ x)
                  × (1 ≤ x)
                  × (x < max_handles)
                  × ((t.slots x).in_use ≡ true)
                  × ((t.slots x).handle_id ≡ id))
                q (refl, z.0, z.1, g.0, g.1)
        ]
]

pub drain_refs-some :
    (fs : List (Handles → Handles)) (t : Handles) (s : ℕ) (u : Handles)
    → drain_refs fs t s ≡ some u
    → (u.slots s).refcount ≡ 0
unfolding drain_refs
drain_refs-some [] t s u h = elim (Bool-cases ((t.slots s).refcount == 0)) [
  | inl b ↦
      let e : some t ≡ some u = rw b at h in
      let q : t ≡ u = cc in subst (λ (x : Handles). (x.slots s).refcount ≡ 0) q (==-true _ _ b)
  | inr b ↦ let e : none ≡ some u = rw b at h in cc
]
drain_refs-some (f ∷ fs) t s u h = elim (Bool-cases ((t.slots s).refcount == 0)) [
  | inl b ↦
      let e : some t ≡ some u = rw b at h in
      let q : t ≡ u = cc in subst (λ (x : Handles). (x.slots s).refcount ≡ 0) q (==-true _ _ b)
  | inr b ↦ drain_refs-some fs (f t) s u (rw b at h)
]

-- What a close that returned success did.
pub record Closed (fs : List (Handles → Handles)) (t : Handles) (mmaps links id : ℕ) (u : Handles)
    : Type 0 where
  pub unmapped : mmaps ≡ 0
  pub unlinked : links ≡ 0
  pub slot : ℕ
  pub named : handle_lookup t id ≡ some slot
  pub seen : Handles
  pub waited : drain_refs fs (unready t slot) slot ≡ some seen
  pub unreferenced : (seen.slots slot).refcount ≡ 0
  pub cleared : u ≡ clear seen slot
  pub gone : handle_lookup u id ≡ none

clear-lookup : (t : Handles) (id s : ℕ) → id_slot id ≡ s → handle_lookup (clear t s) id ≡ none
unfolding clear
clear-lookup t id s e = lookup_not (clear t s) id (inl (rw (e, ==-refl s) refl))

drained-Closed :
    (fs : List (Handles → Handles)) (t : Handles) (id s : ℕ) (u : Handles) (o : Option Handles)
    → handle_lookup t id ≡ some s
    → drain_refs fs (unready t s) s ≡ o
    → drained s o ≡ some (ok tt, u)
    → Closed fs t 0 0 id u
drained-Closed fs t id s u none l e h = cc
drained-Closed fs t id s u (some w) l e h =
    let q : clear w s ≡ u = cc in
    record {
      unmapped = refl;
      unlinked = refl;
      slot = s;
      named = l;
      seen = w;
      waited = e;
      unreferenced = drain_refs-some fs (unready t s) s w e;
      cleared = sym q;
      gone =
          subst (λ (x : Handles). handle_lookup x id ≡ none) q
            (clear-lookup w id s (lookup-in_use t id s l).0);
    }

found-Closed :
    (fs : List (Handles → Handles)) (t : Handles) (id : ℕ) (u : Handles) (o : Option ℕ)
    → handle_lookup t id ≡ o
    → close_found fs t o ≡ some (ok tt, u)
    → Closed fs t 0 0 id u
found-Closed fs t id u none l h = cc
found-Closed fs t id u (some s) l h =
    drained-Closed fs t id s u (drain_refs fs (unready t s) s) l refl h

busy_ne :
    (t u : Handles)
    → ◌≢◌ {A = Option (Result (Unit {0}) × Handles)} (some (err ebusy, t)) (some (ok tt, u))
busy_ne t u e = cc

-- A close that returns success was of a handle without mappings and links that the id named; it
-- cleared the state in which the last reference was gone, whatever other threads did while it
-- waited, and the id names nothing after it.
pub handle_close-Closed :
    (fs : List (Handles → Handles)) (t : Handles) (mmaps links id : ℕ) (u : Handles)
    → handle_close fs t mmaps links id ≡ some (ok tt, u)
    → Closed fs t mmaps links id u
unfolding handle_close
handle_close-Closed fs t zero zero id u h = found-Closed fs t id u (handle_lookup t id) refl h
handle_close-Closed fs t zero (suc l) id u h =
    let b : ltb 0 (suc l) ≡ true = ground arith in
    let e : some (err ebusy, t) ≡ some (ok tt, u) = rw b at h in absurd (busy_ne t u e)
handle_close-Closed fs t (suc m) links id u h =
    let b : ltb 0 (suc m) ≡ true = ground arith in
    let e : some (err ebusy, t) ≡ some (ok tt, u) = rw b at h in absurd (busy_ne t u e)

release_lem :
    (t : Handles) (id s : ℕ)
    → handle_lookup t id ≡ some s
    → (handle_lookup (release t id) id ≡ some s)
      × (((release t id).slots s).refcount ≡ (t.slots s).refcount - 1)
unfolding release
release_lem t id s l =
    let (a, b, c, d, e) = lookup-in_use t id s l in
    rw l (elim (Bool-cases ((t.slots s).refcount == 0)) [
      | inl z ↦ rw z (l, ground arith)
      | inr z ↦ rw z (
        lookup_at (put_handle t s (record (t.slots s) { refcount = (t.slots s).refcount - 1 })) id s
            a b c (ground arith) (ground arith),
        ground arith,
      )
    ])

-- Other threads that release a handle `n` times.
abbrev pub releases : ℕ → ℕ → List (Handles → Handles)
releases zero id = []
releases (suc n) id = (λ t. release t id) ∷ releases n id

drain_refs-releases :
    (n : ℕ) (t : Handles) (id s : ℕ)
    → handle_lookup t id ≡ some s
    → (((t.slots s).refcount ≤ n) × (u : Handles) × (drain_refs (releases n id) t s ≡ some u))
      ⊎ ((n < (t.slots s).refcount) × (drain_refs (releases n id) t s ≡ none))
unfolding drain_refs
drain_refs-releases zero t id s l = elim (Bool-cases ((t.slots s).refcount == 0)) [
  | inl b ↦ inl (ground arith, t, rw b refl)
  | inr b ↦ inr (ground arith, rw b refl)
]
drain_refs-releases (suc n) t id s l = elim (Bool-cases ((t.slots s).refcount == 0)) [
  | inl b ↦ inl (ground arith, t, rw b refl)
  | inr b ↦
      let (k, r) = release_lem t id s l in
      elim (drain_refs-releases n (release t id) id s k) [
        | inl (m, u, e) ↦ inl (ground arith, u, rw b e)
        | inr (m, e) ↦ inr (ground arith, rw b e)
      ]
]

-- A close of a handle that the id names, without mappings and links, while other threads release
-- it `n` times and do nothing else: it returns success, and the id names nothing afterwards, if
-- there are at most `n` references; with more references it waits still.
pub handle_close-releases :
    (n : ℕ) (t : Handles) (id s : ℕ)
    → handle_lookup t id ≡ some s
    → (((t.slots s).refcount ≤ n)
        × (u : Handles) × (handle_close (releases n id) t 0 0 id ≡ some (ok tt, u))
        × (handle_lookup u id ≡ none))
      ⊎ ((n < (t.slots s).refcount) × (handle_close (releases n id) t 0 0 id ≡ none))
unfolding handle_close
handle_close-releases n t id s l =
    let (a, b, c, d, e) = lookup-in_use t id s l in
    let k : handle_lookup (unready t s) id ≡ some s =
      lookup_at (unready t s) id s a b c (ground arith) (ground arith) in
    let i : ((unready t s).slots s).refcount ≡ (t.slots s).refcount = ground arith in
    elim (drain_refs-releases n (unready t s) id s k) [
      | inl (m, u, f) ↦
          let g : handle_close (releases n id) t 0 0 id ≡ some (ok tt, clear u s) =
            rw (l, f) refl in
          inl (
            omega (arith, i),
            clear u s,
            g,
            (handle_close-Closed (releases n id) t 0 0 id (clear u s) g).gone,
          )
      | inr (m, f) ↦ inr (omega (arith, i), rw (l, f) refl)
    ]

-- While a close waits for the references of a ready handle, an abort of its open succeeds and frees
-- the slot although there are references.
pub abort_closing :
    (t : Handles) (id s : ℕ)
    → handle_lookup t id ≡ some s
    → 1 ≤ (t.slots s).refcount
    → ((((unready t s).slots s).refcount ≡ (t.slots s).refcount)
        × ((abort (unready t s) id).0 ≡ ok tt)
        × (((abort (unready t s) id).1.slots s).in_use ≡ false))
unfolding abort clear
abort_closing t id s l r =
    let (a, b, c, d, e) = lookup-in_use t id s l in
    let k : handle_lookup (unready t s) id ≡ some s =
      lookup_at (unready t s) id s a b c (ground arith) (ground arith) in
    rw k (ground arith)
