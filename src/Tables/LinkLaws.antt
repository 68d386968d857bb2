-- ===== src/Tables/LinkLaws.antt =====
-- The links as a map from pairs of an isolate and a handle to descriptors.
use nvkvm_pv.Base.{
  ℕ, suc, ◌+◌, ◌≤◌, ◌≡◌, ◌≢◌, All, refl, ◌∙◌, subst, true, false, ◌&&◌, Option, none, some, List,
  [], ◌∷◌, if◌then◌else◌, ◌==◌, arith, inl, inr, ◌⊎◌, Bool-cases, Option-cases, ==-refl, total,
}
use nvkvm_pv.Base.Results.{ok, err, eexist, enoent, enospc}
use nvkvm_pv.Tables.Links.{
  Link, is_link, linked, fill_first, link, unlink, lookup_fd, of_handle, count_for_handle,
}
use nvkvm_pv.Tables.LinkCounts.{
  times, IsValid, linked-times, lookup_fd-none, count-total, fill_first-total, fill_first-lookup,
  fill_first-new, fill_first-none,
}

-- What a link that succeeded did.
pub record Links (es : List (Option Link)) (iso hnd fd : ℕ) (us : List (Option Link)) : Type 0 where
  pub found : lookup_fd us iso hnd ≡ ok fd
  pub others :
      (i h : ℕ)
      → is_link i h (some (record { isolate_id = iso; handle_id = hnd; fd_on_isolate = fd }))
        ≡ false
      → lookup_fd us i h ≡ lookup_fd es i h
  pub counted : count_for_handle us hnd ≡ suc (count_for_handle es hnd)
  pub valid : IsValid us

filled-Links :
    (es : List (Option Link)) (iso hnd fd : ℕ) (us : List (Option Link))
    → IsValid es
    → linked iso hnd es ≡ false
    → fill_first (record { isolate_id = iso; handle_id = hnd; fd_on_isolate = fd }) es ≡ some us
    → Links es iso hnd fd us
filled-Links es iso hnd fd us v n e =
    let l : Link = record { isolate_id = iso; handle_id = hnd; fd_on_isolate = fd } in
    let z = linked-times iso hnd es n in
    record {
      found = fill_first-new l es us e z;
      others = λ i h m. fill_first-lookup i h l es us e m;
      counted =
          rw (count-total us hnd, count-total es hnd)
            (fill_first-total (of_handle hnd) l es us refl e ∙ rw (==-refl hnd) (omega arith));
      valid =
          λ i h. once i h (fill_first-total (λ x. if is_link i h x then 1 else 0) l es us refl e);
    }
  where
    once :
        (i h : ℕ)
        → (times i h us
            ≡ (if is_link i h
                  (some (record { isolate_id = iso; handle_id = hnd; fd_on_isolate = fd }))
                then 1
                else 0)
              + times i h es)
        → times i h us ≤ 1
    once i h q = elim (Bool-cases (iso == i && hnd == h)) [
      | inl b ↦
          let p : (iso ≡ i) × (hnd ≡ h) = (ground arith, ground arith) in
          let z : times i h es ≡ 0 =
            subst (λ (x : ℕ). times x h es ≡ 0) p.0
              (subst (λ (y : ℕ). times iso y es ≡ 0) p.1 (linked-times iso hnd es n)) in
          ground arith
      | inr b ↦ ground (arith, v i h)
    ]

-- In entries that link no pair twice, a link of a pair with a descriptor is refused without a change
-- if the pair is linked already, or if every entry is in use; otherwise the pair is found with that
-- descriptor, every other pair with what it had, the handle has one link more, and still no pair is
-- linked twice.
pub link-Links :
    (es : List (Option Link)) (iso hnd fd : ℕ)
    → IsValid es
    → ((linked iso hnd es ≡ true) × (link es iso hnd (some fd) ≡ (err eexist, es)))
      ⊎ ((linked iso hnd es ≡ false)
          × All (λ e. e ≢ none) es
          × (link es iso hnd (some fd) ≡ (err enospc, es)))
      ⊎ ((us : List (Option Link)) × (link es iso hnd (some fd) ≡ (ok tt, us))
          × Links es iso hnd fd us)
unfolding link
link-Links es iso hnd fd v = elim (Bool-cases (linked iso hnd es)) [
  | inl b ↦ inl (b, rw b refl)
  | inr b ↦
      let l : Link = record { isolate_id = iso; handle_id = hnd; fd_on_isolate = fd } in
      elim (Option-cases (fill_first l es)) [
        | inl e ↦ inr (inl (b, fill_first-none l es e, rw (b, e) refl))
        | inr (us, e) ↦ inr (inr (us, rw (b, e) refl, filled-Links es iso hnd fd us v b e))
      ]
]

-- The entry that an unlink takes away.
record Taken (es : List (Option Link)) (iso hnd : ℕ) (us : List (Option Link)) : Type 0 where
  unlinked : unlink es iso hnd ≡ (ok tt, us)
  entry : Link
  same : (entry.isolate_id ≡ iso) × (entry.handle_id ≡ hnd)
  sums : (w : Option Link → ℕ) → w none ≡ 0 → w (some entry) + total w us ≡ total w es
  rest : (i h : ℕ) → is_link i h (some entry) ≡ false → lookup_fd us i h ≡ lookup_fd es i h

found_here :
    (iso hnd : ℕ) (l : Link) (es : List (Option Link))
    → is_link iso hnd (some l) ≡ true
    → Taken (some l ∷ es) iso hnd (none ∷ es)
unfolding unlink lookup_fd
found_here iso hnd l es b = record {
  unlinked = rw b refl;
  entry = l;
  same = (ground arith, ground arith);
  sums = λ w z. omega (arith, z);
  rest = λ i h n. rw n refl;
}

found_later :
    (iso hnd : ℕ) (e : Option Link) (es us : List (Option Link))
    → is_link iso hnd e ≡ false
    → Taken es iso hnd us
    → Taken (e ∷ es) iso hnd (e ∷ us)
unfolding unlink lookup_fd
found_later iso hnd e es us b t = record {
  unlinked = rw (b, t.unlinked) refl;
  entry = t.entry;
  same = t.same;
  sums = λ w z. omega (arith, t.sums w z);
  rest = λ i h n. later e i h (t.rest i h n);
}
  where
    later :
        (e : Option Link) (i h : ℕ)
        → lookup_fd us i h ≡ lookup_fd es i h
        → lookup_fd (e ∷ us) i h ≡ lookup_fd (e ∷ es) i h
    later none i h q = q
    later (some y) i h q = rw q refl

unlink-Taken :
    (es : List (Option Link)) (iso hnd : ℕ)
    → linked iso hnd es ≡ true
    → (us : List (Option Link)) × Taken es iso hnd us
unfolding linked
unlink-Taken [] iso hnd h = cc
unlink-Taken (none ∷ es) iso hnd h =
    let (us, t) = unlink-Taken es iso hnd h in (none ∷ us, found_later iso hnd none es us refl t)
unlink-Taken (some l ∷ es) iso hnd h = elim (Bool-cases (is_link iso hnd (some l))) [
  | inl b ↦ (none ∷ es, found_here iso hnd l es b)
  | inr b ↦
      let (us, t) = unlink-Taken es iso hnd (ground arith) in
      (some l ∷ us, found_later iso hnd (some l) es us b t)
]

unlink_unlinked :
    (es : List (Option Link)) (iso hnd : ℕ)
    → linked iso hnd es ≡ false
    → unlink es iso hnd ≡ (err enoent, es)
unfolding linked unlink
unlink_unlinked [] iso hnd h = refl
unlink_unlinked (e ∷ es) iso hnd h =
    let b : is_link iso hnd e ≡ false = ground arith in
    rw (b, unlink_unlinked es iso hnd (ground arith)) refl

-- What an unlink that succeeded did.
pub record Unlinks (es : List (Option Link)) (iso hnd : ℕ) (us : List (Option Link)) : Type 0 where
  pub gone : lookup_fd us iso hnd ≡ err enoent
  pub others : (i h : ℕ) → (iso == i && hnd == h) ≡ false → lookup_fd us i h ≡ lookup_fd es i h
  pub counted : suc (count_for_handle us hnd) ≡ count_for_handle es hnd
  pub valid : IsValid us

Taken-Unlinks :
    (es us : List (Option Link)) (iso hnd : ℕ)
    → IsValid es
    → Taken es iso hnd us
    → Unlinks es iso hnd us
Taken-Unlinks es us iso hnd v t =
    let own : is_link iso hnd (some t.entry) ≡ true = ground (arith, t.same) in
    let o : of_handle hnd (some t.entry) ≡ 1 = ground (arith, t.same) in
    let s = t.sums (λ x. if is_link iso hnd x then 1 else 0) refl in
    let s' : 1 + times iso hnd us ≡ times iso hnd es = rw own at s in
    record {
      gone = lookup_fd-none iso hnd us (omega (arith, s', v iso hnd));
      others = λ i h n. t.rest i h (rw (t.same.0, t.same.1) n);
      counted =
          rw (count-total us hnd, count-total es hnd)
            (omega (arith, o, t.sums (of_handle hnd) refl));
      valid = λ i h. omega (arith, v i h, t.sums (λ x. if is_link i h x then 1 else 0) refl);
    }

-- In entries that link no pair twice, an unlink of a pair that is not linked is refused without a
-- change; otherwise the pair is not found any more, every other pair is found as before, the
-- handle has one link less, and no pair is linked twice.
pub unlink-Unlinks :
    (es : List (Option Link)) (iso hnd : ℕ)
    → IsValid es
    → ((linked iso hnd es ≡ false) × (unlink es iso hnd ≡ (err enoent, es)))
      ⊎ ((us : List (Option Link)) × (unlink es iso hnd ≡ (ok tt, us)) × Unlinks es iso hnd us)
unlink-Unlinks es iso hnd v = elim (Bool-cases (linked iso hnd es)) [
  | inr b ↦ inl (b, unlink_unlinked es iso hnd b)
  | inl b ↦
      let (us, t) = unlink-Taken es iso hnd b in
      inr (us, t.unlinked, Taken-Unlinks es us iso hnd v t)
]
