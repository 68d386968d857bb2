-- ===== src/Tables/LinkCounts.antt =====
-- How often a pair is linked, and where a link is filled in.
use nvkvm_pv.Base.{
  ℕ, ◌+◌, ◌≤◌, ◌≡◌, ◌≢◌, All, refl, false, Option, none, some, List, [], ◌∷◌, if◌then◌else◌, arith,
  inl, inr, ◌⊎◌, Option-cases, ==-refl, total,
}
use nvkvm_pv.Base.Results.{ok, err, enoent}
use nvkvm_pv.Tables.Links.{
  Link, is_link, linked, fill_first, lookup_fd, of_handle, count_for_handle,
}

-- How many entries link a pair.
abbrev pub times : ℕ → ℕ → List (Option Link) → ℕ
times iso hnd es = total (λ e. if is_link iso hnd e then 1 else 0) es

-- No pair is linked twice.
abbrev pub IsValid : List (Option Link) → Type 0
IsValid es = (iso hnd : ℕ) → times iso hnd es ≤ 1

pub linked-times :
    (iso hnd : ℕ) (es : List (Option Link)) → linked iso hnd es ≡ false → times iso hnd es ≡ 0
unfolding linked
linked-times iso hnd [] h = refl
linked-times iso hnd (e ∷ es) h = ground (arith, linked-times iso hnd es)

pub lookup_fd-none :
    (iso hnd : ℕ) (es : List (Option Link))
    → times iso hnd es ≡ 0
    → lookup_fd es iso hnd ≡ err enoent
unfolding lookup_fd
lookup_fd-none iso hnd [] h = refl
lookup_fd-none iso hnd (none ∷ es) h = lookup_fd-none iso hnd es (omega (arith, h))
lookup_fd-none iso hnd (some l ∷ es) h = ground (arith, lookup_fd-none iso hnd es)

pub count-total :
    (es : List (Option Link)) (hnd : ℕ) → count_for_handle es hnd ≡ total (of_handle hnd) es
unfolding count_for_handle
count-total [] hnd = refl
count-total (e ∷ es) hnd = omega (arith, count-total es hnd)

fill_first-cases :
    (l : Link) (x : Option Link) (es us : List (Option Link))
    → fill_first l (x ∷ es) ≡ some us
    → ((x ≡ none) × (us ≡ some l ∷ es))
      ⊎ ((y : Link) × (x ≡ some y)
          × (vs : List (Option Link)) × (fill_first l es ≡ some vs)
          × (us ≡ some y ∷ vs))
unfolding fill_first
fill_first-cases l none es us h = inl (refl, cc)
fill_first-cases l (some y) es us h = elim (Option-cases (fill_first l es)) [
  | inl e ↦ let g : none ≡ some us = rw e at h in cc
  | inr (vs, e) ↦ let g : some (some y ∷ vs) ≡ some us = rw e at h in inr (y, refl, vs, e, cc)
]

fill_first_nil : (l : Link) (us : List (Option Link)) → fill_first l [] ≢ some us
unfolding fill_first
fill_first_nil l us h = cc

pub fill_first-total :
    (w : Option Link → ℕ) (l : Link) (es us : List (Option Link))
    → w none ≡ 0
    → fill_first l es ≡ some us
    → total w us ≡ w (some l) + total w es
fill_first-total w l [] us z h = absurd (fill_first_nil l us h)
fill_first-total w l (x ∷ es) us z h = elim (fill_first-cases l x es us h) [
  | inl (a, b) ↦ rw (a, b) (omega (arith, z))
  | inr (y, a, vs, e, b) ↦ rw (a, b) (omega (arith, fill_first-total w l es vs z e))
]

pub fill_first-lookup :
    (iso hnd : ℕ) (l : Link) (es us : List (Option Link))
    → fill_first l es ≡ some us
    → is_link iso hnd (some l) ≡ false
    → lookup_fd us iso hnd ≡ lookup_fd es iso hnd
unfolding lookup_fd
fill_first-lookup iso hnd l [] us h n = absurd (fill_first_nil l us h)
fill_first-lookup iso hnd l (x ∷ es) us h n = elim (fill_first-cases l x es us h) [
  | inl (a, b) ↦ rw (a, b, lookup_fd, n) refl
  | inr (y, a, vs, e, b) ↦ rw (a, b, lookup_fd) (rw (fill_first-lookup iso hnd l es vs e n) refl)
]

pub fill_first-new :
    (l : Link) (es us : List (Option Link))
    → fill_first l es ≡ some us
    → times l.isolate_id l.handle_id es ≡ 0
    → lookup_fd us l.isolate_id l.handle_id ≡ ok l.fd_on_isolate
unfolding lookup_fd
fill_first-new l [] us h n = absurd (fill_first_nil l us h)
fill_first-new l (x ∷ es) us h n = elim (fill_first-cases l x es us h) [
  | inl (a, b) ↦ rw (b, lookup_fd, ==-refl l.isolate_id, ==-refl l.handle_id) refl
  | inr (y, a, vs, e, b) ↦
      let m : (if is_link l.isolate_id l.handle_id (some y) then 1 else 0)
            + times l.isolate_id l.handle_id es
          ≡ 0 =
        rw a at n in
      let z : is_link l.isolate_id l.handle_id (some y) ≡ false = ground arith in
      rw (b, lookup_fd, z) (fill_first-new l es vs e (omega arith))
]

pub fill_first-none :
    (l : Link) (es : List (Option Link)) → fill_first l es ≡ none → All (λ e. e ≢ none) es
unfolding fill_first
fill_first-none l [] h = tt
fill_first-none l (none ∷ es) h = cc
fill_first-none l (some x ∷ es) h = elim (Option-cases (fill_first l es)) [
  | inl e ↦ (λ q. cc, fill_first-none l es e)
  | inr (vs, e) ↦ let g : some (some x ∷ vs) ≡ none = rw e at h in cc
]
