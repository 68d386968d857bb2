-- ===== src/Sparse/Joined.antt =====
-- When a release makes the free list no longer.
use nvkvm_pv.Base.{
  ℕ, zero, suc, ◌+◌, ◌≤◌, ◌≡◌, ◌≢◌, Option, none, some, List, [], ◌∷◌, ◌==◌, arith, length,
  get_elem?, swap_remove, length-set, length-swap_remove, inl, inr, ◌⊎◌, Bool-cases, refl,
  All-get_elem?, ==-false,
}
use nvkvm_pv.Sparse.Window.{
  Extent, Window, add64, join_found, find_touching, find_end, absorb_found, absorb, join_or_append,
  put_back,
}
use nvkvm_pv.Sparse.Cover.{IsValid, Proper, find_end-At}
use nvkvm_pv.Sparse.Moves.{At-get_elem?}

-- An entry that the extent touches.
pub record Touched (w : Window) (off size : ℕ) : Type 0 where
  pub index : ℕ
  pub entry : Extent
  pub in_list : get_elem? w.free index ≡ some entry
  pub meets : (entry.off + entry.len ≡ off) ⊎ (off + size ≡ entry.off)

find_touching-ne-none :
    (off size : ℕ) (es : List Extent) (i k : ℕ) (e : Extent)
    → get_elem? es k ≡ some e
    → (add64 e.off e.len ≡ off) ⊎ (add64 off size ≡ e.off)
    → find_touching off size es i ≢ none
unfolding find_touching
find_touching-ne-none off size [] i k e g t h = cc
find_touching-ne-none off size (x ∷ es) i zero e g t h = ground arith
find_touching-ne-none off size (x ∷ es) i (suc k) e g t h =
    elim (Bool-cases (add64 x.off x.len == off)) [
      | inl a ↦ let z : some _ ≡ none = rw a at h in cc
      | inr a ↦ elim (Bool-cases (add64 off size == x.off)) [
        | inl b ↦ let z : some _ ≡ none = rw (a, b) at h in cc
        | inr b ↦ find_touching-ne-none off size es (suc i) k e g t (rw (a, b) at h)
      ]
    ]

absorb-length : (fuel : ℕ) (w : Window) → length (absorb fuel w).free ≤ length w.free
unfolding absorb
absorb-length zero w = omega arith
absorb-length (suc fuel) w = of (absorb-length fuel) (find_end w.cur w.free 0) refl
  where
    of :
        ((u : Window) → length (absorb fuel u).free ≤ length u.free)
        → (o : Option (ℕ × Extent)) → find_end w.cur w.free 0 ≡ o
        → length (absorb_found (absorb fuel) w o).free ≤ length w.free
    of ih none q = omega arith
    of ih (some (i, e)) q =
        let (a, n) = find_end-At w.cur w.free 0 i e q in
        omega (
          arith,
          ih (record w { cur = e.off; free = swap_remove i w.free }),
          length-swap_remove w.free i e (At-get_elem? w.free i e a),
        )

-- The extent goes to an entry that it touches, or to the part past the watermark: the free list
-- gets no longer.
pub put_back-length :
    (w : Window) (live : List Extent) (off size : ℕ)
    → IsValid w (record { off = off; len = size } ∷ live)
    → (off + size ≡ w.cur) ⊎ Touched w off size
    → length (put_back w off size).free ≤ length w.free
unfolding put_back join_or_append
put_back-length w live off size v c = elim (Bool-cases (add64 off size == w.cur)) [
  | inl b ↦ rw b (absorb-length (suc (length w.free)) (record w { cur = off }))
  | inr b ↦ rw b (of (find_touching off size w.free 0) refl (touched c (==-false _ _ b)))
]
  where
    p : Proper w.size (record { off = off; len = size })
    p = v.proper_live.0

    touched :
        (off + size ≡ w.cur) ⊎ Touched w off size → add64 off size ≢ w.cur → Touched w off size
    touched (inl q) n = absurd (n (omega (arith, p, v.small)))
    touched (inr t) n = t

    of :
        (o : Option (ℕ × Extent × Extent))
        → find_touching off size w.free 0 ≡ o
        → Touched w off size
        → length (join_found w off size o).free ≤ length w.free
    of (some (i, e, joined)) q t = omega (arith, length-set w.free i joined)
    of none q t =
        let x = All-get_elem? (Proper w.size) w.free t.index t.entry v.proper t.in_list in
        absurd (
          find_touching-ne-none off size w.free 0 t.index t.entry t.in_list
            (elim t.meets [
              | inl y ↦ inl (omega (arith, x, p, v.small))
              | inr y ↦ inr (omega (arith, x, p, v.small))
            ])
            q)
