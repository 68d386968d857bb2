-- ===== src/Sparse/Take.antt =====
-- What an allocation does to the window.
use nvkvm_pv.Base.{
  ℕ, suc, ◌+◌, ◌-◌, ◌^◌, ◌≤◌, ◌<◌, ◌≡◌, ◌≢◌, refl, ap, ◌∙◌, ◌&&◌, leb, All, true, Option, none,
  some, List, [], ◌∷◌, ltb, ◌==◌, arith, get_elem?, set, swap_remove, inl, inr, ◌⊎◌, Bool-cases,
  total-set, total-swap_remove, All-get_elem?, All-set, All-swap_remove, ==-true, ==-false,
  ltb-true, ltb-false,
}
use nvkvm_pv.Sparse.Window.{
  Extent, Window, add64, page_down, page_round_up, best_from, carve, bump, take_rounded, gpa_alloc,
}
use nvkvm_pv.Sparse.Cover.{IsValid, Proper, hit, beyond, At, best_from-At}

-- An allocation of `[off, off + size)`: it keeps the invariant with the extent added to those that
-- the window has given away.
pub record Gives (w : Window) (live : List Extent) (size : ℕ) (r : ℕ × Window) : Type 0 where
  pub off : ℕ
  pub gpa : r.0 ≡ add64 w.gpa_base off
  pub valid : IsValid r.1 (record { off = off; len = size } ∷ live)
  pub same_base : r.1.gpa_base ≡ w.gpa_base

best_from-ne-none :
    (size : ℕ) (es : List Extent) (i : ℕ) (best : ℕ × Extent)
    → best_from size es i (some best) ≢ none
unfolding best_from
best_from-ne-none size [] i best h = cc
best_from-ne-none size (e ∷ es) i (j, b) h = elim (Bool-cases (leb size e.len && ltb e.len b.len)) [
  | inl x ↦ best_from-ne-none size es (suc i) (i, e) (rw x at h)
  | inr x ↦ best_from-ne-none size es (suc i) (j, b) (rw x at h)
]

-- The search finds nothing only among entries that are too small.
best_from-none :
    (size : ℕ) (es : List Extent) (i : ℕ)
    → best_from size es i none ≡ none
    → All (λ e. e.len < size) es
unfolding best_from
best_from-none size [] i h = tt
best_from-none size (e ∷ es) i h = elim (Bool-cases (leb size e.len)) [
  | inl x ↦ absurd (best_from-ne-none size es (suc i) (i, e) (rw x at h))
  | inr x ↦ (ground arith, best_from-none size es (suc i) (rw x at h))
]

hit_split :
    (b off len size : ℕ)
    → size ≤ len
    → hit b (record { off = off; len = len })
      ≡ hit b (record { off = off + size; len = len - size })
        + hit b (record { off = off; len = size })
hit_split b off len size h = ground arith

carve_exact-Gives :
    (w : Window) (live : List Extent) (size i : ℕ) (e : Extent)
    → IsValid w live
    → get_elem? w.free i ≡ some e
    → e.len ≡ size
    → Gives w live size (add64 w.gpa_base e.off, record w { free = swap_remove i w.free })
carve_exact-Gives w live size i e v g q =
    let p = All-get_elem? (Proper w.size) w.free i e v.proper g in
    record {
      off = e.off;
      gpa = refl;
      valid = record {
        small = v.small;
        inside = v.inside;
        proper = All-swap_remove (Proper w.size) w.free i v.proper;
        proper_live = ((omega arith, omega arith), v.proper_live);
        disjoint = λ b. ground (arith, v.disjoint b, total-swap_remove (hit b) w.free i e g);
      };
      same_base = refl;
    }

carve_front-Gives :
    (w : Window) (live : List Extent) (size i : ℕ) (e : Extent)
    → 1 ≤ size
    → IsValid w live
    → get_elem? w.free i ≡ some e
    → size < e.len
    → Gives w live size (
      add64 w.gpa_base e.off,
      record w { free = set w.free i (record { off = add64 e.off size; len = e.len - size }) },
    )
carve_front-Gives w live size i e s v g q =
    let p = All-get_elem? (Proper w.size) w.free i e v.proper g in
    let n : add64 e.off size ≡ e.off + size = omega (arith, p, v.small) in
    let rest : Extent = record { off = add64 e.off size; len = e.len - size } in
    record {
      off = e.off;
      gpa = refl;
      valid = record {
        small = v.small;
        inside = v.inside;
        proper =
            All-set (Proper w.size) w.free i rest v.proper
              (omega (arith, p, n), omega (arith, p, n));
        proper_live = ((omega arith, omega (arith, p)), v.proper_live);
        disjoint = λ b. omega (
          arith,
          v.disjoint b,
          total-set (hit b) w.free i rest e g,
          hit_split b e.off e.len size (omega arith),
          ap (λ (o : ℕ). hit b (record { off = o; len = e.len - size })) n,
        );
      };
      same_base = refl;
    }

hit_beyond :
    (x low off size cur : ℕ)
    → low ≤ off
    → cur ≡ off + size
    → hit x (record { off = off; len = size }) + beyond cur x ≤ beyond low x
hit_beyond x low off size cur h e = ground arith

bump-Gives :
    (w : Window) (live : List Extent) (size : ℕ)
    → 1 ≤ size
    → size ≤ 2 ^ 62
    → IsValid w live
    → (bump w size ≡ (0, w)) × (w.size < page_down (w.cur + 4095) + size)
      ⊎ Gives w live size (bump w size)
unfolding bump
bump-Gives w live size s l v = elim (Bool-cases (ltb w.size (add64 off size))) [
  | inl b ↦ inl (rw b, omega (arith, ltb-true _ _ b, a, c))
  | inr b ↦ inr (
      rw b (record {
        off = off;
        gpa = refl;
        valid = record {
          small = v.small;
          inside = ltb-false _ _ b;
          proper = v.proper;
          proper_live = ((s, omega (arith, ltb-false _ _ b, c)), v.proper_live);
          disjoint =
              λ x. omega (arith, v.disjoint x, hit_beyond x w.cur off size (add64 off size) d c);
        };
        same_base = refl;
      }))
]
  where
    off : ℕ
    off = page_down (add64 w.cur 4095)

    a : off ≡ page_down (w.cur + 4095)
    a = omega (arith, v.inside, v.small)

    d : w.cur ≤ off
    d = omega (arith, v.inside, v.small)

    c : add64 off size ≡ off + size
    c = omega (arith, v.inside, v.small)

-- Every entry of the free list is too small, and the part past the watermark is too.
pub record Exhausted (w : Window) (size : ℕ) : Type 0 where
  pub no_entry : All (λ e. e.len < size) w.free
  pub no_room : w.size < page_down (w.cur + 4095) + size

carve-Gives :
    (w : Window) (live : List Extent) (size i : ℕ) (e : Extent)
    → 1 ≤ size
    → IsValid w live
    → get_elem? w.free i ≡ some e
    → size ≤ e.len
    → Gives w live size (carve w size (i, e))
unfolding carve
carve-Gives w live size i e s v g l = elim (Bool-cases (e.len == size)) [
  | inl b ↦ rw b (carve_exact-Gives w live size i e v g (==-true _ _ b))
  | inr b ↦ rw b (carve_front-Gives w live size i e s v g (omega (arith, ==-false _ _ b)))
]

abbrev pub Taken : Window → List Extent → ℕ → ℕ × Window → Type 0
Taken w live size r = ((r ≡ (0, w)) × Exhausted w size) ⊎ Gives w live size r

take_rounded-Taken :
    (w : Window) (live : List Extent) (size : ℕ)
    → 1 ≤ size
    → size ≤ 2 ^ 62
    → IsValid w live
    → Taken w live size (take_rounded w size)
unfolding take_rounded
take_rounded-Taken w live size s l v = go (best_from size w.free 0 none) refl
  where
    from_best :
        (i : ℕ) (e : Extent)
        → (◌≡◌ {A = Option (ℕ × Extent)} none (some (i, e))) ⊎ (At w.free 0 i e × (size ≤ e.len))
        → Gives w live size (carve w size (i, e))
    from_best i e (inl n) = cc
    from_best i e (inr ((k, p, g), m)) =
        let q : i ≡ k = omega (arith, p) in
        carve-Gives w live size i e s v (ap (get_elem? w.free) q ∙ g) m

    from_bump :
        best_from size w.free 0 none ≡ none
        → ((bump w size ≡ (0, w)) × (w.size < page_down (w.cur + 4095) + size)
            ⊎ Gives w live size (bump w size))
        → Taken w live size (bump w size)
    from_bump q (inl (z, n)) =
        inl (z, record { no_entry = best_from-none size w.free 0 q; no_room = n })
    from_bump q (inr g) = inr g

    go :
        (o : Option (ℕ × Extent))
        → best_from size w.free 0 none ≡ o
        → Taken w live size (take_rounded w size)
    go none q = rw (q, take_rounded) (from_bump q (bump-Gives w live size s l v))
    go (some (i, e)) q =
        rw (q, take_rounded) (inr (from_best i e (best_from-At size w.free 0 none i e q)))

page_round_up_lem :
    (size : ℕ)
    → 1 ≤ size
    → size ≤ 2 ^ 61
    → (size ≤ page_round_up size)
      × (page_round_up size < size + 4096)
      × (page_round_up size ≤ 2 ^ 62)
unfolding page_round_up
page_round_up_lem size a b = ground arith

-- In a window of at most 2^62 bytes, whose free list, bytes past the watermark and extents given
-- away overlap nowhere, an allocation of 1 to 2^61 bytes either fails with no change, when no
-- entry of the free list is large enough and the part past the watermark is not either, or gives
-- an extent of at least that size, less than a page larger, which overlaps none that are given
-- away and lies in the window.
pub gpa_alloc-Taken :
    (ensured : ℕ) (w : Window) (live : List Extent) (size : ℕ)
    → w.mapped ≡ true
    → ensured ≢ 0
    → 1 ≤ size
    → size ≤ 2 ^ 61
    → IsValid w live
    → (size ≤ page_round_up size)
      × (page_round_up size < size + 4096)
      × Taken w live (page_round_up size) (gpa_alloc ensured w size)
unfolding gpa_alloc
gpa_alloc-Taken ensured w live size m n a b v =
    let (x, y, z) = page_round_up_lem size a b in
    (x, y, rw (reached) (take_rounded-Taken w live (page_round_up size) (omega arith) z v))
  where
    reached : gpa_alloc ensured w size ≡ take_rounded w (page_round_up size)
    reached = ground (arith, page_round_up_lem size a b)
