-- ===== src/Sparse/Moves.antt =====
-- Steps that move bytes of a window between its parts, and those that lower the watermark.
use nvkvm_pv.Base.{
  ℕ, zero, suc, ◌+◌, ◌≡◌, refl, ap, ◌∙◌, Option, none, some, List, ◌∷◌, arith, get_elem?,
  swap_remove, total-swap_remove, All-get_elem?, All-swap_remove,
}
use nvkvm_pv.Sparse.Window.{Extent, Window, add64, find_end, absorb_found, absorb}
use nvkvm_pv.Sparse.Cover.{IsValid, Proper, hit, beyond, claims, At, find_end-At}

-- From `w`, whose owners hold `before`, to `u`, whose owners hold `after`: the invariant holds, and
-- each byte has as many owners as it had.
pub record Moves (w : Window) (before : List Extent) (u : Window) (after : List Extent)
    : Type 0 where
  pub valid : IsValid u after
  pub same_base : u.gpa_base ≡ w.gpa_base
  pub same_mapped : u.mapped ≡ w.mapped
  pub same_size : u.size ≡ w.size
  pub same_claims : (b : ℕ) → claims u after b ≡ claims w before b

pub Moves-trans :
    {w u x : Window} {l m n : List Extent} → Moves w l u m → Moves u m x n → Moves w l x n
Moves-trans p q = record {
  valid = q.valid;
  same_base = q.same_base ∙ p.same_base;
  same_mapped = q.same_mapped ∙ p.same_mapped;
  same_size = q.same_size ∙ p.same_size;
  same_claims = λ b. q.same_claims b ∙ p.same_claims b;
}

Moves-refl : (w : Window) (l : List Extent) → IsValid w l → Moves w l w l
Moves-refl w l v = record {
  valid = v;
  same_base = refl;
  same_mapped = refl;
  same_size = refl;
  same_claims = λ b. refl;
}

beyond_lower :
    (b off len cur : ℕ)
    → off + len ≡ cur
    → beyond off b ≡ hit b (record { off = off; len = len }) + beyond cur b
beyond_lower b off len cur h = ground arith

-- One round of the loop that lowers the watermark.
lower-Moves :
    (w : Window) (live : List Extent) (i : ℕ) (e : Extent)
    → IsValid w live
    → get_elem? w.free i ≡ some e
    → add64 e.off e.len ≡ w.cur
    → Moves w live (record w { cur = e.off; free = swap_remove i w.free }) live
lower-Moves w live i e v g q =
    let p = All-get_elem? (Proper w.size) w.free i e v.proper g in
    let n : e.off + e.len ≡ w.cur = omega (arith, p, v.small, q) in
    let same : (b : ℕ)
        → claims (record w { cur = e.off; free = swap_remove i w.free }) live b ≡ claims w live b =
      λ b.
        omega (arith, total-swap_remove (hit b) w.free i e g, beyond_lower b e.off e.len w.cur n) in
    record {
      valid = record {
        small = v.small;
        inside = omega (arith, p);
        proper = All-swap_remove (Proper w.size) w.free i v.proper;
        proper_live = v.proper_live;
        disjoint = λ b. omega (arith, same b, v.disjoint b);
      };
      same_base = refl;
      same_mapped = refl;
      same_size = refl;
      same_claims = same;
    }

pub At-get_elem? : (es : List Extent) (i : ℕ) (e : Extent) → At es 0 i e → get_elem? es i ≡ some e
At-get_elem? es i e (k, p, g) = let q : i ≡ k = omega (arith, p) in ap (get_elem? es) q ∙ g

absorb_found-Moves :
    (next : Window → Window) (w : Window) (live : List Extent) (o : Option (ℕ × Extent))
    → find_end w.cur w.free 0 ≡ o
    → ((u : Window) → IsValid u live → Moves u live (next u) live)
    → IsValid w live
    → Moves w live (absorb_found next w o) live
absorb_found-Moves next w live none q k v = Moves-refl w live v
absorb_found-Moves next w live (some (i, e)) q k v =
    let (a, n) = find_end-At w.cur w.free 0 i e q in
    let m = lower-Moves w live i e v (At-get_elem? w.free i e a) n in
    Moves-trans m (k (record w { cur = e.off; free = swap_remove i w.free }) m.valid)

pub absorb-Moves :
    (fuel : ℕ) (w : Window) (live : List Extent)
    → IsValid w live
    → Moves w live (absorb fuel w) live
unfolding absorb
absorb-Moves zero w live v = Moves-refl w live v
absorb-Moves (suc fuel) w live v =
    absorb_found-Moves (absorb fuel) w live (find_end w.cur w.free 0) refl
      (λ u. absorb-Moves fuel u live) v

-- The fast path: the extent ends at the watermark.
pub tail-Moves :
    (w : Window) (live : List Extent) (off size : ℕ)
    → IsValid w (record { off = off; len = size } ∷ live)
    → add64 off size ≡ w.cur
    → Moves w (record { off = off; len = size } ∷ live) (record w { cur = off }) live
tail-Moves w live off size v q =
    let (p, ps) = v.proper_live in
    let n : off + size ≡ w.cur = omega (arith, p, v.small, q) in
    let same : (b : ℕ)
        → claims (record w { cur = off }) live b
          ≡ claims w (record { off = off; len = size } ∷ live) b =
      λ b. omega (arith, beyond_lower b off size w.cur n) in
    record {
      valid = record {
        small = v.small;
        inside = omega (arith, v.inside);
        proper = v.proper;
        proper_live = ps;
        disjoint = λ b. omega (arith, same b, v.disjoint b);
      };
      same_base = refl;
      same_mapped = refl;
      same_size = refl;
      same_claims = same;
    }
