-- ===== src/Sparse/Release.antt =====
-- What the release of an extent does to the window.
use nvkvm_pv.Base.{
  ◌⊎◌, ℕ, suc, ◌+◌, ◌-◌, ◌%◌, ◌^◌, ◌≤◌, ◌<◌, ◌≡◌, refl, true, Option, none, some, List, [], ◌∷◌,
  ◌++◌, ltb, ◌==◌, arith, length, get_elem?, All-append, set, inl, inr, Bool-cases, total-set,
  total-append, All-get_elem?, All-set, ==-true, ltb-false,
}
use nvkvm_pv.Sparse.Window.{
  Extent, Window, add64, page_round_up, gpa_free_max, join_found, find_touching, append_extent,
  join_or_append, put_back, gpa_release,
}
use nvkvm_pv.Sparse.Cover.{IsValid, Proper, hit, claims, Joins, find_touching-At}
use nvkvm_pv.Sparse.Joined.{Touched, put_back-length}
use nvkvm_pv.Sparse.Moves.{Moves, Moves-trans, At-get_elem?, absorb-Moves, tail-Moves}

hit_joined_up :
    (b off size : ℕ) (e joined : Extent)
    → e.off + e.len ≡ off
    → joined.off ≡ e.off
    → joined.len ≡ e.len + size
    → hit b joined ≡ hit b e + hit b (record { off = off; len = size })
hit_joined_up b off size e joined p q r = ground arith

hit_joined_down :
    (b off size : ℕ) (e joined : Extent)
    → off + size ≡ e.off
    → joined.off ≡ off
    → joined.len ≡ e.len + size
    → hit b joined ≡ hit b e + hit b (record { off = off; len = size })
hit_joined_down b off size e joined p q r = ground arith

-- What the join of two proper extents is.
record Union (limit off size : ℕ) (e joined : Extent) : Type 0 where
  proper : Proper limit joined
  sum : (b : ℕ) → hit b joined ≡ hit b e + hit b (record { off = off; len = size })

Joins-Union :
    (limit off size : ℕ) (e joined : Extent)
    → limit ≤ 2 ^ 62
    → Proper limit e
    → Proper limit (record { off = off; len = size })
    → Joins off size e joined
    → Union limit off size e joined
Joins-Union limit off size e joined s p q (inl (x, y, z)) = record {
  proper = (omega (arith, p, q), omega (arith, p, q));
  sum = λ b. hit_joined_up b off size e joined (omega (arith, p, q)) y (omega (arith, p, q));
}
Joins-Union limit off size e joined s p q (inr (x, y, z)) = record {
  proper = (omega (arith, p, q), omega (arith, p, q));
  sum = λ b. hit_joined_down b off size e joined (omega (arith, p, q)) y (omega (arith, p, q));
}

joined-Moves :
    (w : Window) (live : List Extent) (off size i : ℕ) (e joined : Extent)
    → IsValid w (record { off = off; len = size } ∷ live)
    → get_elem? w.free i ≡ some e
    → Union w.size off size e joined
    → Moves w
        (record { off = off; len = size } ∷ live)
        (record w { free = set w.free i joined })
        live
joined-Moves w live off size i e joined v g u =
    let same : (b : ℕ)
        → claims (record w { free = set w.free i joined }) live b
          ≡ claims w (record { off = off; len = size } ∷ live) b =
      λ b. omega (arith, total-set (hit b) w.free i joined e g, u.sum b) in
    record {
      valid = record {
        small = v.small;
        inside = v.inside;
        proper = All-set (Proper w.size) w.free i joined v.proper u.proper;
        proper_live = v.proper_live.1;
        disjoint = λ b. omega (arith, same b, v.disjoint b);
      };
      same_base = refl;
      same_mapped = refl;
      same_size = refl;
      same_claims = same;
    }

-- As `Moves`, but the bytes may be lost if the free list is full.
pub record Returns (w : Window) (before : List Extent) (u : Window) (after : List Extent)
    : Type 0 where
  pub valid : IsValid u after
  pub same_base : u.gpa_base ≡ w.gpa_base
  pub same_mapped : u.mapped ≡ w.mapped
  pub same_size : u.size ≡ w.size
  pub same_claims : length w.free < gpa_free_max → (b : ℕ) → claims u after b ≡ claims w before b

Moves-Returns :
    (w u : Window) (before after : List Extent) → Moves w before u after → Returns w before u after
Moves-Returns w u before after m = record {
  valid = m.valid;
  same_base = m.same_base;
  same_mapped = m.same_mapped;
  same_size = m.same_size;
  same_claims = λ _. m.same_claims;
}

append_extent-Returns :
    (w : Window) (live : List Extent) (e : Extent)
    → IsValid w (e ∷ live)
    → Returns w (e ∷ live) (append_extent w e) live
unfolding append_extent
append_extent-Returns w live e v = elim (Bool-cases (ltb (length w.free) gpa_free_max)) [
  | inl b ↦
      let same : (x : ℕ)
          → claims (record w { free = w.free ++ e ∷ [] }) live x ≡ claims w (e ∷ live) x =
        λ x. omega (arith, total-append (hit x) w.free (e ∷ [])) in
      rw b (record {
        valid = record {
          small = v.small;
          inside = v.inside;
          proper = All-append (Proper w.size) w.free (e ∷ []) v.proper (v.proper_live.0, tt);
          proper_live = v.proper_live.1;
          disjoint = λ x. omega (arith, same x, v.disjoint x);
        };
        same_base = refl;
        same_mapped = refl;
        same_size = refl;
        same_claims = λ _. same;
      })
  | inr b ↦ rw b (record {
    valid = record {
      small = v.small;
      inside = v.inside;
      proper = v.proper;
      proper_live = v.proper_live.1;
      disjoint = λ x. omega (arith, v.disjoint x);
    };
    same_base = refl;
    same_mapped = refl;
    same_size = refl;
    same_claims = λ h. absurd (omega (arith, ltb-false _ _ b));
  })
]

join_found-Returns :
    (w : Window) (live : List Extent) (off size : ℕ) (o : Option (ℕ × Extent × Extent))
    → find_touching off size w.free 0 ≡ o
    → IsValid w (record { off = off; len = size } ∷ live)
    → Returns w (record { off = off; len = size } ∷ live) (join_found w off size o) live
join_found-Returns w live off size none q v =
    append_extent-Returns w live (record { off = off; len = size }) v
join_found-Returns w live off size (some (i, e, joined)) q v =
    let (a, j) = find_touching-At off size w.free 0 i e joined q in
    let g = At-get_elem? w.free i e a in
    let p = All-get_elem? (Proper w.size) w.free i e v.proper g in
    Moves-Returns w _ _ live (
      joined-Moves w live off size i e joined v g
        (Joins-Union w.size off size e joined v.small p v.proper_live.0 j))

put_back-Returns :
    (w : Window) (live : List Extent) (off size : ℕ)
    → IsValid w (record { off = off; len = size } ∷ live)
    → Returns w (record { off = off; len = size } ∷ live) (put_back w off size) live
unfolding put_back join_or_append
put_back-Returns w live off size v = elim (Bool-cases (add64 off size == w.cur)) [
  | inl b ↦
      let m = tail-Moves w live off size v (==-true _ _ b) in
      rw b (
        Moves-Returns w _ _ live (
          Moves-trans m (absorb-Moves (suc (length w.free)) (record w { cur = off }) live m.valid)))
  | inr b ↦ rw b (join_found-Returns w live off size (find_touching off size w.free 0) refl v)
]

page_round_up_whole : (size : ℕ) → size % 4096 ≡ 0 → size ≤ 2 ^ 62 → page_round_up size ≡ size
unfolding page_round_up
page_round_up_whole size a b = ground arith

-- Releasing an extent of whole pages that the window has given away keeps the invariant for the
-- extents that are left. If the free list is not full no byte is lost: every byte has as many
-- owners as before. If the extent ends at the watermark, or touches an entry of the free list at
-- either end, the free list gets no longer.
pub gpa_release-Returns :
    (w : Window) (live : List Extent) (off size : ℕ)
    → w.mapped ≡ true
    → size % 4096 ≡ 0
    → IsValid w (record { off = off; len = size } ∷ live)
    → Returns w
        (record { off = off; len = size } ∷ live)
        (gpa_release w (w.gpa_base + off) size)
        live
      × ((off + size ≡ w.cur) ⊎ Touched w off size
          → length (gpa_release w (w.gpa_base + off) size).free ≤ length w.free)
unfolding gpa_release
gpa_release-Returns w live off size m z v =
    let p = v.proper_live.0 in
    let r = page_round_up_whole size z (omega (arith, p, v.small)) in
    let a : w.gpa_base + off - w.gpa_base ≡ off = omega arith in
    let b : add64 off size ≡ off + size = omega (arith, p, v.small) in
    let reached : gpa_release w (w.gpa_base + off) size ≡ put_back w off size = ground arith in
    rw reached (put_back-Returns w live off size v, put_back-length w live off size v)
