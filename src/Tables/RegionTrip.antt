-- ===== src/Tables/RegionTrip.antt =====
-- A region that was taken and comes back, and what is punched.
use nvkvm_pv.Base.{
  ℕ, ◌+◌, ◌-◌, ◌*◌, ◌/◌, ◌%◌, ◌^◌, ◌≤◌, ◌<◌, ◌≡◌, refl, ap, sym, subst, ◌∙◌, true, false, ◌&&◌,
  Option, none, some, List, [], ◌∷◌, ltb, leb, ◌==◌, arith, inl, inr, Bool-cases, Option-cases,
  ==-true, ==-false, ==-refl,
}
use nvkvm_pv.Base.Words.{add64}
use nvkvm_pv.Tables.Regions.{
  Region, join_next, join_prev, starts_before, insert, add_free_region, cut, take_region,
  find_around, punched, punch_around, align_up,
}
use nvkvm_pv.Tables.RegionLaws.{IsApart, hit, covered}

insert-join_next :
    (r : Region) (us : List Region)
    → starts_before r.offset us ≡ false
    → insert r us ≡ join_next r us
unfolding insert join_next
insert-join_next r [] b = refl
insert-join_next r (x ∷ xs) b = rw b refl

join_prev_gap :
    (p : Region) (hi : ℕ) (us : List Region)
    → hi ≤ 2 ^ 62
    → p.offset + p.size ≤ hi
    → IsApart (p.offset + p.size + 1) hi us
    → join_prev p us ≡ p ∷ us
unfolding join_prev
join_prev_gap p hi [] s l v = refl
join_prev_gap p hi (n ∷ rest) s l (f, v) =
    let b : (add64 p.offset p.size == n.offset) ≡ false = ground (arith, f) in rw b refl

-- Before a gap nothing is joined.
insert_gap :
    (p : Region) (hi : ℕ) (us : List Region)
    → hi ≤ 2 ^ 62
    → p.offset + p.size ≤ hi
    → IsApart (p.offset + p.size + 1) hi us
    → insert p us ≡ p ∷ us
unfolding join_next
insert_gap p hi [] s l v = insert-join_next p [] refl
insert_gap p hi (n ∷ rest) s l (f, v) =
    let b : (add64 p.offset p.size == n.offset) ≡ false = ground (arith, f) in
    insert-join_next p (n ∷ rest) (ground (arith, f)) ∙ rw b refl

insert_back :
    (off size len : ℕ) (es : List Region)
    → add64 off size ≡ off + size
    → add64 size len ≡ size + len
    → 1 ≤ size
    → insert
        (record { offset = off; size = size })
        (record { offset = off + size; size = len } ∷ es)
      ≡ record { offset = off; size = size + len } ∷ es
unfolding join_next
insert_back off size len es q t p =
    let r : Region = record { offset = off; size = size } in
    insert-join_next r (record { offset = off + size; size = len } ∷ es) (ground arith)
    ∙ rw (q, ==-refl (off + size), t) refl

insert-cut :
    (lo hi : ℕ) (e : Region) (es : List Region) (size : ℕ)
    → hi ≤ 2 ^ 62
    → 1 ≤ size
    → size ≤ e.size
    → IsApart lo hi (e ∷ es)
    → insert (record { offset = e.offset; size = size }) (cut size e es) ≡ e ∷ es
insert-cut lo hi e es size s p l (f, v) = elim (Bool-cases (e.size == size)) [
  | inl a ↦
      let q : record { offset = e.offset; size = size } ≡ e =
        ap (λ (x : ℕ). record { offset = e.offset; size = x }) (sym (==-true _ _ a)) in
      rw a (rw q (insert_gap e hi es s (omega (arith, f)) v))
  | inr a ↦
      let n = ==-false _ _ a in
      let q : add64 e.offset size ≡ e.offset + size = omega (arith, f) in
      let t : add64 size (e.size - size) ≡ size + (e.size - size) = omega (arith, f) in
      let u : size + (e.size - size) ≡ e.size = omega arith in
      rw (a, q)
        (insert_back e.offset size (e.size - size) es q t p
          ∙ ap (λ (x : ℕ). record { offset = e.offset; size = x } ∷ es) u)
]

-- The same behind a region that the search passed.
insert_behind :
    (e r : Region) (hi : ℕ) (us es : List Region)
    → hi ≤ 2 ^ 62
    → e.offset + e.size ≤ hi
    → e.offset < r.offset
    → IsApart (e.offset + e.size + 1) hi es
    → insert r us ≡ es
    → insert r (e ∷ us) ≡ e ∷ es
unfolding insert
insert_behind e r hi us es s l k v i =
    let a : ltb e.offset r.offset ≡ true = ground arith in
    elim (Bool-cases (starts_before r.offset us)) [
      | inl b ↦ rw (a, b, i) refl
      | inr b ↦ rw (a, b, sym (insert-join_next r us b) ∙ i) (join_prev_gap e hi es s l v)
    ]

insert-take_region :
    (lo hi : ℕ) (rs : List Region) (size off : ℕ) (rest : List Region)
    → hi ≤ 2 ^ 62
    → 1 ≤ size
    → IsApart lo hi rs
    → take_region rs size ≡ some (off, rest)
    → (lo ≤ off) × (insert (record { offset = off; size = size }) rest ≡ rs)
unfolding take_region
insert-take_region lo hi [] size off rest s p v h = cc
insert-take_region lo hi (e ∷ es) size off rest s p (f, v) h = elim (Bool-cases (leb size e.size)) [
  | inl a ↦
      let q : ◌≡◌ {A = Option (ℕ × List Region)} (some (e.offset, cut size e es))
          (some (off, rest)) =
        rw a at h in
      let o : e.offset ≡ off = cc in
      let r : cut size e es ≡ rest = cc in
      (omega (arith, f), rw (← o, ← r) (insert-cut lo hi e es size s p (ground arith) (f, v)))
  | inr a ↦ elim (Option-cases (take_region es size)) [
    | inl g ↦
        let q : ◌≡◌ {A = Option (ℕ × List Region)} none (some (off, rest)) = rw (a, g) at h in cc
    | inr ((k, us), g) ↦
        let q : ◌≡◌ {A = Option (ℕ × List Region)} (some (k, e ∷ us)) (some (off, rest)) =
          rw (a, g) at h in
        let o : k ≡ off = cc in
        let r : e ∷ us ≡ rest = cc in
        let (l, i) = insert-take_region (e.offset + e.size + 1) hi es size k us s p v g in
        (
          omega (arith, f),
          rw (← o, ← r)
              (insert_behind e (record { offset = k; size = size }) hi us es s (omega (arith, f))
                (omega (arith, f)) v i),
        )
  ]
]

-- What was taken from regions in order with gaps, below 2^62, and is given back when `malloc` gives
-- memory, leaves the regions as they were.
pub add_free_region-take_region :
    (lo hi : ℕ) (rs : List Region) (size off : ℕ) (rest : List Region)
    → hi ≤ 2 ^ 62
    → 1 ≤ size
    → IsApart lo hi rs
    → take_region rs size ≡ some (off, rest)
    → add_free_region true rest off size ≡ (true, rs)
unfolding add_free_region
add_free_region-take_region lo hi rs size off rest s p v h =
    let z : (size == 0) ≡ false = ground arith in
    rw (z, (insert-take_region lo hi rs size off rest s p v h).1) refl

-- A region that the search around a range found: one of the list.
find_around-some :
    (lo hi : ℕ) (rs : List Region) (off size : ℕ) (r : Region)
    → IsApart lo hi rs
    → find_around rs off size ≡ some r
    → (r.offset % 4096 ≡ 0) × (r.offset + r.size ≤ hi) × ((b : ℕ) → hit b r ≤ covered b rs)
unfolding find_around
find_around-some lo hi [] off size r v h = cc
find_around-some lo hi (e ∷ es) off size r (f, v) h =
    elim (Bool-cases (leb e.offset off && leb (add64 off size) (add64 e.offset e.size))) [
      | inl a ↦
          let q : some e ≡ some r = rw a at h in
          let i : e ≡ r = cc in
          subst
            (λ (x : Region).
              (x.offset % 4096 ≡ 0)
              × (x.offset + x.size ≤ hi)
              × ((b : ℕ) → hit b x ≤ covered b (e ∷ es)))
            i (omega (arith, f), omega (arith, f), λ b. omega arith)
      | inr a ↦
          let (x, y, z) = find_around-some (e.offset + e.size + 1) hi es off size r v (rw a at h) in
          (x, y, λ b. omega (arith, z b))
    ]

punched-hit :
    (r p : Region) (hi b : ℕ)
    → hi ≤ 2 ^ 62
    → r.offset + r.size ≤ hi
    → r.offset % 4096 ≡ 0
    → punched r ≡ some p
    → hit b p ≤ hit b r
punched-hit r p hi b s l z h = elim (Bool-cases (r.size / 4096 * 4096 == 0)) [
  | inl a ↦ let q : none ≡ some p = rw a at h in cc
  | inr a ↦
      let q : some (record { offset = align_up r.offset; size = r.size / 4096 * 4096 }) ≡ some p =
        rw a at h in
      let i : record { offset = align_up r.offset; size = r.size / 4096 * 4096 } ≡ p = cc in
      let o : align_up r.offset ≡ r.offset = omega arith in
      subst (λ (x : Region). hit b x ≤ hit b r) i (rw o (ground arith))
]

-- The pages that are given back to the host after a range became free hold free bytes only.
pub punch_around-free :
    (lo hi : ℕ) (rs : List Region) (off size : ℕ) (p : Region)
    → hi ≤ 2 ^ 62
    → off + size ≤ hi
    → off % 4096 ≡ 0
    → IsApart lo hi rs
    → ((b : ℕ) → hit b (record { offset = off; size = size }) ≤ covered b rs)
    → punch_around rs off size ≡ some p
    → (b : ℕ) → hit b p ≤ covered b rs
unfolding punch_around
punch_around-free lo hi rs off size p s l z v d h b =
    elim (Option-cases (find_around rs off size)) [
      | inl g ↦
          let q : punched (record { offset = off; size = size }) ≡ some p =
            rw (g, punch_around) at h in
          omega (arith, d b, punched-hit (record { offset = off; size = size }) p hi b s l z q)
      | inr (r, g) ↦
          let q : punched r ≡ some p = rw (g, punch_around) at h in
          let (x, y, k) = find_around-some lo hi rs off size r v g in
          omega (arith, k b, punched-hit r p hi b s y x q)
    ]
