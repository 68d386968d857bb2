-- ===== src/Tables/RegionLaws.antt =====
-- Adding and taking free regions.
use nvkvm_pv.Base.{
  ℕ, ◌+◌, ◌%◌, ◌^◌, ◌≤◌, ◌<◌, ◌≡◌, refl, Bool, true, false, ◌&&◌, none, some, List, [], ◌∷◌,
  if◌then◌else◌, ltb, leb, ◌==◌, arith, inl, inr, ◌⊎◌, Bool-cases, total, All, ==-true, ==-false,
}
use nvkvm_pv.Base.Words.{add64}
use nvkvm_pv.Tables.Regions.{
  Region, join_next, join_prev, starts_before, insert, add_free_region, cut, take_region,
}

-- A region of whole pages between `lo` and `hi`.
abbrev pub Fits : ℕ → ℕ → Region → Type 0
Fits lo hi e =
    (lo ≤ e.offset)
    × (1 ≤ e.size)
    × (e.offset + e.size ≤ hi)
    × (e.offset % 4096 ≡ 0)
    × (e.size % 4096 ≡ 0)

-- Such regions in order, with a gap between any two.
abbrev pub IsApart : ℕ → ℕ → List Region → Type 0
IsApart lo hi [] = Unit
IsApart lo hi (e ∷ es) = Fits lo hi e × IsApart (e.offset + e.size + 1) hi es

abbrev pub hit : ℕ → Region → ℕ
hit b e = if leb e.offset b && ltb b (e.offset + e.size) then 1 else 0

-- How many regions hold byte `b`.
abbrev pub covered : ℕ → List Region → ℕ
covered b rs = total (hit b) rs

IsApart-lower : (lo lo' hi : ℕ) (rs : List Region) → lo' ≤ lo → IsApart lo hi rs → IsApart lo' hi rs
IsApart-lower lo lo' hi [] l v = tt
IsApart-lower lo lo' hi (e ∷ es) l (a, v) = (omega arith, v)

abbrev Clear : Region → Region → Type 0
Clear r e = (r.offset + r.size ≤ e.offset) ⊎ (e.offset + e.size ≤ r.offset)

-- A list that holds what `rs` and `r` hold, in order.
abbrev Holds : ℕ → ℕ → Region → List Region → List Region → Type 0
Holds lo hi r rs us = IsApart lo hi us × ((b : ℕ) → covered b us ≡ hit b r + covered b rs)

-- Two regions that touch hold what their union holds.
hit_touching :
    (b : ℕ) (r n : Region)
    → r.offset + r.size ≡ n.offset
    → hit b (record { offset = r.offset; size = r.size + n.size }) ≡ hit b r + hit b n
hit_touching b r n e = ground arith

module _ (hi : ℕ) (small : hi ≤ 2 ^ 62) where
  join_next-Holds :
      (lo : ℕ) (r : Region) (rs : List Region)
      → Fits lo hi r
      → starts_before r.offset rs ≡ false
      → All (Clear r) rs
      → IsApart lo hi rs
      → Holds lo hi r rs (join_next r rs)
  unfolding join_next
  join_next-Holds lo r [] f s d v = ((f, tt), λ b. refl)
  join_next-Holds lo r (n ∷ rest) f s d v = elim (Bool-cases (add64 r.offset r.size == n.offset)) [
    | inl e ↦
        let z : add64 r.size n.size ≡ r.size + n.size = omega (arith, v.0, f) in
        let o : r.offset + r.size ≡ n.offset = omega (arith, ==-true _ _ e, f) in
        rw (e, z)
          (
            (omega (arith, v.0, f), IsApart-lower _ _ hi rest (omega arith) v.1),
            λ b. omega (arith, hit_touching b r n o),
          )
    | inr e ↦
        let o : r.offset + r.size + 1 ≤ n.offset = ground (arith, f, d.0, v.0) in
        rw e ((f, (omega (arith, v.0), v.1)), λ b. refl)
  ]

  -- `us` may touch `p`.
  join_prev-Holds :
      (lo : ℕ) (p : Region) (us : List Region)
      → Fits lo hi p
      → IsApart (p.offset + p.size) hi us
      → Holds lo hi p us (join_prev p us)
  unfolding join_prev
  join_prev-Holds lo p [] f v = ((f, tt), λ b. refl)
  join_prev-Holds lo p (n ∷ rest) f v = elim (Bool-cases (add64 p.offset p.size == n.offset)) [
    | inl e ↦
        let z : add64 p.size n.size ≡ p.size + n.size = omega (arith, v.0, f) in
        let o : p.offset + p.size ≡ n.offset = omega (arith, ==-true _ _ e, f) in
        rw (e, z)
          (
            (omega (arith, v.0, f), IsApart-lower _ _ hi rest (omega arith) v.1),
            λ b. omega (arith, hit_touching b p n o),
          )
    | inr e ↦
        let o : p.offset + p.size + 1 ≤ n.offset = ground (arith, f, v.0) in
        rw e ((f, (omega (arith, v.0), v.1)), λ b. refl)
  ]

  insert-Holds :
      (lo : ℕ) (r : Region) (rs : List Region)
      → Fits lo hi r
      → All (Clear r) rs
      → IsApart lo hi rs
      → Holds lo hi r rs (insert r rs)
  unfolding insert
  insert-Holds lo r [] f d v = ((f, tt), λ b. refl)
  insert-Holds lo r (e ∷ es) f (c, d) (g, v) = elim (Bool-cases (ltb e.offset r.offset)) [
    | inr a ↦ rw a (join_next-Holds lo r (e ∷ es) f a (c, d) (g, v))
    | inl a ↦ elim (Bool-cases (starts_before r.offset es)) [
      | inl b ↦
          let (i, k) =
            insert-Holds (e.offset + e.size + 1) r es (ground (arith, later es b v, f)) d v in
          rw (a, b) ((g, i), λ x. omega (arith, k x))
      | inr b ↦
          let (i, k) =
            join_next-Holds (e.offset + e.size) r es (ground (arith, c, f)) b d
              (IsApart-lower _ _ hi es (omega arith) v) in
          let (j, l) = join_prev-Holds lo e (join_next r es) g i in
          rw (a, b) (j, λ x. omega (arith, k x, l x))
    ]
  ]
    where
      later :
          (es : List Region)
          → starts_before r.offset es ≡ true
          → IsApart (e.offset + e.size + 1) hi es
          → e.offset + e.size + 1 ≤ r.offset
      later [] b v = cc
      later (x ∷ xs) b (f, v) = ground (arith, f)

Misses-Clear :
    (lo hi : ℕ) (r : Region) (rs : List Region)
    → 1 ≤ r.size
    → IsApart lo hi rs
    → ((b : ℕ) → hit b r + covered b rs ≤ 1)
    → All (Clear r) rs
Misses-Clear lo hi r [] p v d = tt
Misses-Clear lo hi r (e ∷ es) p (f, v) d = (
  ground (arith, d r.offset, d e.offset, f),
  Misses-Clear (e.offset + e.size + 1) hi r es p v (λ b. omega (arith, d b)),
)

-- Giving back whole pages that no free region meets, to regions in order with gaps: if `malloc` gives
-- memory, the regions stay in order with gaps, so that regions that touch have been joined, and hold
-- exactly the bytes that they held and those given back; if not, nothing changes.
pub add_free_region-Holds :
    (memory : Bool) (lo hi : ℕ) (rs : List Region) (off size : ℕ)
    → hi ≤ 2 ^ 62
    → Fits lo hi (record { offset = off; size = size })
    → IsApart lo hi rs
    → ((b : ℕ) → hit b (record { offset = off; size = size }) + covered b rs ≤ 1)
    → let p = add_free_region memory rs off size in
      (p.0 ≡ memory)
      × (memory ≡ false → p.1 ≡ rs)
      × IsApart lo hi p.1
      × (memory ≡ true
          → (b : ℕ) → covered b p.1 ≡ hit b (record { offset = off; size = size }) + covered b rs)
unfolding add_free_region
add_free_region-Holds memory lo hi rs off size s f v d =
    let z : (size == 0) ≡ false = ground (arith, f) in by_memory memory z
  where
    region : Region
    region = record { offset = off; size = size }

    by_memory :
        (memory : Bool)
        → (size == 0) ≡ false
        → let p = add_free_region memory rs off size in
          (p.0 ≡ memory)
          × (memory ≡ false → p.1 ≡ rs)
          × IsApart lo hi p.1
          × (memory ≡ true → (b : ℕ) → covered b p.1 ≡ hit b region + covered b rs)
    by_memory true z =
        let (i, k) = insert-Holds hi s lo region rs f (Misses-Clear lo hi region rs f.1 v d) v in
        rw z (refl, (λ e. cc), i, λ e. k)
    by_memory false z = rw z (refl, (λ e. refl), v, λ e. cc)

-- A taken region: pages of `rs` that the rest does not have.
pub record Takes (lo hi : ℕ) (rs : List Region) (size off : ℕ) (rest : List Region) : Type 0 where
  pub fits : Fits lo hi (record { offset = off; size = size })
  pub apart : IsApart lo hi rest
  pub split : (b : ℕ) → covered b rs ≡ hit b (record { offset = off; size = size }) + covered b rest

cut-Takes :
    (lo hi : ℕ) (e : Region) (es : List Region) (size : ℕ)
    → hi ≤ 2 ^ 62
    → 1 ≤ size
    → size % 4096 ≡ 0
    → size ≤ e.size
    → IsApart lo hi (e ∷ es)
    → Takes lo hi (e ∷ es) size e.offset (cut size e es)
cut-Takes lo hi e es size s p z l (f, v) = elim (Bool-cases (e.size == size)) [
  | inl a ↦
      let q : e.size ≡ size = ==-true _ _ a in
      rw a (record {
        fits = omega arith;
        apart = IsApart-lower _ _ hi es (omega arith) v;
        split = λ b. ground arith;
      })
  | inr a ↦
      let q : add64 e.offset size ≡ e.offset + size = omega arith in
      let n = ==-false _ _ a in
      rw (a, q)
        (record {
          fits = omega arith;
          apart = (omega (arith, n), IsApart-lower _ _ hi es (omega arith) v);
          split = λ b. ground arith;
        })
]

pub take_region-Takes :
    (lo hi : ℕ) (rs : List Region) (size : ℕ)
    → hi ≤ 2 ^ 62
    → 1 ≤ size
    → size % 4096 ≡ 0
    → IsApart lo hi rs
    → ((take_region rs size ≡ none) × All (λ (e : Region). e.size < size) rs)
      ⊎ ((off : ℕ) × (rest : List Region) × (take_region rs size ≡ some (off, rest))
          × Takes lo hi rs size off rest)
unfolding take_region
take_region-Takes lo hi [] size s p z v = inl (refl, tt)
take_region-Takes lo hi (e ∷ es) size s p z (f, v) = elim (Bool-cases (leb size e.size)) [
  | inl a ↦
      inr
        (e.offset, cut size e es, rw a refl, cut-Takes lo hi e es size s p z (ground arith) (f, v))
  | inr a ↦ elim (take_region-Takes (e.offset + e.size + 1) hi es size s p z v) [
    | inl (n, h) ↦ inl (rw (a, n) refl, (ground arith, h))
    | inr (off, rest, q, t) ↦ inr (
      off,
      e ∷ rest,
      rw (a, q) refl,
      record {
        fits = omega (arith, t.fits);
        apart = (f, t.apart);
        split = λ b. omega (arith, t.split b);
      },
    )
  ]
]
