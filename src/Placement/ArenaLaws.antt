-- ===== src/Placement/ArenaLaws.antt =====
-- What the allocator behind the window does to its pages.
use nvkvm_pv.Base.{
  ℕ, ◌+◌, ◌-◌, ◌%◌, ◌^◌, ◌≤◌, ◌≡◌, refl, ap, sym, ◌∙◌, subst, false, Option, none, some, [], ◌∷◌,
  ◌||◌, ltb, ◌==◌, length, get_elem?, arith, inl, inr, ◌⊎◌, Bool-cases, Option-cases, All,
  All-append, All-set, All-get_elem?, All-swap_remove, total, total-append, total-set,
  total-swap_remove, ==-true, ==-false,
}
use nvkvm_pv.Base.Words.{add64, sub64}
use nvkvm_pv.Sparse.Window.{Extent, best_from}
use nvkvm_pv.Sparse.Cover.{hit, beyond, At, best_from-At}
use nvkvm_pv.Placement.Arena.{Arena, page_up, win_release, win_carve, win_bump, win_take, win_alloc}

-- Whole pages below a size.
abbrev pub Paged : ℕ → Extent → Type 0
Paged size e = (1 ≤ e.len) × (e.off + e.len ≤ size) × (e.off % 4096 ≡ 0) × (e.len % 4096 ≡ 0)

-- No byte is free or past the watermark and also among those that others have, as `held` counts.
pub record IsValid (a : Arena) (held : ℕ → ℕ) : Type 0 where
  pub small : a.size ≤ 2 ^ 62
  pub inside : a.cur ≤ a.size
  pub aligned : a.cur % 4096 ≡ 0
  pub proper : All (Paged a.size) a.free
  pub disjoint : (b : ℕ) → total (hit b) a.free + held b + beyond a.cur b ≤ 1

pub IsValid-less :
    (a : Arena) (held fewer : ℕ → ℕ)
    → ((b : ℕ) → fewer b ≤ held b)
    → IsValid a held
    → IsValid a fewer
IsValid-less a held fewer l v = record {
  small = v.small;
  inside = v.inside;
  aligned = v.aligned;
  proper = v.proper;
  disjoint = λ b. omega (arith, v.disjoint b, l b);
}

-- Somebody's pages come back.
pub win_release-IsValid :
    (a : Arena) (off len : ℕ) (held : ℕ → ℕ)
    → Paged a.size (record { off = off; len = len })
    → IsValid a (λ b. hit b (record { off = off; len = len }) + held b)
    → IsValid (win_release a off len) held × ((win_release a off len).size ≡ a.size)
unfolding win_release
win_release-IsValid a off len held p v =
    let z : (len == 0) ≡ false = ground (arith, p) in
    let s : add64 off len ≡ off + len = omega (arith, p, v.small) in
    elim (Bool-cases (off + len == a.cur)) [
      | inl c ↦
          let e = ==-true _ _ c in
          rw (z, s, c)
            (
              record {
                small = v.small;
                inside = omega (arith, p);
                aligned = omega (arith, p);
                proper = v.proper;
                disjoint = λ b. ground (arith, v.disjoint b, e);
              },
              refl,
            )
      | inr c ↦ elim (Bool-cases (ltb (length a.free) 256)) [
        | inl d ↦
            rw (z, s, c, d)
              (
                record {
                  small = v.small;
                  inside = v.inside;
                  aligned = v.aligned;
                  proper =
                      All-append (Paged a.size) a.free (record { off = off; len = len } ∷ [])
                        v.proper (p, tt);
                  disjoint = λ b. omega (
                    arith,
                    v.disjoint b,
                    total-append (hit b) a.free (record { off = off; len = len } ∷ []),
                  );
                },
                refl,
              )
        | inr d ↦
            rw (z, s, c, d)
              (
                IsValid-less a (λ b. hit b (record { off = off; len = len }) + held b) held
                    (λ b. omega arith) v,
                refl,
              )
      ]
    ]

-- What an allocation gives.
pub record Gives (a : Arena) (held : ℕ → ℕ) (len off : ℕ) (b : Arena) : Type 0 where
  pub paged : Paged a.size (record { off = off; len = len })
  pub valid : IsValid b (λ x. hit x (record { off = off; len = len }) + held x)
  pub same : b.size ≡ a.size

pub hit_front :
    (b off len n : ℕ)
    → n ≤ len
    → hit b (record { off = off; len = len })
      ≡ hit b (record { off = off; len = n }) + hit b (record { off = off + n; len = len - n })
hit_front b off len n l = ground arith

win_carve-Gives :
    (a : Arena) (held : ℕ → ℕ) (len i : ℕ) (e : Extent)
    → 1 ≤ len
    → len % 4096 ≡ 0
    → IsValid a held
    → get_elem? a.free i ≡ some e
    → len ≤ e.len
    → Gives a held len (win_carve a len (i, e)).0 (win_carve a len (i, e)).1
unfolding win_carve
win_carve-Gives a held len i e s m v g l =
    let p : Paged a.size e = All-get_elem? (Paged a.size) a.free i e v.proper g in
    elim (Bool-cases (e.len == len)) [
      | inl c ↦
          let q = ==-true _ _ c in
          rw c (record {
            paged = omega (arith, p);
            valid = record {
              small = v.small;
              inside = v.inside;
              aligned = v.aligned;
              proper = All-swap_remove (Paged a.size) a.free i v.proper;
              disjoint = λ b.
                  omega (arith, v.disjoint b, total-swap_remove (hit b) a.free i e g, whole b q);
            };
            same = refl;
          })
      | inr c ↦
          let q = ==-false _ _ c in
          let n : add64 e.off len ≡ e.off + len = omega (arith, p, v.small) in
          rw (c, n)
            (record {
              paged = omega (arith, p);
              valid = record {
                small = v.small;
                inside = v.inside;
                aligned = v.aligned;
                proper =
                    All-set (Paged a.size) a.free i
                      (record { off = e.off + len; len = e.len - len }) v.proper
                      (omega (arith, p, q));
                disjoint = λ b. omega (
                  arith,
                  v.disjoint b,
                  total-set (hit b) a.free i (record { off = e.off + len; len = e.len - len }) e g,
                  hit_front b e.off e.len len l,
                );
              };
              same = refl;
            })
    ]
  where
    whole : (b : ℕ) → e.len ≡ len → hit b (record { off = e.off; len = len }) ≡ hit b e
    whole b q = ap (λ (x : ℕ). hit b (record { off = e.off; len = x })) (sym q)

win_bump-Gives :
    (a : Arena) (held : ℕ → ℕ) (len off : ℕ) (b : Arena)
    → 1 ≤ len
    → len % 4096 ≡ 0
    → IsValid a held
    → win_bump a len ≡ some (off, b)
    → Gives a held len off b
unfolding win_bump
win_bump-Gives a held len off b s m v h =
    let c : page_up a.cur ≡ a.cur = omega (arith, v.inside, v.small, v.aligned) in
    let d : sub64 a.size a.cur ≡ a.size - a.cur = omega (arith, v.inside, v.small) in
    elim (Bool-cases (ltb a.cur a.cur || ltb (a.size - a.cur) len)) [
      | inl n ↦ let z : ◌≡◌ {A = Option (ℕ × Arena)} none (some (off, b)) = rw (c, d, n) at h in cc
      | inr n ↦
          let l : a.cur + len ≤ a.size = ground (arith, v.inside) in
          let t : add64 a.cur len ≡ a.cur + len = omega (arith, v.small) in
          let z : ◌≡◌ {A = Option (ℕ × Arena)} (some (a.cur, record a { cur = a.cur + len }))
              (some (off, b)) =
            rw (c, d, n, t) at h in
          let x : a.cur ≡ off = cc in
          let y : record a { cur = a.cur + len } ≡ b = cc in
          rw (← x, ← y)
            (record {
              paged = omega (arith, v.aligned);
              valid = record {
                small = v.small;
                inside = l;
                aligned = omega (arith, v.aligned);
                proper = v.proper;
                disjoint = λ b. ground (arith, v.disjoint b);
              };
              same = refl;
            })
    ]

pair_of :
    {a : Arena} {held : ℕ → ℕ} {len : ℕ} (p : ℕ × Arena) (off : ℕ) (b : Arena)
    → ◌≡◌ {A = Option (ℕ × Arena)} (some p) (some (off, b))
    → Gives a held len p.0 p.1
    → Gives a held len off b
pair_of {a} {held} {len} p off b h g =
    let e : p ≡ (off, b) = cc in subst (λ (x : ℕ × Arena). Gives a held len x.0 x.1) e g

win_take-Gives :
    (a : Arena) (held : ℕ → ℕ) (len off : ℕ) (b : Arena)
    → 1 ≤ len
    → len % 4096 ≡ 0
    → IsValid a held
    → win_take a len ≡ some (off, b)
    → Gives a held len off b
unfolding win_take
win_take-Gives a held len off b s m v h = elim (Option-cases (best_from len a.free 0 none)) [
  | inl n ↦ win_bump-Gives a held len off b s m v (rw (n, win_take) at h)
  | inr ((i, e), n) ↦
      pair_of (win_carve a len (i, e)) off b (rw (n, win_take) at h)
        (found i e (best_from-At len a.free 0 none i e n))
]
  where
    found :
        (i : ℕ) (e : Extent)
        → (◌≡◌ {A = Option (ℕ × Extent)} none (some (i, e))) ⊎ (At a.free 0 i e × (len ≤ e.len))
        → Gives a held len (win_carve a len (i, e)).0 (win_carve a len (i, e)).1
    found i e (inl n) = cc
    found i e (inr ((k, p, g), l)) =
        let q : i ≡ k = omega (arith, p) in
        win_carve-Gives a held len i e s m v (ap (get_elem? a.free) q ∙ g) l

-- An allocation of whole pages.
pub win_alloc-Gives :
    (a : Arena) (held : ℕ → ℕ) (len off : ℕ) (b : Arena)
    → len % 4096 ≡ 0
    → IsValid a held
    → win_alloc a len ≡ some (off, b)
    → (1 ≤ len) × Gives a held len off b
unfolding win_alloc
win_alloc-Gives a held len off b m v h = elim (Bool-cases (len == 0 || ltb a.size len)) [
  | inl c ↦ let z : ◌≡◌ {A = Option (ℕ × Arena)} none (some (off, b)) = rw c at h in cc
  | inr c ↦
      let s : 1 ≤ len = ground arith in
      let t : len ≤ a.size = ground arith in
      let u : page_up len ≡ len = omega (arith, v.small) in
      let z : (len == 0) ≡ false = ground arith in
      (s, win_take-Gives a held len off b s m v (rw (c, u, z) at h))
]
