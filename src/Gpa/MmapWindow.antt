-- ===== src/Gpa/MmapWindow.antt =====
-- The legacy window of mappings, which lies in the layout, and its bump allocator, `alloc_gpa`.
use nvkvm_pv.Base.{
  ℕ, ◌+◌, ◌%◌, ◌^◌, ◌≤◌, ◌≡◌, true, false, Option, some, List, [], ◌∷◌, if◌then◌else◌, ltb, leb,
  ◌==◌, arith, inl, inr, Bool-cases, All, refl, ◌⊎◌, ltb-false,
}
use native.Mathlib.Nat.{pow-le-pow_right}
use nvkvm_pv.Base.Words.{add64}
use nvkvm_pv.Gpa.Layout.{Layout, align_up64, layout_compute}
use nvkvm_pv.Gpa.Bounds.{InBounds, Modest, layout_compute-Sound}

pub record MmapWindow : Type 0 where
  pub gpa : ℕ
  pub size : ℕ
  pub cur : ℕ

-- The window of a new device.
abbrev pub window_of : Layout → MmapWindow
window_of g = record { gpa = g.mmap_base; size = g.mmap_size; cur = 0 }

abbrev pub step_of : ℕ → ℕ
step_of length = if leb (2 ^ 21) length then 2 ^ 21 else 4096

-- `alloc_gpa`: the address, or 0 if the window is used up.
unfoldable pub alloc_gpa : MmapWindow → ℕ → ℕ × MmapWindow
alloc_gpa w length =
    let cur = align_up64 w.cur (step_of length) in
    if ltb w.size (add64 cur length)
    then (0, record w { cur = cur })
    else (add64 w.gpa cur, record w { cur = add64 cur length })

-- What requests of these lengths get: the addresses with their lengths, without the failures.
abbrev granted : ℕ → ℕ → List (ℕ × ℕ) → List (ℕ × ℕ)
granted gpa length rs = if gpa == 0 then rs else (gpa, length) ∷ rs

unfoldable pub grants : MmapWindow → List ℕ → List (ℕ × ℕ)
grants w [] = []
grants w (l ∷ ls) = granted (alloc_gpa w l).0 l (grants (alloc_gpa w l).1 ls)

-- Ranges of whole pages between `lo` and `hi`, each behind the one before.
abbrev pub Ascending : ℕ → ℕ → List (ℕ × ℕ) → Type 0
Ascending lo hi [] = Unit
Ascending lo hi ((gpa, length) ∷ rs) =
    (lo ≤ gpa) × (gpa % 4096 ≡ 0) × (gpa + length ≤ hi) × Ascending (gpa + length) hi rs

Ascending-lower :
    (lo lo' hi : ℕ) (rs : List (ℕ × ℕ)) → lo' ≤ lo → Ascending lo hi rs → Ascending lo' hi rs
Ascending-lower lo lo' hi [] l v = tt
Ascending-lower lo lo' hi ((gpa, length) ∷ rs) l (a, b, c, d) = (omega arith, b, c, d)

Ascending-at :
    (lo lo' hi hi' : ℕ) (rs : List (ℕ × ℕ))
    → lo ≡ lo'
    → hi ≡ hi'
    → Ascending lo hi rs
    → Ascending lo' hi' rs
Ascending-at lo lo' hi hi' rs e f v = rw (← e, ← f) v

-- A window of the size in the layout, which is not used up.
record IsWindow (w : MmapWindow) : Type 0 where
  low : 1 ≤ w.gpa
  top : w.gpa + w.size ≤ 2 ^ 52
  aligned : w.gpa % 2 ^ 30 ≡ 0
  sized : w.size ≡ 2 ^ 34
  fill : w.cur ≤ w.size

aligned_cur :
    (cur length : ℕ)
    → cur ≤ 2 ^ 34
    → let c = align_up64 cur (step_of length) in (cur ≤ c) × (c ≤ 2 ^ 34) × (c % 4096 ≡ 0)
aligned_cur cur length l = elim (Bool-cases (leb (2 ^ 21) length)) [
  | inl a ↦ rw a (omega arith, omega arith, omega arith)
  | inr a ↦ rw a (omega arith, omega arith, omega arith)
]

-- What one request gives.
Steps : MmapWindow → ℕ → ℕ → MmapWindow → Type 0
Steps w l gpa u =
    IsWindow u
    × (u.gpa ≡ w.gpa)
    × (u.size ≡ w.size)
    × (((gpa ≡ 0) × (w.cur ≤ u.cur))
        ⊎ ((w.gpa + w.cur ≤ gpa) × (gpa % 4096 ≡ 0) × (gpa + l ≡ w.gpa + u.cur)))

alloc_gpa-Steps :
    (w : MmapWindow) (l : ℕ)
    → IsWindow w
    → l ≤ 2 ^ 62
    → Steps w l (alloc_gpa w l).0 (alloc_gpa w l).1
unfolding alloc_gpa Steps
alloc_gpa-Steps w l v b =
    let c : ℕ = align_up64 w.cur (step_of l) in
    let (x, y, z) = aligned_cur w.cur l (omega (arith, v.fill, v.sized)) in
    let s : add64 c l ≡ c + l = omega arith in
    elim (Bool-cases (ltb w.size (add64 c l))) [
      | inl a ↦ rw a (
        record {
          low = v.low;
          top = v.top;
          aligned = v.aligned;
          sized = v.sized;
          fill = omega (arith, v.sized);
        },
        refl,
        refl,
        inl (refl, x),
      )
      | inr a ↦
          let f : add64 c l ≤ w.size = ltb-false w.size (add64 c l) a in
          let g : add64 w.gpa c ≡ w.gpa + c = omega (arith, v.top, v.sized) in
          rw (a, g)
            (
              record { low = v.low; top = v.top; aligned = v.aligned; sized = v.sized; fill = f },
              refl,
              refl,
              inr (omega arith, omega (arith, v.aligned), omega arith),
            )
    ]

grants-Ascending :
    (w : MmapWindow) (ls : List ℕ)
    → IsWindow w
    → All (λ (l : ℕ). l ≤ 2 ^ 62) ls
    → Ascending (w.gpa + w.cur) (w.gpa + w.size) (grants w ls)
unfolding grants Steps
grants-Ascending w [] v b = tt
grants-Ascending w (l ∷ ls) v (b, bs) =
    let u : MmapWindow = (alloc_gpa w l).1 in
    let (q, g, s, o) = alloc_gpa-Steps w l v b in
    let rest : Ascending (w.gpa + u.cur) (w.gpa + w.size) (grants u ls) =
      Ascending-at (u.gpa + u.cur) (w.gpa + u.cur) (u.gpa + u.size) (w.gpa + w.size) (grants u ls)
        (omega arith) (omega arith) (grants-Ascending u ls q bs) in
    elim o [
      | inl (z, k) ↦
          rw z
            (Ascending-lower (w.gpa + u.cur) (w.gpa + w.cur) (w.gpa + w.size) _ (omega arith) rest)
      | inr (k, z, e) ↦
          let n : ((alloc_gpa w l).0 == 0) ≡ false = ground (arith, v.low) in
          rw n (k, z, omega (arith, e, s, q.fill), rw e rest)
    ]

-- In a layout that was computed, the addresses that any sequence of requests of at most 2^62 bytes
-- gets from the legacy window are pages between the start of the window and that of the sparse
-- window, and each range lies behind those before it.
pub grants-layout_compute :
    (forced : Option ℕ) (host : ℕ) (cpu : Option ℕ) (ram : Option (ℕ × ℕ)) (g : Layout)
    (ls : List ℕ)
    → Modest ram
    → layout_compute forced host cpu ram ≡ some (true, g)
    → All (λ (l : ℕ). l ≤ 2 ^ 62) ls
    → Ascending g.mmap_base g.sparse_base (grants (window_of g) ls)
grants-layout_compute forced host cpu ram g ls m h b =
    let (v, _) = layout_compute-Sound forced host cpu ram g m h in
    let w : IsWindow (window_of g) = record {
      low = omega (arith, v.mmap);
      top = top v;
      aligned = omega (arith, v.mmap, v.shm, v.aligned);
      sized = v.mmap.1;
      fill = omega arith;
    } in
    Ascending-at (g.mmap_base + 0) g.mmap_base (g.mmap_base + g.mmap_size) g.sparse_base _
      (omega arith) (omega (arith, v.sparse)) (grants-Ascending (window_of g) ls w b)
  where
    top : InBounds g → g.mmap_base + g.mmap_size ≤ 2 ^ 52
    top v =
        let p : 2 ^ g.bits ≤ 2 ^ 52 = pow-le-pow_right (omega arith) v.limit.1 in
        omega (arith, v.sparse, v.end, v.ceiling, v.limit.0)
