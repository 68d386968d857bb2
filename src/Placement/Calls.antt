-- ===== src/Placement/Calls.antt =====
-- Mappings that come and go in the window of an isolate.
use nvkvm_pv.Base.{
  ℕ, ◌+◌, ◌-◌, ◌^◌, ◌≤◌, ◌≡◌, ◌≢◌, refl, ◌∙◌, subst, Bool, false, some, List, [], ◌∷◌,
  if◌then◌else◌, ◌==◌, arith, inl, inr, ◌⊎◌, All, total, get_elem?, swap_remove, sum_below-zero,
}
use nvkvm_pv.Sparse.Window.{Extent}
use nvkvm_pv.Sparse.Cover.{hit}
use nvkvm_pv.Placement.Arena.{page_up}
use nvkvm_pv.Placement.ArenaLaws.{Paged}
use nvkvm_pv.Placement.Window.{IsoWindow, win_run_max, win_place, win_unplace}
use nvkvm_pv.Placement.WindowLaws.{waits, IsPlaced}
use nvkvm_pv.Placement.CallLaws.{win_place-Placed, win_unplace-IsPlaced}

-- A window with the mappings in it.
pub record Occupied : Type 0 where
  pub window : IsoWindow
  pub live : List Extent

abbrev pub with_placed : Occupied → ℕ → ℕ × IsoWindow → Occupied
with_placed s len r = record {
  window = r.1;
  live =
      if r.0 == 0 then s.live else record { off = r.0 - s.window.base; len = page_up len } ∷ s.live;
}

-- Any placement, and the end of any mapping.
pub data Step (s : Occupied) : Occupied → Type 0 where
  place :
      (gva len : ℕ) (contig : Bool) → Step s (with_placed s len (win_place s.window gva len contig))
  unplace :
      (i len : ℕ) (e : Extent)
      → get_elem? s.live i ≡ some e
      → page_up len ≡ e.len
      → Step s (record {
        window = win_unplace s.window (s.window.base + e.off) len;
        live = swap_remove i s.live;
      })

pub data Reach (s : Occupied) : Occupied → Type 0 where
  here : Reach s s
  next : {t u : Occupied} → Reach s t → Step t u → Reach s u

-- The window as it is after the stub has answered.
abbrev pub fresh : ℕ → ℕ → Occupied
fresh base size = record {
  window = record {
    base = base;
    arena = record { size = size; cur = 0; free = [] };
    run = λ _. record { used = false; gva_end = 0; next = 0; limit = 0; seq = 0 };
    run_seq = 0;
  };
  live = [];
}

pub fresh-IsPlaced :
    (base size : ℕ) → size ≤ 2 ^ 62 → base + size ≤ 2 ^ 63 → IsPlaced (fresh base size).window []
fresh-IsPlaced base size l m = record {
  space = m;
  mapped = tt;
  runs = λ i h. cc;
  valid = record {
    small = l;
    inside = omega arith;
    aligned = omega arith;
    proper = tt;
    disjoint = λ b.
        ground
          (arith, sum_below-zero (waits b) win_run_max (fresh base size).window.run (λ i. refl));
  };
}

abbrev pub Stands : ℕ → ℕ → Occupied → Type 0
Stands base size s =
    (s.window.base ≡ base) × (s.window.arena.size ≡ size) × IsPlaced s.window s.live

Step-Stands :
    (base size : ℕ) {s t : Occupied} → base ≢ 0 → Step s t → Stands base size s → Stands base size t
Step-Stands base size {s} z (place gva len contig) (a, b, v) =
    let (c, d, r) = win_place-Placed s.window s.live gva len contig v in (c ∙ a, d ∙ b, outcome r)
  where
    outcome :
        (((win_place s.window gva len contig).0 ≡ 0)
            × IsPlaced (win_place s.window gva len contig).1 s.live)
          ⊎ ((off : ℕ) × ((win_place s.window gva len contig).0 ≡ s.window.base + off)
              × IsPlaced
                  (win_place s.window gva len contig).1
                  (record { off = off; len = page_up len } ∷ s.live))
        → IsPlaced
            (win_place s.window gva len contig).1
            (with_placed s len (win_place s.window gva len contig)).live
    outcome (inl (e, p)) = rw e p
    outcome (inr (off, e, p)) =
        let f : ((win_place s.window gva len contig).0 == 0) ≡ false = ground arith in
        let g : (win_place s.window gva len contig).0 - s.window.base ≡ off = omega arith in
        rw (f, g) p
Step-Stands base size {s} z (unplace i len e g n) (a, b, v) =
    let (p, c, d) = win_unplace-IsPlaced s.window s.live i len e (rw a z) g n v in (c ∙ a, d ∙ b, p)

Reach-Stands :
    (base size : ℕ) {s t : Occupied}
    → base ≢ 0
    → Reach s t
    → Stands base size s
    → Stands base size t
Reach-Stands base size z here v = v
Reach-Stands base size z (next r st) v = Step-Stands base size z st (Reach-Stands base size z r v)

-- In a window of at most 2^62 bytes that starts empty and ends below 2^63, after any placements, one
-- piece or run after run, and the ends of any mappings, each mapping that stands is whole pages of
-- the window, and no byte of the window belongs to two of them.
pub Reach-apart :
    (base size : ℕ) (t : Occupied)
    → base ≢ 0
    → size ≤ 2 ^ 62
    → base + size ≤ 2 ^ 63
    → Reach (fresh base size) t
    → All (Paged size) t.live × ((b : ℕ) → total (hit b) t.live ≤ 1)
Reach-apart base size t z l m r =
    let (a, b, v) = Reach-Stands base size z r (refl, refl, fresh-IsPlaced base size l m) in
    (subst (λ (n : ℕ). All (Paged n) t.live) b v.mapped, λ x. omega (arith, v.valid.disjoint x))
