-- ===== src/Placement/Room.antt =====
-- A run with room for chunks, which are placed in it one after the other.
use nvkvm_pv.Base.{
  ℕ, zero, suc, ◌+◌, ◌-◌, ◌%◌, ◌^◌, ◌≤◌, ◌<◌, ◌≡◌, ◌≢◌, refl, ap, true, false, some, List, [], ◌∷◌,
  ◌||◌, ◌==◌, arith, inl, inr, ◌⊎◌, Bool-cases, All, total, update_ne,
}
use nvkvm_pv.Base.Words.{add64, sub64}
use nvkvm_pv.Placement.Arena.{page_up}
use nvkvm_pv.Placement.Window.{
  Run, IsoWindow, win_run_max, find_run, is_waiting, extend_run, place_run, win_place,
}

-- The addresses of chunks of the given lengths, placed in order from `gva` on.
unfoldable pub place_all : IsoWindow → ℕ → List ℕ → List ℕ
place_all w gva [] = []
place_all w gva (n ∷ ns) =
    (win_place w gva n true).0 ∷ place_all (win_place w gva n true).1 (gva + n) ns

abbrev pub from : ℕ → List ℕ → List ℕ
from va [] = []
from va (n ∷ ns) = va ∷ from (va + n) ns

abbrev pub bytes : List ℕ → ℕ
bytes [] = 0
bytes (n ∷ ns) = n + bytes ns

abbrev pub WholePages : ℕ → Type 0
WholePages n = (1 ≤ n) × (n % 4096 ≡ 0)

-- No run waits for an address of `[gva, gva + total)`, but run `i` may.
abbrev pub Elsewhere : ℕ → ℕ → Run → Type 0
Elsewhere gva total r = (r.used ≡ true) → (r.gva_end < gva) ⊎ (gva + total ≤ r.gva_end)

-- Run `i` has room for `total` bytes, and no other waits for them.
pub record Room (w : IsoWindow) (i gva total : ℕ) : Type 0 where
  pub index : i < win_run_max
  pub live_run : 1 ≤ total → (w.run i).used ≡ true
  pub fits : total ≤ (w.run i).limit - (w.run i).next
  pub inside : (w.run i).limit ≤ w.arena.size
  pub small : w.arena.size ≤ 2 ^ 62
  pub space : w.base + w.arena.size ≤ 2 ^ 63
  pub based : w.base ≢ 0
  pub others : (j : ℕ) → j ≢ i → Elsewhere gva total (w.run j)

find_run_only :
    (k i : ℕ) (run : ℕ → Run) (gva len j : ℕ)
    → i ≤ j
    → j < i + k
    → is_waiting (run j) gva len ≡ true
    → ((m : ℕ) → m ≢ j → is_waiting (run m) gva len ≡ false)
    → find_run k i run gva len ≡ some j
unfolding find_run
find_run_only zero i run gva len j l m w o = absurd (omega arith)
find_run_only (suc k) i run gva len j l m w o = elim (Bool-cases (i == j)) [
  | inl b ↦
      let e : i ≡ j = ground arith in
      let f : is_waiting (run i) gva len ≡ true = rw e w in rw f (ap some e)
  | inr b ↦
      let f : is_waiting (run i) gva len ≡ false = o i (λ e. ground arith) in
      rw f (find_run_only k (suc i) run gva len j (ground arith) (omega arith) w o)
]

pub extend_run-Room :
    (w : IsoWindow) (i gva n t : ℕ)
    → 1 ≤ n
    → gva + n < 2 ^ 64
    → Room w i gva (n + t)
    → Room (extend_run w i gva n).1 i (gva + n) t
      × ((extend_run w i gva n).0 ≡ w.base + (w.run i).next)
      × ((extend_run w i gva n).1.base ≡ w.base)
      × (((extend_run w i gva n).1.run i).next ≡ (w.run i).next + n)
      × (((extend_run w i gva n).1.run i).gva_end ≡ gva + n)
unfolding extend_run
extend_run-Room w i gva n t s g r =
    let e : add64 (w.run i).next n ≡ (w.run i).next + n =
      omega (arith, r.fits, r.inside, r.small) in
    (
      record {
        index = r.index;
        live_run = λ h. ground (arith, e, r.fits);
        fits = ground (arith, e, r.fits);
        inside = ground (arith, r.inside);
        small = r.small;
        space = r.space;
        based = r.based;
        others = λ j d. rw (update_ne w.run i _ j (λ q. d (omega arith))) (later j (r.others j d));
      },
      omega (arith, r.fits, r.inside, r.space),
      refl,
      ground (arith, e),
      ground (arith, g),
    )
  where
    later : (j : ℕ) → Elsewhere gva (n + t) (w.run j) → Elsewhere (gva + n) t (w.run j)
    later j h u = elim (h u) [ inl a ↦ inl (omega arith) | inr b ↦ inr (omega arith) ]

win_place-Room :
    (w : IsoWindow) (i gva n t : ℕ)
    → WholePages n
    → gva ≢ 0
    → gva + n < 2 ^ 64
    → (w.run i).gva_end ≡ gva
    → Room w i gva (n + t)
    → win_place w gva n true ≡ extend_run w i gva n
unfolding win_place place_run
win_place-Room w i gva n t p z g e r =
    let pages : page_up n ≡ n = omega (arith, p, r.fits, r.inside, r.small) in
    let one : (w.base == 0 || w.arena.size == 0 || n == 0) ≡ false =
      ground (arith, p, r.based, r.fits, r.inside) in
    let two : (n == 0) ≡ false = ground (arith, p) in
    let three : (gva == 0) ≡ false = ground arith in
    let sub : sub64 (w.run i).limit (w.run i).next ≡ (w.run i).limit - (w.run i).next =
      omega (arith, p, r.fits, r.inside, r.small) in
    let found : find_run win_run_max 0 w.run gva n ≡ some i =
      find_run_only win_run_max 0 w.run gva n i (omega arith) (omega (arith, r.index))
        (rw sub (ground (arith, p, r.live_run, r.fits, e))) (λ m d. other m (r.others m d)) in
    rw (one, pages, two, three, found) refl
  where
    other : (m : ℕ) → Elsewhere gva (n + t) (w.run m) → is_waiting (w.run m) gva n ≡ false
    other m h = elim (Bool-cases (w.run m).used) [
      | inl u ↦ elim (h u) [ inl a ↦ ground (arith, p) | inr b ↦ ground (arith, p) ]
      | inr u ↦ rw u refl
    ]

pub place_all-Room :
    (ns : List ℕ) (w : IsoWindow) (i gva : ℕ)
    → All WholePages ns
    → gva ≢ 0
    → gva + bytes ns < 2 ^ 64
    → (w.run i).gva_end ≡ gva
    → Room w i gva (bytes ns)
    → place_all w gva ns ≡ from (w.base + (w.run i).next) ns
unfolding place_all
place_all-Room [] w i gva ps z g e r = refl
place_all-Room (n ∷ ns) w i gva (p, ps) z g e r =
    let placed = win_place-Room w i gva n (bytes ns) p z (omega arith) e r in
    let (r', a, b, c, d) = extend_run-Room w i gva n (bytes ns) p.0 (omega arith) r in
    let ih =
      place_all-Room ns (extend_run w i gva n).1 i (gva + n) ps (omega arith) (omega arith) d r' in
    let next : (extend_run w i gva n).1.base + ((extend_run w i gva n).1.run i).next
        ≡ w.base + (w.run i).next + n =
      omega arith in
    rw (placed, a, ih, next) refl
