-- ===== src/Tables/Regions.antt =====
-- The free regions of a GPA window: a list sorted by offset in which neighbours are joined.
use nvkvm_pv.Base.{
  ℕ, ◌-◌, ◌*◌, ◌/◌, Bool, true, false, not, ◌&&◌, Option, none, some, List, [], ◌∷◌, if◌then◌else◌,
  ltb, leb, ◌==◌,
}
use nvkvm_pv.Base.Words.{add64}

pub record Region : Type 0 where
  pub offset : ℕ
  pub size : ℕ

-- `align_up` to a page
abbrev pub align_up : ℕ → ℕ
align_up v = add64 v 4095 / 4096 * 4096

-- The new region before what follows it, joined with its successor if they touch.
unfoldable pub join_next : Region → List Region → List Region
join_next r [] = r ∷ []
join_next r (n ∷ rest) =
    if add64 r.offset r.size == n.offset
    then record { offset = r.offset; size = add64 r.size n.size } ∷ rest
    else r ∷ n ∷ rest

-- The predecessor before the new region, joined with it if they touch.
unfoldable pub join_prev : Region → List Region → List Region
join_prev p [] = p ∷ []
join_prev p (r ∷ rest) =
    if add64 p.offset p.size == r.offset
    then record { offset = p.offset; size = add64 p.size r.size } ∷ rest
    else p ∷ r ∷ rest

abbrev pub starts_before : ℕ → List Region → Bool
starts_before off [] = false
starts_before off (e ∷ es) = ltb e.offset off

-- The walk to the first region that does not start before `r`, and both joins.
unfoldable pub insert : Region → List Region → List Region
insert r [] = r ∷ []
insert r (e ∷ es) =
    let rest = insert r es in
    if not (ltb e.offset r.offset)
    then join_next r (e ∷ es)
    else if starts_before r.offset es
    then e ∷ rest
    else join_prev e (join_next r es)

-- `window_add_free_region`; `memory` says whether `malloc` gave memory. The Boolean is success.
unfoldable pub add_free_region : Bool → List Region → ℕ → ℕ → Bool × List Region
add_free_region memory rs off size =
    if size == 0
    then (true, rs)
    else if not memory
    then (false, rs)
    else (true, insert (record { offset = off; size = size }) rs)

-- `window_take_region`: the offset taken, and the regions left.
abbrev pub cut : ℕ → Region → List Region → List Region
cut size e es =
    if e.size == size
    then es
    else record { offset = add64 e.offset size; size = e.size - size } ∷ es

abbrev pub behind : Region → Option (ℕ × List Region) → Option (ℕ × List Region)
behind e none = none
behind e (some (off, rest)) = some (off, e ∷ rest)

unfoldable pub take_region : List Region → ℕ → Option (ℕ × List Region)
take_region [] size = none
take_region (e ∷ es) size =
    let rest = behind e (take_region es size) in
    if leb size e.size then some (e.offset, cut size e es) else rest

-- The first region that contains `[off, off + size)`.
unfoldable pub find_around : List Region → ℕ → ℕ → Option Region
find_around [] off size = none
find_around (r ∷ rs) off size =
    let rest = find_around rs off size in
    if leb r.offset off && leb (add64 off size) (add64 r.offset r.size) then some r else rest

abbrev pub punched : Region → Option Region
punched r =
    let len = r.size / 4096 * 4096 in
    if len == 0 then none else some (record { offset = align_up r.offset; size = len })

-- `window_punch_around`: the range whose pages are given back, if there is one.
unfoldable pub punch_around : List Region → ℕ → ℕ → Option Region
punch_around rs off size = elim (find_around rs off size) [
  | none ↦ punched (record { offset = off; size = size })
  | some r ↦ punched r
]
