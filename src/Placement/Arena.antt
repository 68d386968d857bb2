-- ===== src/Placement/Arena.antt =====
-- The allocator behind the window: a watermark and a list of free extents.
use nvkvm_pv.Base.{
  ℕ, ◌-◌, ◌*◌, ◌/◌, Option, none, some, List, [], ◌∷◌, ◌++◌, ◌||◌, if◌then◌else◌, ltb, ◌==◌, length,
  set, swap_remove,
}
use nvkvm_pv.Base.Words.{add64, sub64}
use nvkvm_pv.Sparse.Window.{Extent, best_from}

-- The fields `size`, `cur` and `free` of `struct nvkvm_iso_window`, the list as far as `free_n`.
pub record Arena : Type 0 where
  pub size : ℕ
  pub cur : ℕ
  pub free : List Extent

abbrev pub win_free_max : ℕ
win_free_max = 256

-- `(len + 4095ULL) & ~4095ULL`
abbrev pub page_up : ℕ → ℕ
page_up len = add64 len 4095 / 4096 * 4096

-- `win_release_locked`
unfoldable pub win_release : Arena → ℕ → ℕ → Arena
win_release a off len =
    if len == 0
    then a
    else if add64 off len == a.cur
    then record a { cur = off }
    else if ltb (length a.free) win_free_max
    then record a { free = a.free ++ record { off = off; len = len } ∷ [] }
    else a

-- The whole entry, or its front.
unfoldable pub win_carve : Arena → ℕ → ℕ × Extent → ℕ × Arena
win_carve a len (i, e) = (
  e.off,
  if e.len == len
      then record a { free = swap_remove i a.free }
      else record a { free = set a.free i (record { off = add64 e.off len; len = e.len - len }) },
)

-- The watermark moves up.
unfoldable pub win_bump : Arena → ℕ → Option (ℕ × Arena)
win_bump a len =
    let off = page_up a.cur in
    if ltb off a.cur || ltb (sub64 a.size off) len
    then none
    else some (off, record a { cur = add64 off len })

unfoldable pub win_take : Arena → ℕ → Option (ℕ × Arena)
win_take a len = elim (best_from len a.free 0 none) [
  | some best ↦ some (win_carve a len best)
  | none ↦ win_bump a len
]

-- `win_alloc_locked`: the offset and the window after it; UINT64_MAX is `none`.
unfoldable pub win_alloc : Arena → ℕ → Option (ℕ × Arena)
win_alloc a len =
    if len == 0 || ltb a.size len
    then none
    else if page_up len == 0
    then none
    else win_take a (page_up len)
