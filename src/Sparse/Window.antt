-- ===== src/Sparse/Window.antt =====
-- The allocator of the window and the release of an extent. An address arithmetic of 64 bits is
-- written out where it can wrap.
use nvkvm_pv.Base.{
  ℕ, zero, suc, ◌+◌, ◌-◌, ◌*◌, ◌/◌, ◌%◌, ◌^◌, Bool, not, ◌&&◌, ◌||◌, Option, none, some, List, [],
  ◌∷◌, ◌++◌, if◌then◌else◌, ltb, leb, ◌==◌, length, set, swap_remove,
}

pub record Extent : Type 0 where
  pub off : ℕ
  pub len : ℕ

-- The fields of `VirtIONvgpu` that the allocator uses. `mapped` says that `sparse_vmm_va` is set,
-- `free` holds the first `sparse_free_n` entries of `sparse_free`, and a `kvm_slot` of `none` is
-- the -1 of a memslot that is not installed.
pub record Window : Type 0 where
  pub mapped : Bool
  pub gpa_base : ℕ
  pub size : ℕ
  pub cur : ℕ
  pub free : List Extent
  pub kvm_slot : Option ℕ

abbrev pub gpa_free_max : ℕ
gpa_free_max = 16384

abbrev pub add64 : ℕ → ℕ → ℕ
add64 a b = (a + b) % 2 ^ 64

-- `x & ~4095`
abbrev pub page_down : ℕ → ℕ
page_down x = x / 4096 * 4096

unfoldable pub page_round_up : ℕ → ℕ
page_round_up size = if ltb (2 ^ 64 - 1 - 4095) size then 0 else page_down (size + 4095)

-- The best entry for `size` so far, its index and the entry, while the loop is at index `i`.
abbrev pub fits_better : ℕ → Extent → Option (ℕ × Extent) → Bool
fits_better size e none = leb size e.len
fits_better size e (some (_, best)) = leb size e.len && ltb e.len best.len

unfoldable pub best_from : ℕ → List Extent → ℕ → Option (ℕ × Extent) → Option (ℕ × Extent)
best_from size [] i best = best
best_from size (e ∷ es) i best =
    best_from size es (suc i) (if fits_better size e best then some (i, e) else best)

-- Reuse of an entry: dropped if it fits exactly, carved from the front if not.
unfoldable pub carve : Window → ℕ → ℕ × Extent → ℕ × Window
carve w size (i, e) = (
  add64 w.gpa_base e.off,
  if e.len == size
      then record w { free = swap_remove i w.free }
      else record w { free = set w.free i (record { off = add64 e.off size; len = e.len - size }) },
)

-- Advancing the watermark; address 0 stands for a failure.
unfoldable pub bump : Window → ℕ → ℕ × Window
bump w size =
    let off = page_down (add64 w.cur 4095) in
    if ltb w.size (add64 off size)
    then (0, w)
    else (add64 w.gpa_base off, record w { cur = add64 off size })

unfoldable pub take_rounded : Window → ℕ → ℕ × Window
take_rounded w size = elim (best_from size w.free 0 none) [
  | some best ↦ carve w size best
  | none ↦ bump w size
]

-- `nvkvm_sparse_gpa_alloc` behind `nvkvm_sparse_ensure`, whose answer is the first argument.
unfoldable pub gpa_alloc : ℕ → Window → ℕ → ℕ × Window
gpa_alloc ensured w size =
    if not w.mapped
    then (0, w)
    else if ensured == 0
    then (0, w)
    else if page_round_up size == 0
    then (0, w)
    else take_rounded w (page_round_up size)

-- The first entry that ends at `at`, with its index.
unfoldable pub find_end : ℕ → List Extent → ℕ → Option (ℕ × Extent)
find_end at [] i = none
find_end at (e ∷ es) i = if add64 e.off e.len == at then some (i, e) else find_end at es (suc i)

-- The loop that lowers the watermark past the entries that end at it, on fuel; first what one
-- round does with the entry that was found, if the rest of the loop is `next`.
abbrev pub absorb_found : (Window → Window) → Window → Option (ℕ × Extent) → Window
absorb_found next w none = w
absorb_found next w (some (i, e)) = next (record w { cur = e.off; free = swap_remove i w.free })

unfoldable pub absorb : ℕ → Window → Window
absorb zero w = w
absorb (suc fuel) w = absorb_found (absorb fuel) w (find_end w.cur w.free 0)

-- The first entry that touches `[off, off + size)`: its index, the entry, and the two joined.
unfoldable pub find_touching : ℕ → ℕ → List Extent → ℕ → Option (ℕ × Extent × Extent)
find_touching off size [] i = none
find_touching off size (e ∷ es) i =
    if add64 e.off e.len == off
    then some (i, e, record { off = e.off; len = add64 e.len size })
    else if add64 off size == e.off
    then some (i, e, record { off = off; len = add64 e.len size })
    else find_touching off size es (suc i)

-- Past the limit of the list an extent is dropped.
unfoldable pub append_extent : Window → Extent → Window
append_extent w e =
    if ltb (length w.free) gpa_free_max then record w { free = w.free ++ e ∷ [] } else w

abbrev pub join_found : Window → ℕ → ℕ → Option (ℕ × Extent × Extent) → Window
join_found w off size none = append_extent w (record { off = off; len = size })
join_found w off size (some (i, e, joined)) = record w { free = set w.free i joined }

unfoldable pub join_or_append : Window → ℕ → ℕ → Window
join_or_append w off size = join_found w off size (find_touching off size w.free 0)

unfoldable pub put_back : Window → ℕ → ℕ → Window
put_back w off size =
    if add64 off size == w.cur
    then absorb (suc (length w.free)) (record w { cur = off })
    else join_or_append w off size

-- `nvkvm_sparse_gpa_release`
unfoldable pub gpa_release : Window → ℕ → ℕ → Window
gpa_release w gpa size =
    if not w.mapped
    then w
    else if ltb gpa w.gpa_base
    then w
    else let off = gpa - w.gpa_base in
      let len = page_round_up size in
      if len == 0 || ltb w.size (add64 off len) then w else put_back w off len

-- `nvkvm_gpa_to_vmm_va`: the offset into the window that the address becomes.
unfoldable pub gpa_to_vmm_va : Window → ℕ → ℕ → Option ℕ
gpa_to_vmm_va w gpa size =
    if not w.mapped
    then none
    else if ltb gpa w.gpa_base
    then none
    else let off = gpa - w.gpa_base in
      if leb w.size off || ltb w.size (add64 off size) then none else some off
