-- ===== src/Sparse/Place.antt =====
-- Where the window is put, and the installation of its memory slot.
use nvkvm_pv.Base.{ℕ, ◌-◌, not, ◌&&◌, ◌||◌, Option, none, some, if◌then◌else◌, ltb, leb, ◌==◌}
use nvkvm_pv.Base.Results.{Result, ok, err}
use nvkvm_pv.Gpa.Layout.{Layout}
use nvkvm_pv.Sparse.Window.{Window}

-- The three tests on a base that firmware chose, in order.
abbrev pub below_ram : Layout → ℕ → ℕ
below_ram g base = if ltb base g.ram_top then g.sparse_base else base

abbrev pub off_block : Layout → ℕ → ℕ → ℕ
off_block g size base =
    if ltb base g.sparse_base && (leb g.block_base base || ltb (g.block_base - base) size)
    then g.sparse_base
    else base

abbrev pub in_limit : Layout → ℕ → ℕ → ℕ
in_limit g size base =
    if not (g.limit == 0) && (leb g.limit base || ltb (g.limit - base) size)
    then g.sparse_base
    else base

unfoldable pub resolve_base : Layout → ℕ → ℕ → ℕ
resolve_base g size base = in_limit g size (off_block g size (below_ram g base))

-- The base before the last test: of the BAR, if there is a transport that has one.
unfoldable pub wanted_base : Layout → ℕ → Option ℕ → ℕ
unfolding resolve_base
wanted_base g size none = g.sparse_base
wanted_base g size (some bar) = if bar == 0 then 0 else resolve_base g size bar

abbrev pub install_at : Window → ℕ → Result (Option ℕ) → ℕ × Window
install_at w base (err e) = (0, w)
install_at w base (ok slot) = (base, record w { gpa_base = base; kvm_slot = slot })

-- `nvkvm_sparse_ensure`; `added` is the answer of `kvm_add_memory_region` for a base.
unfoldable pub sparse_ensure : Layout → Option ℕ → (ℕ → Result (Option ℕ)) → Window → ℕ × Window
unfolding wanted_base
sparse_ensure g bar added w = if not w.mapped then (0, w) else elim w.kvm_slot [
  | some _ ↦ (w.gpa_base, w)
  | none ↦
      let base = wanted_base g w.size bar in
      if base == 0 then (0, w) else install_at w base (added base)
]
