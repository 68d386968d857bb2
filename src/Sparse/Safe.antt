-- ===== src/Sparse/Safe.antt =====
-- What a base of the sparse window has to be clear of.
use nvkvm_pv.Base.{ℕ, ◌+◌, ◌≤◌, ◌≡◌, arith, ◌⊎◌}
use nvkvm_pv.Gpa.Layout.{Layout}
use nvkvm_pv.Sparse.Place.{below_ram, resolve_base}

pub record IsSafe (g : Layout) (size base : ℕ) : Type 0 where
  pub above_ram : g.ram_top ≤ base
  pub clear : (g.sparse_base ≤ base) ⊎ (base + size ≤ g.block_base)
  pub fits : (g.limit ≡ 0) ⊎ (base + size ≤ g.limit)

below_ram-above : (g : Layout) (base : ℕ) → g.ram_top ≤ g.sparse_base → g.ram_top ≤ below_ram g base
below_ram-above g base h = ground arith

-- The base for a window of positive size is safe whatever base the firmware chose, if the base of
-- the layout is; the firmware's base is kept if it is safe.
pub resolve_base-IsSafe :
    (g : Layout) (size base : ℕ)
    → 1 ≤ size
    → IsSafe g size g.sparse_base
    → IsSafe g size (resolve_base g size base)
      × (IsSafe g size base → resolve_base g size base ≡ base)
unfolding resolve_base
resolve_base-IsSafe g size base s v = (
  record { above_ram = above v.above_ram; clear = clear; fits = fits v.fits },
  λ u. kept u.above_ram u.clear u.fits,
)
  where
    above : g.ram_top ≤ g.sparse_base → g.ram_top ≤ resolve_base g size base
    above h = ground arith

    clear :
        (g.sparse_base ≤ resolve_base g size base)
        ⊎ (resolve_base g size base + size ≤ g.block_base)
    clear = ground arith

    fits :
        (g.limit ≡ 0) ⊎ (g.sparse_base + size ≤ g.limit)
        → (g.limit ≡ 0) ⊎ (resolve_base g size base + size ≤ g.limit)
    fits h = ground arith

    kept :
        g.ram_top ≤ base
        → (g.sparse_base ≤ base) ⊎ (base + size ≤ g.block_base)
        → (g.limit ≡ 0) ⊎ (base + size ≤ g.limit)
        → resolve_base g size base ≡ base
    kept a b c = ground arith
