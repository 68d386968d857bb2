-- ===== src/Gpa/Layout.antt =====
-- `struct nvkvm_gpa_layout` and how it is computed from the widths and the size of guest RAM.
use nvkvm_pv.Base.{
  ℕ, zero, suc, ◌+◌, ◌-◌, ◌*◌, ◌/◌, ◌^◌, Bool, true, false, not, ◌&&◌, ◌||◌, Option, none, some,
  if◌then◌else◌, ltb, leb, ◌==◌,
}
use nvkvm_pv.Base.Words.{add64, sub64}

abbrev pub gib : ℕ
gib = 2 ^ 30

abbrev pub mmap_win_size : ℕ
mmap_win_size = 16 * gib

abbrev pub sparse_max : ℕ
sparse_max = 128 * gib

abbrev pub sparse_min : ℕ
sparse_min = 16 * gib

abbrev pub shm_slot : ℕ
shm_slot = gib

abbrev pub gpa_align : ℕ
gpa_align = gib

pub record Layout : Type 0 where
  pub shm_base : ℕ
  pub mmap_base : ℕ
  pub mmap_size : ℕ
  pub sparse_base : ℕ
  pub sparse_size : ℕ
  pub block_base : ℕ
  pub block_size : ℕ
  pub limit : ℕ
  pub ram_top : ℕ
  pub floor : ℕ
  pub host_bits : ℕ
  pub guest_bits : ℕ
  pub bits : ℕ
  pub shrunk : Bool

-- All zero.
abbrev pub no_layout : Layout
no_layout = record {
  shm_base = 0;
  mmap_base = 0;
  mmap_size = 0;
  sparse_base = 0;
  sparse_size = 0;
  block_base = 0;
  block_size = 0;
  limit = 0;
  ram_top = 0;
  floor = 0;
  host_bits = 0;
  guest_bits = 0;
  bits = 0;
  shrunk = false;
}

-- `nvkvm_guest_phys_bits`, for the property of the first CPU if it can be read.
abbrev pub guest_phys_bits : Option ℕ → ℕ
guest_phys_bits none = 0
guest_phys_bits (some v) = if ltb v 32 || ltb 64 v then 0 else v

-- `nvkvm_guest_ram_top`, for the sizes `ram_size` and `maxram_size` of the machine if there is one.
abbrev pub guest_ram_top : Option (ℕ × ℕ) → ℕ
guest_ram_top none = add64 (4 * gib) 0
guest_ram_top (some (ram, maxram)) = add64 (4 * gib) (if ltb ram maxram then maxram else ram)

-- `nvkvm_align_up` and `nvkvm_align_down`, for a power of two `a`
abbrev pub align_up64 : ℕ → ℕ → ℕ
align_up64 v a = add64 v (a - 1) / a * a

abbrev pub align_down64 : ℕ → ℕ → ℕ
align_down64 v a = v / a * a

-- The host's width, with the number in the variable `NVKVM_FORCE_HOST_BITS` if it is set.
abbrev pub force_bits : Option ℕ → ℕ → ℕ
force_bits none host = host
force_bits (some v) host = if leb 32 v && leb v 52 then v else host

-- The narrower of the widths that are known, 36 if none is, and 52 at most.
abbrev pub narrower : ℕ → ℕ → ℕ
narrower host guest =
    if not (host == 0) && not (guest == 0)
    then (if ltb host guest then host else guest)
    else if not (host == 0)
    then host
    else if not (guest == 0)
    then guest
    else 0

abbrev pub known_bits : ℕ → ℕ
known_bits bits = if bits == 0 then 36 else bits

abbrev pub width : ℕ → ℕ → ℕ
width host guest = let bits = known_bits (narrower host guest) in if ltb 52 bits then 52 else bits

-- The first loop: the size of the sparse window to begin with, with `k` rounds to go.
unfoldable pub cap_sparse : ℕ → ℕ → ℕ → Option ℕ
cap_sparse zero limit size = none
cap_sparse (suc k) limit size =
    let rest = cap_sparse k limit (size / 2) in
    if ltb sparse_min size && ltb (limit / 8) size then rest else some size

-- The numbers of one round of the second loop.
abbrev pub span_of : ℕ → ℕ
span_of size = align_up64 (add64 (add64 shm_slot mmap_win_size) size) gpa_align

abbrev pub floor_of : ℕ → ℕ → ℕ
floor_of ram_top size = add64 (align_up64 (add64 ram_top gpa_align) size) size

abbrev pub base_of : ℕ → ℕ → ℕ
base_of limit size = align_down64 (sub64 (limit - limit / 8) (span_of size)) gpa_align

abbrev pub placed : Layout → ℕ → Layout
placed g size =
    let base = base_of g.limit size in
    record g {
      sparse_size = size;
      block_base = base;
      block_size = span_of size;
      floor = floor_of g.ram_top size;
      shm_base = base;
      mmap_base = add64 base shm_slot;
      sparse_base = add64 (add64 base shm_slot) mmap_win_size;
      shrunk = not (size == sparse_max);
    }

abbrev pub with_floor : Layout → ℕ → Layout
with_floor g size =
    if leb (span_of size) g.limit then record g { floor = floor_of g.ram_top size } else g

-- The second loop, with `k` rounds to go: success, and the layout.
unfoldable pub place : ℕ → Layout → ℕ → Option (Bool × Layout)
place zero g size = none
place (suc k) g size =
    let rest = place k (with_floor g size) (size / 2) in
    if leb (span_of size) g.limit && leb (floor_of g.ram_top size) (base_of g.limit size)
    then some (true, placed g size)
    else if leb size sparse_min
    then some (false, with_floor g size)
    else rest

-- What is known before any region has a place.
abbrev pub widths : Option ℕ → ℕ → Option ℕ → Option (ℕ × ℕ) → Layout
widths forced host cpu ram =
    let h = force_bits forced host in
    let g = guest_phys_bits cpu in
    record no_layout {
      host_bits = h;
      guest_bits = g;
      bits = width h g;
      limit = 2 ^ width h g;
      ram_top = guest_ram_top ram;
      mmap_size = mmap_win_size;
    }

-- `nvkvm_gpa_layout_compute`
abbrev pub place_from : Layout → Option ℕ → Option (Bool × Layout)
place_from g none = none
place_from g (some size) = place 4 g size

unfoldable pub layout_compute : Option ℕ → ℕ → Option ℕ → Option (ℕ × ℕ) → Option (Bool × Layout)
layout_compute forced host cpu ram =
    let g = widths forced host cpu ram in place_from g (cap_sparse 4 g.limit sparse_max)

-- The size of RAM, in GiB, that the message for a layout which does not fit advises.
abbrev pub advised_ram : ℕ → ℕ
advised_ram limit =
    if ltb (span_of sparse_min + sparse_min + 5 * gib) limit
    then (limit - span_of sparse_min - sparse_min - 5 * gib) / gib
    else 0
