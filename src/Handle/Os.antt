-- ===== src/Handle/Os.antt =====
-- What the handle table asks of the operating system, and the table's state.
use nvkvm_pv.Base.{
  ℕ, ◌+◌, ◌-◌, Bool, true, false, not, ◌&&◌, Option, none, some, List, [], if◌then◌else◌, ltb, leb,
  ◌==◌,
}
use nvkvm_pv.Base.Results.{Result}

-- The device nodes that the code names by path.
pub data DevPath : Type 0 where
  nvidiactl nvidia_uvm nvidia_modeset : DevPath
  nvidia : ℕ → DevPath  -- /dev/nvidia<n>
  render_d : ℕ → DevPath  -- /dev/dri/renderD<minor>

pub data FileKind : Type 0 where
  chr blk other : FileKind

pub record Stat : Type 0 where
  pub kind : FileKind
  pub rdev : ℕ

-- The answers of the system calls.
pub record Os : Type 0 where
  pub eventfd : Result ℕ
  pub open_dev : DevPath → ℕ → Result ℕ
  pub memfd_create : Result ℕ
  pub ftruncate : ℕ → ℕ → Result (Unit {0})
  pub dup : ℕ → Option ℕ
  pub fstat : ℕ → Option Stat
  pub stat : DevPath → Option Stat
  pub render_path : ℕ → Option DevPath  -- `nvkvm_nvidia_render_path`, a walk of sysfs

-- `NVKVM_HANDLE_TYPE_*`, and the 0 of a cleared slot.
pub data Kind : Type 0 where
  unset nvidia_dev memory : Kind

pub record Handle : Type 0 where
  pub id : ℕ
  pub generation : ℕ
  pub kind : Kind
  pub fd : Option ℕ
  pub session_id : ℕ
  pub dev_id : ℕ
  pub isolate_refcount : ℕ
  pub size : ℕ
  pub poll_active : Bool
  pub in_use : Bool

-- `closed` is no field of the source: it lists the descriptors closed so far, the last one first.
pub record Table : Type 0 where
  pub handles : ℕ → Handle
  pub next_id : ℕ
  pub next_generation : ℕ
  pub closed : List ℕ

abbrev pub handle_max : ℕ
handle_max = 65536

abbrev pub handle_mem_max : ℕ
handle_mem_max = 1073741824

abbrev pub dev_ctl : ℕ
dev_ctl = 0

abbrev pub dev_uvm : ℕ
dev_uvm = 1

abbrev pub dev_gpu : ℕ → ℕ
dev_gpu n = 16 + n

abbrev pub dev_drm_rd : ℕ → ℕ
dev_drm_rd n = 32 + n

abbrev pub dev_modeset : ℕ
dev_modeset = 48

abbrev pub dev_eventfd : ℕ
dev_eventfd = 0xff

-- A slot after `memset`, with the descriptor that the callers set beside it.
abbrev pub cleared : Handle
cleared = record {
  id = 0;
  generation = 0;
  kind = unset;
  fd = none;
  session_id = 0;
  dev_id = 0;
  isolate_refcount = 0;
  size = 0;
  poll_active = false;
  in_use = false;
}

unfoldable pub table_init : Table
table_init = record { handles = λ _. cleared; next_id = 1; next_generation = 1; closed = [] }

unfoldable pub nvidia_dev_path : ℕ → Option DevPath
nvidia_dev_path dev =
    if dev == dev_ctl
    then some nvidiactl
    else if dev == dev_uvm
    then some nvidia_uvm
    else if leb 16 dev && ltb (dev - 16) 16
    then some (nvidia (dev - 16))
    else none

unfoldable pub attach_expect_path : Os → ℕ → Option DevPath
attach_expect_path os dev =
    if dev == dev_ctl
    then some nvidiactl
    else if dev == dev_uvm
    then some nvidia_uvm
    else if dev == dev_modeset
    then some nvidia_modeset
    else if leb (dev_gpu 0) dev && ltb dev (dev_gpu 16)
    then some (nvidia (dev - dev_gpu 0))
    else if leb (dev_drm_rd 0) dev && ltb dev (dev_drm_rd 16)
    then os.render_path (dev - dev_drm_rd 0)
    else none

abbrev pub is_chr : FileKind → Bool
is_chr chr = true
is_chr blk = false
is_chr other = false

abbrev pub is_blk : FileKind → Bool
is_blk chr = false
is_blk blk = true
is_blk other = false

-- The comparison with the node at the expected path.
abbrev same_node : Os → Stat → Option DevPath → Bool
same_node os st none = false
same_node os st (some path) = elim (os.stat path) [
  | none ↦ false
  | some dev ↦ is_chr dev.kind && is_chr st.kind && st.rdev == dev.rdev
]

unfoldable pub attach_fd_matches_dev : Os → ℕ → ℕ → Bool
unfolding attach_expect_path
attach_fd_matches_dev os fd dev = elim (os.fstat fd) [
  | none ↦ false
  | some st ↦
      if dev == dev_eventfd
      then not (is_chr st.kind) && not (is_blk st.kind)
      else same_node os st (attach_expect_path os dev)
]
