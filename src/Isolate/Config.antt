-- ===== src/Isolate/Config.antt =====
-- The configuration: the environment, the choice of a mode, and the checks before the first isolate.
use nvkvm_pv.Base.{
  ℕ, Bool, true, false, not, ◌&&◌, ◌||◌, Option, none, some, List, if◌then◌else◌, ltb, ◌==◌,
}
use nvkvm_pv.Isolate.Mode.{
  Layers, Mode, auto, layers, no_layers, Token, mode_parse, needs_unsafe_ack, has_uid, has_chroot,
}
use nvkvm_pv.Isolate.Uids.{
  UidMap, uidmap_get, uidmap_fits, uidmap_place, uid_base_default, uid_base_min, uid_base_max,
  uid_slots,
}

pub record Caps : Type 0 where
  pub setuid : Bool
  pub setgid : Bool
  pub chroot : Bool

-- What the host answers: whether the namespaces of an isolate can be made and used, the effective
-- capabilities if `capget` gives them, whether the control node is open to others if it is there,
-- whether a filter of system calls can be installed, and the ranges of user ids.
pub record Host : Type 0 where
  pub namespaces : Bool
  pub caps : Option Caps
  pub node_rw : Option Bool
  pub seccomp : Bool
  pub uid_map : Option (List (ℕ × ℕ))

-- The environment: the length and the tokens of the mode, whether the old hatch is set, the base,
-- which is `none` inside if it is not a number, and whether the acknowledgement is the exact one.
pub record Env : Type 0 where
  pub mode : Option (ℕ × List Token)
  pub no_harden : Bool
  pub base : Option (Option ℕ)
  pub ack : Bool

pub record Cfg : Type 0 where
  pub mode : Mode
  pub uid_base : ℕ
  pub uid_base_explicit : Bool

abbrev pub blocked : Option Bool → Bool
blocked none = false
blocked (some rw) = not rw

-- `nvkvm_iso_probe_uid`
abbrev pub probe_uid : Host → Option Caps → Bool
probe_uid h none = false
probe_uid h (some c) = if not c.setuid || not c.setgid then false else not (blocked h.node_rw)

abbrev pub can_chroot : Option Caps → Bool
can_chroot none = false
can_chroot (some c) = c.chroot

-- `nvkvm_iso_auto_select`
unfoldable pub auto_select : Host → Option Layers
auto_select h =
    if h.namespaces
    then some (record no_layers { ns = true; seccomp = true })
    else if probe_uid h h.caps
    then some (record no_layers { uid = true; seccomp = true; chroot = can_chroot h.caps })
    else if h.seccomp
    then some (record no_layers { seccomp = true })
    else none

-- `nvkvm_iso_cfg_validate`: whether the configuration can run.
abbrev pub validate_caps : Host → Cfg → Option Caps → Bool
validate_caps h c none = false
validate_caps h c (some k) =
    if not k.setuid || not k.setgid
    then false
    else if has_chroot c.mode && not k.chroot
    then false
    else not (blocked h.node_rw)

unfoldable pub cfg_validate : Host → Cfg → Bool
cfg_validate h c =
    if not (has_uid c.mode)
    then true
    else if ltb c.uid_base uid_base_min || ltb uid_base_max c.uid_base
    then false
    else validate_caps h c h.caps

-- The parts of `nvkvm_isolate_cfg_resolve`; `none` is an error. First the mode.
abbrev pub wanted_mode : Env → Option (ℕ × List Token) → Option Mode
wanted_mode e none =
    if e.no_harden then some (layers (record no_layers { seccomp = true })) else some auto
wanted_mode e (some (len, tokens)) =
    if not (len == 0)
    then mode_parse len tokens
    else if e.no_harden
    then some (layers (record no_layers { seccomp = true }))
    else some auto

-- Then the base, as it is configured.
abbrev pub configured_base : Option (Option ℕ) → Option (ℕ × Bool)
configured_base none = some (uid_base_default, false)
configured_base (some none) = none
configured_base (some (some v)) = if v == 0 || ltb 4294967295 v then none else some (v, true)

-- The base inside the map of user ids.
unfoldable pub mapped_base : UidMap → ℕ → Bool → Option ℕ
mapped_base m base explicit =
    let placed = uidmap_place m uid_slots in
    if uidmap_fits m base uid_slots
    then some base
    else if explicit
    then none
    else if placed == 0
    then some base
    else some placed

-- Last the acknowledgement, and the choice that is left open.
abbrev pub is_auto : Mode → Bool
is_auto auto = true
is_auto (layers m) = false

abbrev pub chosen : Option Layers → Option Mode
chosen none = none
chosen (some m) = some (layers m)

abbrev pub final_mode : Host → Mode → Option Mode
final_mode h auto = chosen (auto_select h)
final_mode h (layers m) = some (layers m)

unfoldable pub settle : Env → Host → Mode → Option Mode
settle e h mode =
    if not (is_auto mode) && needs_unsafe_ack mode && not e.ack then none else final_mode h mode

infixl 1 ◌>>=◌
abbrev ◌>>=◌ {ℓ κ} : {A : Type ℓ} {B : Type κ} → Option A → (A → Option B) → Option B
none >>= f = none
some a >>= f = f a

-- `nvkvm_isolate_cfg_resolve`
unfoldable pub cfg_resolve : Env → Host → Option Cfg
cfg_resolve e h = do
  mode ← wanted_mode e e.mode
  base ← configured_base e.base
  placed ← mapped_base (uidmap_get h.uid_map) base.0 base.1
  last ← settle e h mode
  some (record { mode = last; uid_base = placed; uid_base_explicit = base.1 })

-- `nvkvm_isolate_cfg_check` of what was resolved.
abbrev pub cfg_check : Host → Option Cfg → Bool
cfg_check h none = false
cfg_check h (some c) = cfg_validate h c
