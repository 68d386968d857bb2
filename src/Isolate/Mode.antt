-- ===== src/Isolate/Mode.antt =====
-- The layers of confinement, and the parser of a mode.
use nvkvm_pv.Base.{
  ℕ, Bool, true, false, not, ◌&&◌, ◌||◌, Option, none, some, List, [], ◌∷◌, if◌then◌else◌, leb,
  ◌==◌,
}

-- A set of the bits NVKVM_ISO_LAYER_*.
pub record Layers : Type 0 where
  pub seccomp : Bool
  pub uid : Bool
  pub ns : Bool
  pub chroot : Bool

abbrev pub no_layers : Layers
no_layers = record { seccomp = false; uid = false; ns = false; chroot = false }

-- `auto` is the sentinel for a mode that is not resolved.
pub data Mode : Type 0 where
  auto : Mode
  layers : Layers → Mode

abbrev pub is_empty : Layers → Bool
is_empty m = not (m.seccomp || m.uid || m.ns || m.chroot)

abbrev pub is_confining : Layers → Bool
is_confining m = m.uid || m.ns || m.chroot

-- What `strtok` gives, by the names that it is compared with.
pub data Token : Type 0 where
  t_namespace t_ns t_userns t_uid t_uidsep t_chroot t_seccomp t_auto t_none t_off t_other : Token

-- The variables of the loop over the tokens.
pub record Seen : Type 0 where
  pub mask : Layers
  pub saw_none : Bool
  pub saw_auto : Bool
  pub saw_any : Bool

abbrev pub nothing_seen : Seen
nothing_seen = record { mask = no_layers; saw_none = false; saw_auto = false; saw_any = false }

abbrev pub see : Token → Seen → Option Seen
see t_namespace s = some (record s { mask = record s.mask { ns = true }; saw_any = true })
see t_ns s = some (record s { mask = record s.mask { ns = true }; saw_any = true })
see t_userns s = some (record s { mask = record s.mask { ns = true }; saw_any = true })
see t_uid s = some (record s { mask = record s.mask { uid = true }; saw_any = true })
see t_uidsep s = some (record s { mask = record s.mask { uid = true }; saw_any = true })
see t_chroot s = some (record s { mask = record s.mask { chroot = true }; saw_any = true })
see t_seccomp s = some (record s { mask = record s.mask { seccomp = true }; saw_any = true })
see t_auto s = some (record s { saw_auto = true; saw_any = true })
see t_none s = some (record s { saw_none = true; saw_any = true })
see t_off s = some (record s { saw_none = true; saw_any = true })
see t_other s = none

unfoldable pub see_all : List Token → Seen → Option Seen
see_all [] s = some s
see_all (t ∷ ts) s = elim (see t s) [ none ↦ none | some r ↦ see_all ts r ]

-- The checks after the loop.
abbrev pub with_seccomp : Layers → Layers
with_seccomp m = if is_confining m then record m { seccomp = true } else m

abbrev pub combined : Seen → Option Mode
combined s =
    if not s.saw_any
    then none
    else if s.saw_none && (not (is_empty s.mask) || s.saw_auto)
    then none
    else if s.saw_auto && not (is_empty s.mask)
    then none
    else if s.saw_auto
    then some auto
    else if s.mask.chroot && not s.mask.uid
    then none
    else if s.mask.chroot && s.mask.ns
    then none
    else some (layers (if s.saw_none then no_layers else with_seccomp s.mask))

abbrev pub combined_of : Option Seen → Option Mode
combined_of none = none
combined_of (some s) = combined s

-- `nvkvm_iso_mode_parse`, for a string of so many bytes and its tokens.
unfoldable pub mode_parse : ℕ → List Token → Option Mode
mode_parse len tokens =
    if len == 0
    then none
    else if leb 128 len
    then none
    else combined_of (see_all tokens nothing_seen)

-- `nvkvm_iso_needs_unsafe_ack`; the sentinel has none of the layer bits.
abbrev pub needs_unsafe_ack : Mode → Bool
needs_unsafe_ack auto = true
needs_unsafe_ack (layers m) = is_empty m

-- `mode & NVKVM_ISO_LAYER_UID`
abbrev pub has_uid : Mode → Bool
has_uid auto = false
has_uid (layers m) = m.uid

abbrev pub has_chroot : Mode → Bool
has_chroot auto = false
has_chroot (layers m) = m.chroot
