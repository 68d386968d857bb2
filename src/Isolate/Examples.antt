-- ===== src/Isolate/Examples.antt =====
-- The configuration of isolates at concrete inputs.
use nvkvm_pv.Base.{ℕ, ◌<◌, ◌≡◌, ◌⊎◌, refl, true, false, none, some, Option, List, [], ◌∷◌, arith}
use nvkvm_pv.Isolate.Mode.{
  t_uid, t_chroot, t_uidsep, t_ns, t_none, layers, no_layers, mode_parse, see_all,
}
use nvkvm_pv.Isolate.Uids.{
  uidmap_of, uidmap_get, uidmap_fits, uidmap_place, uid_for_slot, uid_slots,
}
use nvkvm_pv.Isolate.Config.{Host, Env, Cfg, mapped_base, settle, cfg_resolve, cfg_validate}
use nvkvm_pv.Isolate.Confined.{cfg_resolve-low_map}

-- Modes that are accepted and refused.
modes :
    (mode_parse 3 (t_uid ∷ []) ≡ some (layers (record no_layers { uid = true; seccomp = true })))
    × (mode_parse 6 (t_chroot ∷ []) ≡ none)
    × (mode_parse 9 (t_ns ∷ t_chroot ∷ t_uidsep ∷ []) ≡ none)
    × (mode_parse 4 (t_none ∷ []) ≡ some (layers no_layers))
    × (mode_parse 8 (t_none ∷ t_uid ∷ []) ≡ none)
unfolding mode_parse see_all
modes = (refl, refl, refl, refl, refl)

-- A container with the capabilities for separate user ids, but without namespaces.
abbrev host : Option (List (ℕ × ℕ)) → Host
host uid_map = record {
  namespaces = false;
  caps = some (record { setuid = true; setgid = true; chroot = true });
  node_rw = some true;
  seccomp = true;
  uid_map = uid_map;
}

abbrev env : Env
env = record { mode = some (3, t_uid ∷ []); no_harden = false; base = none; ack = false }

abbrev cfg_at : ℕ → Cfg
cfg_at base = record {
  mode = layers (record no_layers { uid = true; seccomp = true });
  uid_base = base;
  uid_base_explicit = false;
}

-- The usual range of a container: the window moves to 61440.
abbrev remapped : Host
remapped = host (some ((0, 65536) ∷ []))

moved : cfg_resolve env remapped ≡ some (cfg_at 61440)
unfolding cfg_resolve mode_parse see_all mapped_base uidmap_of uidmap_fits uidmap_place settle
moved = refl

cfg_resolve-low_map_example :
    (cfg_validate remapped (cfg_at 61440) ≡ false)
    ⊎ ((slot : ℕ)
        → slot < uid_slots
        → (uid : ℕ) × (uid_for_slot 61440 slot ≡ some uid)
          × ((uidmap_get (some ((0, 65536) ∷ []))).hi < uid))
unfolding uidmap_of
cfg_resolve-low_map_example =
    cfg_resolve-low_map env remapped (cfg_at 61440) ((omega arith, omega arith), tt) (omega arith)
      refl moved refl
