-- ===== src/Isolate/Confined.antt =====
-- What a configuration that is resolved and passes the check looks like.
use nvkvm_pv.Base.{
  ℕ, ◌+◌, ◌%◌, ◌^◌, ◌≤◌, ◌<◌, ◌≡◌, refl, sym, ◌∙◌, ap, subst, ◌⊎◌, inl, inr, Bool, true, false,
  ◌||◌, Option, none, some, ltb, leb, arith, Bool-cases, Option-cases,
}
use nvkvm_pv.Isolate.Mode.{Layers, Mode, layers, is_empty, has_uid}
use nvkvm_pv.Isolate.Uids.{
  uidmap_get, uid_for_slot, uid_slots, uid_base_min, uid_base_max, uid_base_default,
}
use nvkvm_pv.Isolate.Config.{
  Host, Env, Cfg, cfg_validate, wanted_mode, configured_base, mapped_base, settle, cfg_resolve,
}
use nvkvm_pv.Isolate.Window.{AreRanges, uidmap_get-IsMap, Maps, mapped_base-low}

-- The parts of a configuration that was resolved.
abbrev pub Parts : Env → Host → Cfg → Type 0
Parts e h c =
    (m : Mode) × (base : ℕ × Bool) × (wanted_mode e e.mode ≡ some m)
    × (configured_base e.base ≡ some base)
    × (mapped_base (uidmap_get h.uid_map) base.0 base.1 ≡ some c.uid_base)
    × (settle e h m ≡ some c.mode)

pub cfg_resolve-Parts : (e : Env) (h : Host) (c : Cfg) → cfg_resolve e h ≡ some c → Parts e h c
unfolding cfg_resolve
cfg_resolve-Parts e h c q = elim (Option-cases (wanted_mode e e.mode)) [
  | inl a ↦ let z : ◌≡◌ {A = Option Cfg} none (some c) = rw a at q in cc
  | inr (m, a) ↦ elim (Option-cases (configured_base e.base)) [
    | inl b ↦ let z : ◌≡◌ {A = Option Cfg} none (some c) = rw (a, b) at q in cc
    | inr (base, b) ↦ elim (Option-cases (mapped_base (uidmap_get h.uid_map) base.0 base.1)) [
      | inl d ↦ let z : ◌≡◌ {A = Option Cfg} none (some c) = rw (a, b, d) at q in cc
      | inr (placed, d) ↦ elim (Option-cases (settle e h m)) [
        | inl f ↦ let z : ◌≡◌ {A = Option Cfg} none (some c) = rw (a, b, d, f) at q in cc
        | inr (last, f) ↦
            let z : ◌≡◌ {A = Option Cfg}
                (some (record { mode = last; uid_base = placed; uid_base_explicit = base.1 }))
                (some c) =
              rw (a, b, d, f) at q in
            let w : record { mode = last; uid_base = placed; uid_base_explicit = base.1 } ≡ c =
              cc in
            (
              m,
              base,
              a,
              b,
              d ∙ ap (λ (x : Cfg). some x.uid_base) w,
              f ∙ ap (λ (x : Cfg). some x.mode) w,
            )
      ]
    ]
  ]
]

-- What every slot of a window gets.
abbrev pub Numbered : ℕ → Type 0
Numbered base =
    (slot : ℕ)
    → slot < uid_slots
    → (uid_for_slot base slot ≡ some (base + slot)) × (65536 ≤ base + slot)

pub record IsConfined (e : Env) (h : Host) (c : Cfg) : Type 0 where
  pub mode :
      (k : Layers) × (c.mode ≡ layers k)
      × ((k.seccomp ≡ true) ⊎ ((is_empty k ≡ true) × (e.ack ≡ true)))
      × ((k.chroot ≡ false) ⊎ ((k.uid ≡ true) × (k.ns ≡ false)))
  pub uids :
      (has_uid c.mode ≡ false)
      ⊎ (Numbered c.uid_base
          × (Maps (uidmap_get h.uid_map) c.uid_base
              ⊎ ((uidmap_get h.uid_map).hi < (uidmap_get h.uid_map).lo + 4095)))

validated-Numbered :
    (h : Host) (c : Cfg)
    → has_uid c.mode ≡ true
    → cfg_validate h c ≡ true
    → (uid_base_min ≤ c.uid_base) × Numbered c.uid_base
unfolding cfg_validate uid_for_slot
validated-Numbered h c u v =
    elim (Bool-cases (ltb c.uid_base uid_base_min || ltb uid_base_max c.uid_base)) [
      | inl a ↦ let z : false ≡ true = rw (u, a) at v in cc
      | inr a ↦ (
        ground arith,
        λ slot l.
            let b : leb uid_slots slot ≡ false = ground arith in
            let k : (c.uid_base + slot) % 2 ^ 32 ≡ c.uid_base + slot = ground arith in
            (rw (b, a, k) refl, ground arith),
      )
    ]

-- In a namespace whose highest id is below 69631, as with the usual 65536 ids, no mode with
-- separate user ids works without a configured base: the check refuses the base to which the
-- window moves, or the ids that the slots get are not mapped.
pub cfg_resolve-low_map :
    (e : Env) (h : Host) (c : Cfg)
    → AreRanges h.uid_map
    → (uidmap_get h.uid_map).hi < 69631
    → e.base ≡ none
    → cfg_resolve e h ≡ some c
    → has_uid c.mode ≡ true
    → (cfg_validate h c ≡ false)
      ⊎ ((slot : ℕ)
          → slot < uid_slots
          → (uid : ℕ) × (uid_for_slot c.uid_base slot ≡ some uid)
            × ((uidmap_get h.uid_map).hi < uid))
cfg_resolve-low_map e h c r l n q u = elim (Bool-cases (cfg_validate h c)) [
  | inr v ↦ inl v
  | inl v ↦
      let (m, base, a, b, d, f) = cfg_resolve-Parts e h c q in
      let (lower, numbered) = validated-Numbered h c u v in
      let z : ◌≡◌ {A = Option (ℕ × Bool)} (some (uid_base_default, false)) (some base) =
        sym (ap configured_base n) ∙ b in
      let w : (uid_base_default, false) ≡ base = cc in
      let d' : mapped_base (uidmap_get h.uid_map) uid_base_default false ≡ some c.uid_base =
        subst (λ (x : ℕ × Bool). mapped_base (uidmap_get h.uid_map) x.0 x.1 ≡ some c.uid_base)
          (sym w) d in
      elim (mapped_base-low (uidmap_get h.uid_map) c.uid_base (uidmap_get-IsMap h.uid_map r) l d') [
        | inl x ↦ absurd (omega arith)
        | inr x ↦ inr (λ slot k. (c.uid_base + slot, (numbered slot k).0, omega arith))
      ]
]
