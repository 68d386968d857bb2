-- ===== src/Isolate/Rungs.antt =====
-- The modes that the parser and the choice of a mode give, and the rungs.
use nvkvm_pv.Base.{
  ℕ, ◌≡◌, refl, subst, inl, inr, Bool, true, false, not, ◌&&◌, ◌||◌, Option, none, some, List,
  if◌then◌else◌, leb, ◌==◌, arith, Bool-cases, Option-cases,
}
use nvkvm_pv.Isolate.Mode.{
  Layers, Mode, auto, layers, no_layers, is_empty, is_confining, with_seccomp, Token, Seen,
  combined, see_all, mode_parse, nothing_seen,
}
use nvkvm_pv.Isolate.Config.{Host, Env, auto_select, wanted_mode, settle, can_chroot, probe_uid}

-- Layers that are one of the rungs: a filter of system calls under every other layer, and a changed
-- root only with separate user ids and without namespaces.
pub record IsRung (m : Layers) : Type 0 where
  pub filtered : is_empty m ≡ false → m.seccomp ≡ true
  pub rooted : m.chroot ≡ true → (m.uid ≡ true) × (m.ns ≡ false)

abbrev pub IsRungMode : Mode → Type 0
IsRungMode auto = Unit
IsRungMode (layers m) = IsRung m

with_seccomp-IsRung :
    (k : Layers) (b : Bool)
    → (k.chroot && not k.uid) ≡ false
    → (k.chroot && k.ns) ≡ false
    → IsRung (if b then no_layers else with_seccomp k)
with_seccomp-IsRung k true u n = record { filtered = λ e. cc; rooted = λ e. cc }
with_seccomp-IsRung k false u n = elim (Bool-cases (is_confining k)) [
  | inl c ↦ rw c (record { filtered = λ e. refl; rooted = λ e. (ground arith, ground arith) })
  | inr c ↦
      rw c (record { filtered = λ e. ground arith; rooted = λ e. (ground arith, ground arith) })
]

some_mode : (k m : Mode) → ◌≡◌ {A = Option Mode} (some k) (some m) → IsRungMode k → IsRungMode m
some_mode k m q v = let e : k ≡ m = cc in subst IsRungMode e v

combined-IsRung : (s : Seen) (m : Mode) → combined s ≡ some m → IsRungMode m
combined-IsRung s m h = elim (Bool-cases s.saw_any) [
  | inr a ↦ let q : ◌≡◌ {A = Option Mode} none (some m) = rw a at h in cc
  | inl a ↦ elim (Bool-cases (s.saw_none && (not (is_empty s.mask) || s.saw_auto))) [
    | inl b ↦ let q : ◌≡◌ {A = Option Mode} none (some m) = rw (a, b) at h in cc
    | inr b ↦ elim (Bool-cases (s.saw_auto && not (is_empty s.mask))) [
      | inl c ↦ let q : ◌≡◌ {A = Option Mode} none (some m) = rw (a, b, c) at h in cc
      | inr c ↦ elim (Bool-cases s.saw_auto) [
        | inl d ↦ some_mode auto m (rw (a, b, c, d) at h) tt
        | inr d ↦ elim (Bool-cases (s.mask.chroot && not s.mask.uid)) [
          | inl e ↦ let q : ◌≡◌ {A = Option Mode} none (some m) = rw (a, b, c, d, e) at h in cc
          | inr e ↦ elim (Bool-cases (s.mask.chroot && s.mask.ns)) [
            | inl f ↦ let q : ◌≡◌ {A = Option Mode} none (some m) = rw (a, b, c, d, e, f) at h in cc
            | inr f ↦
                some_mode (layers (if s.saw_none then no_layers else with_seccomp s.mask)) m
                  (rw (a, b, c, d, e, f) at h) (with_seccomp-IsRung s.mask s.saw_none e f)
          ]
        ]
      ]
    ]
  ]
]

mode_parse-IsRung :
    (len : ℕ) (ts : List Token) (m : Mode) → mode_parse len ts ≡ some m → IsRungMode m
unfolding mode_parse
mode_parse-IsRung len ts m h = elim (Bool-cases (len == 0)) [
  | inl a ↦ let q : ◌≡◌ {A = Option Mode} none (some m) = rw a at h in cc
  | inr a ↦ elim (Bool-cases (leb 128 len)) [
    | inl b ↦ let q : ◌≡◌ {A = Option Mode} none (some m) = rw (a, b) at h in cc
    | inr b ↦ elim (Option-cases (see_all ts nothing_seen)) [
      | inl c ↦ let q : ◌≡◌ {A = Option Mode} none (some m) = rw (a, b, c) at h in cc
      | inr (s, c) ↦ combined-IsRung s m (rw (a, b, c) at h)
    ]
  ]
]

hatch-IsRung :
    (b : Bool) (m : Mode)
    → (if b then some (layers (record no_layers { seccomp = true })) else some auto) ≡ some m
    → IsRungMode m
hatch-IsRung true m h =
    some_mode (layers (record no_layers { seccomp = true })) m h
      (record { filtered = λ e. refl; rooted = λ e. cc })
hatch-IsRung false m h = some_mode auto m h tt

pub wanted_mode-IsRung :
    (e : Env) (o : Option (ℕ × List Token)) (m : Mode) → wanted_mode e o ≡ some m → IsRungMode m
wanted_mode-IsRung e none m h = hatch-IsRung e.no_harden m h
wanted_mode-IsRung e (some (len, ts)) m h = elim (Bool-cases (len == 0)) [
  | inl a ↦ hatch-IsRung e.no_harden m (rw a at h)
  | inr a ↦ mode_parse-IsRung len ts m (rw a at h)
]

-- A mode that was settled: layers, which are not empty without the acknowledgement.
abbrev pub Settled : Env → Mode → Type 0
Settled e last = (k : Layers) × (last ≡ layers k) × IsRung k × (is_empty k ≡ true → e.ack ≡ true)

auto_select-Settled :
    (e : Env) (h : Host) (k : Layers) → auto_select h ≡ some k → IsRung k × (is_empty k ≡ false)
unfolding auto_select
auto_select-Settled e h k q = elim (Bool-cases h.namespaces) [
  | inl a ↦
      same (record no_layers { ns = true; seccomp = true }) (rw a at q)
        (record { filtered = λ e. refl; rooted = λ e. cc }) refl
  | inr a ↦ elim (Bool-cases (probe_uid h h.caps)) [
    | inl b ↦
        same (record no_layers { uid = true; seccomp = true; chroot = can_chroot h.caps })
          (rw (a, b) at q) (record { filtered = λ e. refl; rooted = λ e. (refl, refl) }) refl
    | inr b ↦ elim (Bool-cases h.seccomp) [
      | inl c ↦
          same (record no_layers { seccomp = true }) (rw (a, b, c) at q)
            (record { filtered = λ e. refl; rooted = λ e. cc }) refl
      | inr c ↦ let z : ◌≡◌ {A = Option Layers} none (some k) = rw (a, b, c) at q in cc
    ]
  ]
]
  where
    same :
        (j : Layers)
        → ◌≡◌ {A = Option Layers} (some j) (some k)
        → IsRung j
        → is_empty j ≡ false
        → IsRung k × (is_empty k ≡ false)
    same j q v n =
        let e : j ≡ k = cc in subst (λ (x : Layers). IsRung x × (is_empty x ≡ false)) e (v, n)

pub settle-Settled :
    (e : Env) (h : Host) (m last : Mode) → IsRungMode m → settle e h m ≡ some last → Settled e last
unfolding settle
settle-Settled e h auto last v q = elim (Option-cases (auto_select h)) [
  | inl a ↦ let z : ◌≡◌ {A = Option Mode} none (some last) = rw a at q in cc
  | inr (k, a) ↦
      let z : ◌≡◌ {A = Option Mode} (some (layers k)) (some last) = rw a at q in
      let (w, n) = auto_select-Settled e h k a in (k, cc, w, λ y. cc)
]
settle-Settled e h (layers m) last v q = elim (Bool-cases (is_empty m && not e.ack)) [
  | inl a ↦ let z : ◌≡◌ {A = Option Mode} none (some last) = rw a at q in cc
  | inr a ↦
      let z : ◌≡◌ {A = Option Mode} (some (layers m)) (some last) = rw a at q in
      (m, cc, v, λ y. ground arith)
]
