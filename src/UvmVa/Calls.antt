-- ===== src/UvmVa/Calls.antt =====
-- Which ranges a command that uses or frees one can name.
use nvkvm_pv.Base.{
  ℕ, ◌+◌, ◌^◌, ◌≤◌, ◌<◌, ◌≡◌, ◌≢◌, refl, true, not, ◌&&◌, ◌==◌, arith, inl, inr, Bool-cases, All,
  All-get_elem?, All-set, All-swap_remove, some, get_elem?,
}
use nvkvm_pv.UvmVa.Ranges.{uvm_va_sane, uvm_va_covers}
use nvkvm_pv.UvmVa.Gate.{
  VaMode, create, use_range, free, Request, length_for, admits, recorded, Outcome, uvm_check,
}
use nvkvm_pv.UvmVa.Events.{
  Worker, looked, asked, Served, Step, look, admit, accept, leave, purge, Reach, here, next,
  after_accept, fresh, IsSized,
}
use nvkvm_pv.UvmVa.Owned.{
  Owns, uvm_va_add-Owns, uvm_va_covers-Owns, uvm_va_len_at-Owns, uvm_va_drop-Owns,
  uvm_va_purge_handle-Owns,
}

-- What a worker's command is.
abbrev pub IsFair : Worker → Type 0
IsFair (looked q len) = IsSized q × (len < 2 ^ 64)
IsFair (asked q len) = IsSized q × (q.va_base + len < 2 ^ 64)

record IsValid (s : Served) : Type 0 where
  backed : (h b l : ℕ) → h ≢ 0 → Owns s.table h b l → (s.granted h b l ≡ true) × (b + l < 2 ^ 64)
  fair : All IsFair s.workers

-- What holds of the ranges after the driver accepted a command.
recorded-backed :
    (s : Served) (handle : ℕ) (mode : VaMode) (base len : ℕ)
    → base + len < 2 ^ 64
    → IsValid s
    → (h b l : ℕ) → h ≢ 0
    → Owns (recorded s.table handle mode base len) h b l
    → (after_accept s.granted handle mode base len h b l ≡ true) × (b + l < 2 ^ 64)
unfolding recorded
recorded-backed s handle create base len w v h b l z o =
    elim (uvm_va_add-Owns s.table handle base len h b l z o) [
      | inl p ↦ let (x, y) = v.backed h b l z p in (ground arith, y)
      | inr (x, y, e) ↦ (ground arith, omega arith)
    ]
recorded-backed s handle use_range base len w v h b l z o = v.backed h b l z o
recorded-backed s handle free base len w v h b l z o =
    let (p, n) = uvm_va_drop-Owns s.table handle base len h b l z o in
    let (x, y) = v.backed h b l z p in (ground (arith, x, n, y, w), y)

uvm_va_sane_lem :
    (base len : ℕ)
    → base < 2 ^ 64
    → len < 2 ^ 64
    → uvm_va_sane base len ≡ true
    → base + len < 2 ^ 64
unfolding uvm_va_sane
uvm_va_sane_lem base len x y h = ground arith

-- A command that passes the check.
uvm_check-forwarded :
    (s : Served) (q : Request) (len base len' : ℕ)
    → uvm_check s.table q len ≡ Outcome.forwarded base len'
    → (q.va_base ≡ base)
      × (len ≡ len')
      × (uvm_va_sane q.va_base len ≡ true)
      × (admits s.table q.handle_id q.mode q.va_base len ≡ true)
unfolding uvm_check
uvm_check-forwarded s q len base len' h = elim (Bool-cases (q.va_base == 0 && len == 0)) [
  | inl a ↦ let z : Outcome.untracked ≡ Outcome.forwarded base len' = rw a at h in cc
  | inr a ↦ elim (Bool-cases (uvm_va_sane q.va_base len)) [
    | inl b ↦ elim (Bool-cases (admits s.table q.handle_id q.mode q.va_base len)) [
      | inl c ↦
          let z : Outcome.forwarded q.va_base len ≡ Outcome.forwarded base len' =
            rw (a, b, c) at h in
          (cc, cc, b, c)
      | inr c ↦ let z : Outcome.refused ≡ Outcome.forwarded base len' = rw (a, b, c) at h in cc
    ]
    | inr b ↦ let z : Outcome.refused ≡ Outcome.forwarded base len' = rw (a, b) at h in cc
  ]
]

length_for_lt :
    (s : Served) (handle : ℕ) (mode : VaMode) (base len : ℕ)
    → handle ≢ 0
    → len < 2 ^ 64
    → IsValid s
    → length_for s.table handle mode base len < 2 ^ 64
length_for_lt s handle create base len z w v = w
length_for_lt s handle use_range base len z w v = w
length_for_lt s handle free base len z w v = elim (Bool-cases (len == 0 && not (base == 0))) [
  | inl a ↦ rw a (elim (uvm_va_len_at-Owns s.table handle base) [
    | inl e ↦ omega (arith, e)
    | inr o ↦ let (x, y) = v.backed handle base _ z o in omega arith
  ])
  | inr a ↦ rw a w
]

Step-IsValid : {s t : Served} → Step s t → IsValid s → IsValid t
Step-IsValid {s} (look q z) v = record {
  backed = v.backed;
  fair = ((z, length_for_lt s q.handle_id q.mode q.va_base q.va_len z.0 z.2 v), v.fair);
}
Step-IsValid {s} (admit k q len g c) v =
    let (z, l) = All-get_elem? IsFair s.workers k (looked q len) v.fair g in
    let (x, y, sane, a) = uvm_check-forwarded s q len q.va_base len c in
    let e = uvm_va_sane_lem q.va_base len z.1 l sane in
    record { backed = v.backed; fair = All-set IsFair s.workers k (asked q len) v.fair (z, e) }
Step-IsValid {s} (accept k q len g) v =
    let (z, l) = All-get_elem? IsFair s.workers k (asked q len) v.fair g in
    record {
      backed = recorded-backed s q.handle_id q.mode q.va_base len l v;
      fair = All-swap_remove IsFair s.workers k v.fair;
    }
Step-IsValid {s} (leave k) v = record {
  backed = v.backed;
  fair = All-swap_remove IsFair s.workers k v.fair;
}
Step-IsValid {s} (purge handle n) v = record {
  backed = λ h b l z o.
      let (p, d) = uvm_va_purge_handle-Owns s.table handle h b l n z o in
      let (x, y) = v.backed h b l z p in (rw (x, d) refl, y);
  fair = v.fair;
}

Reach-IsValid : {s t : Served} → Reach s t → IsValid s → IsValid t
Reach-IsValid here v = v
Reach-IsValid (next r st) v = Step-IsValid st (Reach-IsValid r v)

fresh-IsValid : IsValid fresh
fresh-IsValid = record { backed = λ h b l z o. absurd (z (ground (arith, o.matches))); fair = tt }

pub Reach-IsFair : {s : Served} → Reach fresh s → All IsFair s.workers
Reach-IsFair r = (Reach-IsValid r fresh-IsValid).fair

-- Over any interleaving of the parts of commands and of ends of address spaces, for open handles and
-- fields of their widths: where a worker checks a command other than a creation, with the length
-- that was looked up for it, and the command goes to the driver, it names a range inside a single
-- range the creation of which was recorded for the handle. Since then the handle was not purged,
-- and no free was recorded that starts where the range does and is at least as long.
pub Reach-granted :
    (s : Served) (k : ℕ) (q : Request) (len base len' : ℕ)
    → Reach fresh s
    → get_elem? s.workers k ≡ some (looked q len)
    → q.mode ≢ create
    → uvm_check s.table q len ≡ Outcome.forwarded base len'
    → (b : ℕ) × (l : ℕ) × (s.granted q.handle_id b l ≡ true) × (b ≤ base) × (base + len' ≤ b + l)
Reach-granted s k q len base len' r g m c =
    let v = Reach-IsValid r fresh-IsValid in
    let (z, w) = All-get_elem? IsFair s.workers k (looked q len) v.fair g in
    let (x, y, sane, adm) = uvm_check-forwarded s q len base len' c in
    let e = uvm_va_sane_lem q.va_base len z.1 w sane in
    let (b, l, o, i, j) =
      uvm_va_covers-Owns s.table q.handle_id q.va_base len (covered q.mode m adm) in
    let (f, n) = v.backed q.handle_id b l z.0 o in (b, l, f, omega arith, omega arith)
  where
    covered :
        (mode : VaMode)
        → mode ≢ create
        → admits s.table q.handle_id mode q.va_base len ≡ true
        → uvm_va_covers s.table q.handle_id q.va_base len ≡ true
    covered create m h = absurd (m refl)
    covered use_range m h = h
    covered free m h = h
