-- ===== src/Isolate/Uids.antt =====
-- The user ids that a namespace maps, the window of isolates in them, and the id of a slot.
use nvkvm_pv.Base.{
  ℕ, ◌+◌, ◌-◌, ◌%◌, ◌^◌, Bool, true, false, not, ◌&&◌, ◌||◌, Option, none, some, List, [], ◌∷◌,
  length, if◌then◌else◌, ltb, leb, ◌==◌,
}
use nvkvm_pv.Base.Words.{add64, sub64}

abbrev pub uid_base_default : ℕ
uid_base_default = 500000

abbrev pub uid_slots : ℕ
uid_slots = 4096

abbrev pub uid_base_min : ℕ
uid_base_min = 65536

abbrev pub uid_base_max : ℕ
uid_base_max = 4294901760 - uid_slots

abbrev pub uid_top : ℕ
uid_top = 2147483646

pub record UidMap : Type 0 where
  pub lo : ℕ
  pub hi : ℕ
  pub identity : Bool

-- The largest range of the file, as its start and its count; the first of equal ones.
abbrev pub largest : List (ℕ × ℕ) → ℕ × ℕ → ℕ × ℕ
largest [] best = best
largest ((inside, count) ∷ rs) best =
    largest rs (if ltb best.1 count then (inside, count) else best)

-- `nvkvm_uidmap_get`, for the ranges of /proc/self/uid_map if it can be read.
unfoldable pub uidmap_of : List (ℕ × ℕ) → UidMap
uidmap_of rs =
    let best = largest rs (0, 0) in
    let hi = sub64 (add64 best.0 best.1) 1 in
    if best.1 == 0 then record { lo = 0; hi = uid_top; identity = true } else record {
      lo = best.0 % 2 ^ 32;
      hi = if ltb uid_top hi then uid_top else hi;
      identity = length rs == 1 && best.0 == 0 && leb 4294967294 best.1;
    }

abbrev pub uidmap_get : Option (List (ℕ × ℕ)) → UidMap
uidmap_get none = record { lo = 0; hi = uid_top; identity = true }
uidmap_get (some rs) = uidmap_of rs

-- `nvkvm_uidmap_fits`
unfoldable pub uidmap_fits : UidMap → ℕ → ℕ → Bool
uidmap_fits m base slots =
    if slots == 0 || base == 0
    then false
    else if ltb base m.lo || ltb m.hi base
    then false
    else leb (sub64 (add64 base slots) 1) m.hi

-- `nvkvm_uidmap_place`
unfoldable pub uidmap_place : UidMap → ℕ → ℕ
uidmap_place m slots =
    let base = add64 (sub64 m.hi slots) 1 in
    if slots == 0 || ltb (add64 (sub64 m.hi m.lo) 1) slots
    then 0
    else (if leb base m.lo then (if not (m.lo == 0) then m.lo else 1) else base) % 2 ^ 32

-- `nvkvm_iso_uid_for_slot`
unfoldable pub uid_for_slot : ℕ → ℕ → Option ℕ
uid_for_slot base slot =
    if leb uid_slots slot
    then none
    else if ltb base uid_base_min || ltb uid_base_max base
    then none
    else some ((base + slot) % 2 ^ 32)
