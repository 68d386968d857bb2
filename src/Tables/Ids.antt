-- ===== src/Tables/Ids.antt =====
-- Ids that carry a generation, and the search for a free slot that the tables share.
use nvkvm_pv.Base.{
  ℕ, zero, suc, ◌+◌, ◌*◌, ◌/◌, ◌%◌, ◌^◌, Bool, ◌||◌, Option, none, some, if◌then◌else◌, ◌==◌,
}

-- `id_pack` of a generation and a slot of 16 bits; the two parts share no bit.
abbrev pub id_pack : ℕ → ℕ → ℕ
id_pack gen slot = gen * 4096 + slot % 4096

abbrev pub id_slot : ℕ → ℕ
id_slot id = id % 4096

abbrev pub id_gen : ℕ → ℕ
id_gen id = id / 4096 % 2 ^ 16

abbrev pub after_gen : ℕ → ℕ
after_gen g = (g + 1) % 2 ^ 16

-- `next_slot` after slot `s` of `max` was taken.
abbrev pub after_slot : ℕ → ℕ → ℕ
after_slot max s = if (s + 1) % max == 0 then 1 else (s + 1) % max

-- The loop over `i`, of which `k` rounds are left, that looks for a slot which is not in use.
unfoldable pub search : ℕ → (ℕ → Bool) → ℕ → ℕ → ℕ → Option ℕ
search max used next i zero = none
search max used next i (suc k) =
    let s = (next + i) % max in
    let rest = search max used next (suc i) k in if s == 0 || used s then rest else some s
