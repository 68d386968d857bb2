-- ===== src/UvmVa/Examples.antt =====
-- Concrete commands.
use nvkvm_pv.Base.{
  swap_remove, subst, sym, some, update, ◌==◌, ℕ, ◌+◌, ◌≤◌, ◌≡◌, ◌⊎◌, refl, true, false, arith, ◌∷◌,
  [],
}
use nvkvm_pv.UvmVa.Ranges.{
  Ranges, uvm_va_max, is_range, find_ent, uvm_va_sane, uvm_va_add, uvm_va_covers, uvm_va_len_at,
}
use nvkvm_pv.UvmVa.Gate.{create, use_range, free, Request, Outcome, length_for, uvm_check, recorded}
use nvkvm_pv.UvmVa.Events.{
  Served, looked, look, admit, accept, Reach, here, next, fresh, after_accept,
}
use nvkvm_pv.UvmVa.Owned.{Owns, find_ent-none_of}
use nvkvm_pv.UvmVa.Calls.{Reach-granted}
use nvkvm_pv.UvmVa.Counts.{Reach-recorded}
use nvkvm_pv.UvmVa.Partial.{partial_free}

-- Handle 3 creates a range of 64 KiB, and frees it by its base.
abbrev creation : Request
creation = record { handle_id = 3; mode = create; va_base = 65536; va_len = 65536 }

abbrev created : Ranges
created = recorded fresh.table 3 create 65536 65536

abbrev migration : Request
migration = record { handle_id = 3; mode = use_range; va_base = 69632; va_len = 8192 }

abbrev end : Request
end = record { handle_id = 3; mode = free; va_base = 65536; va_len = 0 }

abbrev with_range : Ranges
with_range = record {
  ent = update fresh.table.ent 0 (record { handle_id = 3; base = 65536; va_len = 65536 });
  va_used = 1;
}

free_slot : find_ent uvm_va_max 0 (λ e. e.handle_id == 0) fresh.table.ent ≡ some 0
unfolding find_ent
free_slot = refl

created_lem : created ≡ with_range
unfolding recorded uvm_va_add
created_lem =
    rw
      (
        recorded,
        uvm_va_add,
        find_ent-none_of uvm_va_max 0 (is_range 3 65536 65536) fresh.table.ent (λ j. refl),
        free_slot,
      )
      refl

migration_forwarded : uvm_check created migration 8192 ≡ Outcome.forwarded 69632 8192
unfolding uvm_check uvm_va_sane uvm_va_covers find_ent
migration_forwarded =
    let e : uvm_check with_range migration 8192 ≡ Outcome.forwarded 69632 8192 = refl in
    subst (λ (t : Ranges). uvm_check t migration 8192 ≡ Outcome.forwarded 69632 8192)
      (sym created_lem) e

end_forwarded :
    (length_for with_range 3 free 65536 0 ≡ 65536)
    × (uvm_check with_range end 65536 ≡ Outcome.forwarded 65536 65536)
unfolding uvm_check uvm_va_sane uvm_va_covers uvm_va_len_at find_ent
end_forwarded = (refl, refl)

-- The creation is looked up, checked and recorded, and the migration is looked up.
abbrev served : Served
served = record {
  table = created;
  granted = after_accept fresh.granted 3 create 65536 65536;
  workers = looked migration 8192 ∷ [];
}

creation_forwarded : uvm_check fresh.table creation 65536 ≡ Outcome.forwarded 65536 65536
unfolding uvm_check uvm_va_sane
creation_forwarded = refl

reaches : Reach fresh served
unfolding swap_remove
reaches =
    next
      (next
        (next (next here (look creation (omega arith, omega arith, omega arith)))
          (admit 0 creation 65536 refl creation_forwarded))
        (accept 0 creation 65536 refl))
      (look migration (omega arith, omega arith, omega arith))

Reach-granted_example :
    (b : ℕ) × (l : ℕ) × (served.granted 3 b l ≡ true) × (b ≤ 69632) × (69632 + 8192 ≤ b + l)
Reach-granted_example =
    Reach-granted served 0 migration 8192 69632 8192 reaches refl (λ e. cc) migration_forwarded

Reach-recorded_example :
    (((uvm_va_add served.table 3 262144 4096).0 ≡ true)
      × Owns (uvm_va_add served.table 3 262144 4096).1 3 262144 4096)
    ⊎ ((uvm_va_add served.table 3 262144 4096 ≡ (false, served.table))
        × (served.table.va_used ≡ uvm_va_max))
Reach-recorded_example = Reach-recorded served 3 262144 4096 reaches (omega arith)

partial_free_example :
    (uvm_check with_range
        (record { handle_id = 3; mode = free; va_base = 65536; va_len = 4096 })
        4096
      ≡ Outcome.forwarded 65536 4096)
    × (uvm_check (recorded with_range 3 free 65536 4096) migration 8192
        ≡ Outcome.forwarded 69632 8192)
partial_free_example =
    partial_free with_range 3 65536 65536 4096 69632 8192
      (record { index = 0; in_table = omega arith; matches = refl }) (omega arith) (omega arith)
      (omega arith) (omega arith) (omega arith) (omega arith) (omega arith) (omega arith)
      (omega arith) (omega arith)
