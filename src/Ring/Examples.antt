-- ===== src/Ring/Examples.antt =====
-- The ring at concrete inputs: 64 bytes, counters near the end of the area.
use nvkvm_pv.Base.{ℕ, ◌-◌, ◌≤◌, ◌≡◌, refl, true, some, arith}
use nvkvm_pv.Ring.{
  Ring, found, rec_size, rec_len, size_ok, read32, write32, write_header, place, reserve, commit,
  judge, look, peek, alone,
}
use nvkvm_pv.Ring.Bounds.{Inside, Kept, look-Inside, reserve-Kept}
use nvkvm_pv.Ring.Spill.{reserve_spills}
use nvkvm_pv.Ring.Peek.{Answered, peek-Answered}
use nvkvm_pv.Ring.RoundTrip.{Delivers, reserve-Delivers}

abbrev at : ℕ → Ring
at n = record { head = n; tail = n; bytes = λ b. 7 }

-- One record of 16 bytes at the start.
abbrev one : Ring
one = record { head = 0; tail = 16; bytes = write_header (λ b. 7) 0 16 1 }

look-Inside_example : Inside 64 8 8 16
unfolding look judge read32 write_header write32
look-Inside_example = look-Inside one 64 8 8 16 seen
  where
    seen : look one 64 ≡ found 8 8 16
    seen = refl

reserve-Kept_example : let v = reserve (at 48) 64 20 in Kept (at 48) 64 20 v.0 v.1
reserve-Kept_example = reserve-Kept (at 48) 64 20 (omega arith) (omega arith)

reserve_spills_example : read32 (reserve (at 60) 64 20).1.bytes 64 ≡ 0
unfolding size_ok
reserve_spills_example =
    reserve_spills (at 60) 64 20 ok (omega arith) (omega arith) (omega arith) refl (omega arith)
      refl
  where
    ok : size_ok 64 ≡ true
    ok = refl

peek-Answered_example : Answered 64 (peek alone one 64)
peek-Answered_example = peek-Answered alone one 64 (λ k r. (refl, refl)) (omega arith)

reserve-Delivers_example :
    (20 ≤ rec_len 20 - rec_size)
    × Delivers (commit (reserve (at 48) 64 20).1 48) 64 8 (rec_len 20 - rec_size)
unfolding reserve size_ok place
reserve-Delivers_example =
    reserve-Delivers (at 48) 64 20 (record { pay = 8; total = 48 }) (omega arith) refl (omega arith)
      refl reserved
  where
    reserved : (reserve (at 48) 64 20).0 ≡ some (record { pay = 8; total = 48 })
    reserved = refl
