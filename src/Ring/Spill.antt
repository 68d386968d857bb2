-- ===== src/Ring/Spill.antt =====
-- A counter that the peer has set to an odd place.
use nvkvm_pv.Base.{
  ℕ, ◌+◌, ◌-◌, ◌%◌, ◌^◌, ◌≤◌, ◌<◌, ◌≡◌, true, false, ◌||◌, leb, ltb, arith, ◌∙◌, inr,
}
use nvkvm_pv.Ring.{
  Ring, rec_data, rec_skip, rec_len, room, place, reserve, size_ok, read32, write_header, write32,
}
use nvkvm_pv.Ring.Bytes.{size_ok-whole, read32-write32, read32_out}

skip_header :
    (m : ℕ → ℕ) (n rec : ℕ)
    → 16 ≤ n
    → read32 (write_header (write_header m (n - 4) 4 rec_skip) 0 rec rec_data) n ≡ 0
unfolding write_header
skip_header m n rec h =
    let outer = write32 (write32 m (n - 4) 4) (n - 4 + 4) 0 in
    let e : n - 4 + 4 ≡ n = omega arith in
    read32_out (write32 outer 0 rec) 4 1 n (inr (omega arith))
    ∙ read32_out outer 0 rec n (inr (omega arith))
    ∙ rw e (read32-write32 (write32 m (n - 4) 4) n 0 (omega arith))

place_spills :
    (r : Ring) (n rec : ℕ)
    → 16 ≤ n
    → 8 ≤ rec
    → rec + 4 ≤ n
    → read32 (place r (n - 4) 4 n rec).1.bytes n ≡ 0
unfolding place
place_spills r n rec h m l =
    let a : leb rec 4 ≡ false = ground arith in
    let b : ltb n (4 + rec) ≡ false = ground arith in simp (a, b) (skip_header r.bytes n rec h)

-- If the ring is empty and both counters are 4 below a multiple of the capacity, the skip record of a
-- reservation that fits an aligned ring puts its second word behind the capacity: the four bytes
-- there become 0.
pub reserve_spills :
    (r : Ring) (size payload : ℕ)
    → size_ok size ≡ true
    → size ≤ 2 ^ 31
    → rec_len payload + 4 ≤ size
    → payload ≤ size
    → r.head ≡ r.tail
    → r.tail < 2 ^ 64
    → r.tail % size ≡ size - 4
    → read32 (reserve r size payload).1.bytes size ≡ 0
unfolding reserve
reserve_spills r size payload ok c l p e b t =
    let (g, z) = size_ok-whole size ok in
    let a : (ltb size (rec_len payload) || ltb size payload) ≡ false = ground arith in
    let f : room r size ≡ size = omega arith in
    let o : size - r.tail % size ≡ 4 = omega arith in
    rw (ok, a, o, t, f) (place_spills r size (rec_len payload) (omega arith) (omega arith) l)
