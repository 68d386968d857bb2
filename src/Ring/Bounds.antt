-- ===== src/Ring/Bounds.antt =====
-- Where an accepted record and a reservation's payload lie.
use nvkvm_pv.Base.{
  ℕ, ◌+◌, ◌-◌, ◌%◌, ◌^◌, ◌≤◌, ◌≡◌, refl, ◌||◌, Option, none, some, inl, inr, leb, ltb, arith, ◌∙◌,
  Bool-cases,
}
use native.Mathlib.Nat.{mod-lt, mod-mod_of_dvd, dvd_of_mod-eq-zero}
use nvkvm_pv.Ring.{
  Ring, Reservation, found, rec_size, rec_data, rec_skip, rec_len, room, place, reserve, judge,
  look, size_ok, read32, write_header, ring_sub64,
}
use nvkvm_pv.Ring.Bytes.{size_ok-whole, write_header_out}

-- The payload and the published bytes of a record that a look at the ring found.
pub record Inside (size pay len total : ℕ) : Type 0 where
  pub payload : pay + len ≤ size
  pub header : total ≡ len + rec_size
  pub aligned : total % 8 ≡ 0

judge-Inside :
    (size avail off len type pay n total : ℕ)
    → judge size avail off len type ≡ found pay n total
    → Inside size pay n total
unfolding judge
judge-Inside size avail off len type pay n total h = record {
  payload = ground arith;
  header = ground arith;
  aligned = ground arith;
}

-- Whatever the counters and the bytes are, a record that is found has its payload inside the
-- capacity, and what it makes the consumer release is the payload and the header, in whole units.
pub look-Inside :
    (r : Ring) (size pay len total : ℕ)
    → look r size ≡ found pay len total
    → Inside size pay len total
unfolding look
look-Inside r size pay len total h =
    judge-Inside size (ring_sub64 r.tail r.head) (r.head % size) (read32 r.bytes (r.head % size))
      (read32 r.bytes (r.head % size + 4)) pay len total h

-- What a reservation leaves: bytes from the capacity on untouched, and a payload inside.
pub record Kept (r : Ring) (size payload : ℕ) (o : Option Reservation) (u : Ring) : Type 0 where
  pub beyond : (b : ℕ) → size ≤ b → u.bytes b ≡ r.bytes b
  pub same_head : u.head ≡ r.head
  pub same_tail : u.tail ≡ r.tail
  pub payload_in : (v : Reservation) → o ≡ some v → (rec_size ≤ v.pay) × (v.pay + payload ≤ size)

unchanged : (r : Ring) (size payload : ℕ) → Kept r size payload none r
unchanged r size payload = record {
  beyond = λ b h. refl;
  same_head = refl;
  same_tail = refl;
  payload_in = λ v e. cc;
}

pub offset_whole : (tail size : ℕ) → size % 8 ≡ 0 → tail % 8 ≡ 0 → tail % size % 8 ≡ 0
offset_whole tail size z t = mod-mod_of_dvd 8 tail (dvd_of_mod-eq-zero 8 z) ∙ t

-- An offset in whole units has room for a header behind it.
pub offset_room : (tail size : ℕ) → 64 ≤ size → size % 8 ≡ 0 → tail % 8 ≡ 0 → tail % size + 8 ≤ size
offset_room tail size s z t =
    let m = offset_whole tail size z t in omega (arith, m, mod-lt tail {m = size} (omega arith))

pub rec_len-le :
    (payload : ℕ)
    → payload ≤ 2 ^ 31
    → (payload + rec_size ≤ rec_len payload) × (rec_len payload % 8 ≡ 0) × (8 ≤ rec_len payload)
rec_len-le payload h = (ground arith, ground arith, ground arith)

place-Kept :
    (r : Ring) (size payload off free rec : ℕ)
    → 8 ≤ size
    → off + 8 ≤ size
    → rec ≤ size
    → 8 ≤ rec
    → payload + rec_size ≤ rec
    → let v = place r off (size - off) free rec in Kept r size payload v.0 v.1
unfolding place
place-Kept r size payload off free rec c o l m p = elim (Bool-cases (leb rec (size - off))) [
  | inl a ↦ elim (Bool-cases (ltb free rec)) [
    | inl b ↦ rw (a, b) (unchanged r size payload)
    | inr b ↦
        rw (a, b)
          (record {
            beyond = λ x h. write_header_out r.bytes off rec rec_data x (inr (omega arith));
            same_head = refl;
            same_tail = refl;
            payload_in = λ v e. ground arith;
          })
  ]
  | inr a ↦ elim (Bool-cases (ltb free (size - off + rec))) [
    | inl b ↦ rw (a, b) (unchanged r size payload)
    | inr b ↦
        rw (a, b)
          (record {
            beyond = λ x h.
                write_header_out (write_header r.bytes off (size - off) rec_skip) 0 rec rec_data x
                  (inr (omega arith))
                ∙ write_header_out r.bytes off (size - off) rec_skip x (inr (omega arith));
            same_head = refl;
            same_tail = refl;
            payload_in = λ v e. ground arith;
          })
  ]
]

-- For a capacity of at most 2^31 bytes and a `tail` in whole units, whatever `head` the peer wrote
-- and whatever the size of the payload, a reservation changes no byte from the capacity on, moves
-- no counter, and a payload area it returns lies behind a header and inside the capacity.
pub reserve-Kept :
    (r : Ring) (size payload : ℕ)
    → size ≤ 2 ^ 31
    → r.tail % 8 ≡ 0
    → let v = reserve r size payload in Kept r size payload v.0 v.1
unfolding reserve
reserve-Kept r size payload c t = elim (Bool-cases (size_ok size)) [
  | inr a ↦ rw a (unchanged r size payload)
  | inl a ↦ elim (Bool-cases (ltb size (rec_len payload) || ltb size payload)) [
    | inl b ↦ rw (a, b) (unchanged r size payload)
    | inr b ↦
        let (s, z) = size_ok-whole size a in
        let (p, q, m) = rec_len-le payload (ground arith) in
        rw (a, b)
          (place-Kept r size payload (r.tail % size) (room r size) (rec_len payload) (omega arith)
            (offset_room r.tail size s z t) (ground arith) m p)
  ]
]
