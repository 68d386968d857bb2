-- ===== src/Ring/RoundTrip.antt =====
-- What is put into an empty ring comes out of it.
use nvkvm_pv.Base.{
  ℕ, suc, ◌+◌, ◌-◌, ◌/◌, ◌%◌, ◌^◌, ◌≤◌, ◌<◌, ◌≡◌, refl, true, false, ◌||◌, Option, none, some, inl,
  inr, leb, ltb, arith, ◌∙◌, Bool-cases, sym, ap, subst,
}
use nvkvm_pv.Ring.{
  Ring, Reservation, found, rec_size, rec_data, rec_skip, rec_len, room, place, reserve, size_ok,
  write_header, commit, pop, peek, alone, has_work,
}
use nvkvm_pv.Ring.Bytes.{size_ok-whole}
use nvkvm_pv.Ring.Bounds.{offset_room, offset_whole, rec_len-le}
use nvkvm_pv.Ring.Found.{
  header_len, header_type, header_out, around, found_round, skip_round, pop-empty,
}

-- While the peer leaves it alone, the ring `c` gives out a record whose payload of `len` bytes is at `pay`, and is then empty.
pub record Delivers (c : Ring) (size pay len : ℕ) : Type 0 where
  pub total : ℕ
  pub left : Ring
  pub seen : peek alone c size ≡ some (found pay len total, left)
  pub drained : has_work (pop left total) ≡ false

-- A record without padding before it.
fits-Delivers :
    (r : Ring) (size rec : ℕ)
    → size_ok size ≡ true
    → size ≤ 2 ^ 31
    → r.head ≡ r.tail
    → r.tail < 2 ^ 62
    → 8 ≤ rec
    → rec % 8 ≡ 0
    → r.tail % size + rec ≤ size
    → Delivers
        (commit (record r { bytes = write_header r.bytes (r.tail % size) rec rec_data }) rec)
        size
        (r.tail % size + rec_size)
        (rec - rec_size)
unfolding commit peek
fits-Delivers r size rec ok s e t g z o =
    let off = r.tail % size in
    let m = write_header r.bytes off rec rec_data in
    let c : Ring = record { head = r.head; tail = (r.tail + rec) % 2 ^ 64; bytes = m } in
    let f : size / 8 + 1 ≡ suc (size / 8) = omega arith in
    record {
      total = rec;
      left = c;
      seen =
          rw (ok, f)
            (found_round (size / 8) size off rec c (ap (λ (x : ℕ). x % size) e) (omega arith)
              (header_len r.bytes off rec rec_data (omega arith))
              (header_type r.bytes off rec rec_data (omega arith)) g o z);
      drained = pop-empty c rec (omega arith);
    }

ahead :
    (head tail size len : ℕ)
    → head ≡ tail
    → tail < 2 ^ 62
    → size ≤ 2 ^ 31
    → 1 ≤ size
    → size - tail % size ≡ len
    → (head + len) % 2 ^ 64 % size ≡ 0
ahead head tail size len e t s o d =
    let n : (head + len) % 2 ^ 64 ≡ tail + (size - tail % size) = omega arith in
    rw n (around tail size o)

-- A record at the start, with padding to the end before it.
wraps-Delivers :
    (r : Ring) (size rec len : ℕ)
    → size_ok size ≡ true
    → size ≤ 2 ^ 31
    → r.head ≡ r.tail
    → r.tail < 2 ^ 62
    → 8 ≤ rec
    → rec % 8 ≡ 0
    → size - r.tail % size ≡ len
    → 8 ≤ len
    → len % 8 ≡ 0
    → len + rec ≤ size
    → Delivers
        (commit
          (record r {
            bytes = write_header (write_header r.bytes (r.tail % size) len rec_skip) 0 rec rec_data;
          })
          (len + rec))
        size
        rec_size
        (rec - rec_size)
unfolding commit peek pop
wraps-Delivers r size rec len ok s e t g z d n q o =
    let off = r.tail % size in
    let m0 = write_header r.bytes off len rec_skip in
    let m = write_header m0 0 rec rec_data in
    let c : Ring = record { head = r.head; tail = (r.tail + (len + rec)) % 2 ^ 64; bytes = m } in
    let f : size / 8 + 1 ≡ suc (suc (size / 8 - 1)) = omega arith in
    let first =
      skip_round (suc (size / 8 - 1)) size off len (len + rec) c (ap (λ (x : ℕ). x % size) e)
        (omega arith)
        (header_out m0 0 rec rec_data off (inr (omega arith))
          ∙ header_len r.bytes off len rec_skip (omega arith))
        (header_out m0 0 rec rec_data (off + 4) (inr (omega arith))
          ∙ header_type r.bytes off len rec_skip (omega arith))
        n (omega arith) o (omega arith) q in
    let p : Ring = record { head = (r.head + len) % 2 ^ 64; tail = c.tail; bytes = m } in
    let a : p.head % size ≡ 0 = ahead r.head r.tail size len e t s (omega arith) d in
    let second =
      found_round (size / 8 - 1) size 0 rec p a (omega arith)
        (header_len m0 0 rec rec_data (omega arith)) (header_type m0 0 rec rec_data (omega arith)) g
        (omega arith) z in
    record {
      total = rec;
      left = p;
      seen = rw (ok, f) (first ∙ second);
      drained = pop-empty p rec (omega arith);
    }

delivered :
    (u : Ring) (size len : ℕ) (w v : Reservation)
    → some w ≡ some v
    → Delivers (commit u w.total) size w.pay len
    → Delivers (commit u v.total) size v.pay len
delivered u size len w v e d =
    let i : w ≡ v = cc in
    subst (λ (x : Reservation). Delivers (commit u x.total) size x.pay len) i d

place-Delivers :
    (r : Ring) (size rec : ℕ) (v : Reservation)
    → size_ok size ≡ true
    → size ≤ 2 ^ 31
    → r.head ≡ r.tail
    → r.tail < 2 ^ 62
    → r.tail % 8 ≡ 0
    → 8 ≤ rec
    → rec % 8 ≡ 0
    → let p = place r (r.tail % size) (size - r.tail % size) size rec in
      p.0 ≡ some v → Delivers (commit p.1 v.total) size v.pay (rec - rec_size)
unfolding place
place-Delivers r size rec v ok s e t z g q =
    let (m, y) = size_ok-whole size ok in
    let l = offset_room r.tail size m y z in
    let w = offset_whole r.tail size y z in
    elim (Bool-cases (leb rec (size - r.tail % size))) [
      | inl a ↦ elim (Bool-cases (ltb size rec)) [
        | inl b ↦ rw (a, b) (λ h. cc)
        | inr b ↦
            rw (a, b)
              (λ h.
                delivered _ size (rec - rec_size) _ v h
                  (fits-Delivers r size rec ok s e t g q (ground arith)))
      ]
      | inr a ↦ elim (Bool-cases (ltb size (size - r.tail % size + rec))) [
        | inl b ↦ rw (a, b) (λ h. cc)
        | inr b ↦
            rw (a, b)
              (λ h. delivered _ size (rec - rec_size) _ v h (
                wraps-Delivers r size rec (size - r.tail % size) ok s e t g q refl (omega arith)
                  (omega arith) (ground arith)))
      ]
    ]

-- A reservation that succeeds passed the tests.
reserve-place :
    (r : Ring) (size payload : ℕ) (v : Reservation)
    → (reserve r size payload).0 ≡ some v
    → (size_ok size ≡ true)
      × (rec_len payload ≤ size)
      × (payload ≤ size)
      × (reserve r size payload
          ≡ place r (r.tail % size) (size - r.tail % size) (room r size) (rec_len payload))
unfolding reserve
reserve-place r size payload v h = elim (Bool-cases (size_ok size)) [
  | inr a ↦ let e : none ≡ some v = rw a at h in cc
  | inl a ↦ elim (Bool-cases (ltb size (rec_len payload) || ltb size payload)) [
    | inl b ↦ let e : none ≡ some v = rw (a, b) at h in cc
    | inr b ↦ (a, ground arith, ground arith, rw (a, b) refl)
  ]
]

-- Into an empty ring, of a size that it accepts up to 2^31 and with counters in whole units below
-- 2^62: a reservation that succeeds, once it is published, is what the consumer sees next if the ring is left alone, at the
-- same place and with room for the payload, and after it is released the ring is empty.
pub reserve-Delivers :
    (r : Ring) (size payload : ℕ) (v : Reservation)
    → size ≤ 2 ^ 31
    → r.head ≡ r.tail
    → r.tail < 2 ^ 62
    → r.tail % 8 ≡ 0
    → (reserve r size payload).0 ≡ some v
    → (payload ≤ rec_len payload - rec_size)
      × Delivers (commit (reserve r size payload).1 v.total) size v.pay (rec_len payload - rec_size)
reserve-Delivers r size payload v s e t z h =
    let (a, l, l', k) = reserve-place r size payload v h in
    let (p, q, m) = rec_len-le payload (omega arith) in
    let f : room r size ≡ size = omega arith in
    let g : (place r (r.tail % size) (size - r.tail % size) size (rec_len payload)).0 ≡ some v =
      ap (λ (o : ℕ). (place r (r.tail % size) (size - r.tail % size) o (rec_len payload)).0) (sym f)
      ∙ ap (λ (o : Option Reservation × Ring). o.0) (sym k)
      ∙ h in
    (omega arith, rw (k, f) (place-Delivers r size (rec_len payload) v a s e t z m q g))
