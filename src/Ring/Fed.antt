-- ===== src/Ring/Fed.antt =====
-- A look at the ring that the peer keeps going.
use nvkvm_pv.Base.{ℕ, zero, suc, ◌+◌, ◌%◌, ◌^◌, ◌<◌, ◌≡◌, refl, true, none, ◌∙◌, arith}
use nvkvm_pv.Ring.{Ring, Peer, rec_skip, skips, look, size_ok, write_header, pop, peek_from}
use nvkvm_pv.Ring.Bytes.{size_ok-whole}
use nvkvm_pv.Ring.Bounds.{offset_room}
use nvkvm_pv.Ring.Found.{header_len, header_type, judge-skip, look_is}
use nvkvm_pv.Ring.Peek.{peek_from-suc}

-- A peer that publishes one more unit of padding before each round.
abbrev pub feeds : ℕ → Peer
feeds size fuel r = record r {
  tail = (r.head + 8) % 2 ^ 64;
  bytes = write_header r.bytes (r.head % size) 8 rec_skip;
}

-- With a peer that publishes a unit of padding before each round, the loop does not end within any
-- number of rounds.
pub peek_from-feeds :
    (fuel : ℕ) (r : Ring) (size : ℕ)
    → size_ok size ≡ true
    → r.head < 2 ^ 64
    → r.head % 8 ≡ 0
    → peek_from fuel (feeds size) r size ≡ none
unfolding peek_from
peek_from-feeds zero r size ok l z = refl
peek_from-feeds (suc k) r size ok l z =
    let (m, y) = size_ok-whole size ok in
    let u = feeds size k r in
    let off = r.head % size in
    let e =
      look_is size off 8 8 rec_skip u refl (omega arith)
        (header_len r.bytes off 8 rec_skip (omega arith))
        (header_type r.bytes off 8 rec_skip (omega arith)) in
    let s : look u size ≡ skips 8 =
      e
      ∙ judge-skip size 8 off 8 (omega arith) (omega arith) (omega arith)
          (offset_room r.head size m y z) (omega arith) in
    peek_from-suc k (feeds size) r size
    ∙ rw s (peek_from-feeds k (pop u 8) size ok (next_lt u) (next_whole u z))
  where
    next_lt : (u : Ring) → (pop u 8).head < 2 ^ 64
    next_lt u = let e : (pop u 8).head ≡ (u.head + 8) % 2 ^ 64 = unfold pop in refl in omega arith

    next_whole : (u : Ring) → u.head % 8 ≡ 0 → (pop u 8).head % 8 ≡ 0
    next_whole u z =
        let e : (pop u 8).head ≡ (u.head + 8) % 2 ^ 64 = unfold pop in refl in omega arith
