-- ===== src/Ring/Peek.antt =====
-- When a look at the ring comes to an end.
use nvkvm_pv.Base.{
  ℕ, zero, suc, ◌+◌, ◌-◌, ◌*◌, ◌/◌, ◌%◌, ◌^◌, ◌≤◌, ◌<◌, ◌≡◌, ◌≢◌, refl, Option, some, ◌⊎◌, inl, inr,
  arith, ◌∙◌, Bool-cases,
}
use nvkvm_pv.Ring.{
  Ring, Look, empty, bad, skips, found, judge, look, size_ok, read32, ring_sub64, pop, peek_from,
  peek, Peer,
}
use nvkvm_pv.Ring.Bounds.{look-Inside, Inside}

abbrev pub avail : Ring → ℕ
avail r = ring_sub64 r.tail r.head

judge-skips :
    (size a off len type n : ℕ)
    → judge size a off len type ≡ skips n
    → (8 ≤ n) × (n ≤ a) × (a ≤ size)
unfolding judge
judge-skips size a off len type n h = (ground arith, ground arith, ground arith)

look-skips :
    (r : Ring) (size n : ℕ) → look r size ≡ skips n → (8 ≤ n) × (n ≤ avail r) × (avail r ≤ size)
unfolding look
look-skips r size n h =
    judge-skips size (avail r) (r.head % size) (read32 r.bytes (r.head % size))
      (read32 r.bytes (r.head % size + 4)) n h

-- What one round does, from what it saw.
abbrev pub go_on : (ℕ → Option (Look × Ring)) → Ring → Look → Option (Look × Ring)
go_on next r (skips n) = next n
go_on next r empty = some (empty, r)
go_on next r bad = some (bad, r)
go_on next r (found p l t) = some (found p l t, r)

pub peek_from-suc :
    (fuel : ℕ) (peer : Peer) (r : Ring) (size : ℕ)
    → peek_from (suc fuel) peer r size
      ≡ go_on
          (λ n. peek_from fuel peer (pop (peer fuel r) n) size)
          (peer fuel r)
          (look (peer fuel r) size)
unfolding peek_from
peek_from-suc fuel peer r size = refl

avail-pop : (r : Ring) (n : ℕ) → n ≤ avail r → r.head < 2 ^ 64 → avail (pop r n) ≡ avail r - n
unfolding pop
avail-pop r n h l = omega arith

pop-head : (r : Ring) (n : ℕ) → (pop r n).head < 2 ^ 64
unfolding pop
pop-head r n = omega arith

-- The loop came to an answer: it is not a skip, and a record that it found lies inside.
pub record Answered (size : ℕ) (o : Option (Look × Ring)) : Type 0 where
  pub seen : Look
  pub left : Ring
  pub answer : o ≡ some (seen, left)
  pub settled : (n : ℕ) → seen ≢ skips n
  pub inside : (p l t : ℕ) → seen ≡ found p l t → Inside size p l t

Look-cases : (o : Look) → ((n : ℕ) × (o ≡ skips n)) ⊎ ((n : ℕ) → o ≢ skips n)
Look-cases empty = inr (λ n e. cc)
Look-cases bad = inr (λ n e. cc)
Look-cases (skips n) = inl (n, refl)
Look-cases (found p l t) = inr (λ n e. cc)

go_on_settled :
    (next : ℕ → Option (Look × Ring)) (r : Ring) (o : Look)
    → ((n : ℕ) → o ≢ skips n)
    → go_on next r o ≡ some (o, r)
go_on_settled next r empty h = refl
go_on_settled next r bad h = refl
go_on_settled next r (skips n) h = absurd (h n refl)
go_on_settled next r (found p l t) h = refl

-- The peer leaves the counters alone, whatever it does to the bytes.
abbrev pub KeepsCounters : Peer → Type 0
KeepsCounters peer = (k : ℕ) (r : Ring) → ((peer k r).head ≡ r.head) × ((peer k r).tail ≡ r.tail)

peek_from-Answered :
    (fuel : ℕ) (peer : Peer) (r : Ring) (size : ℕ)
    → KeepsCounters peer
    → (avail r < 8 * fuel) ⊎ ((1 ≤ fuel) × (size < avail r))
    → r.head < 2 ^ 64
    → Answered size (peek_from fuel peer r size)
peek_from-Answered zero peer r size q h l = absurd (ground arith)
peek_from-Answered (suc k) peer r size q h l = elim (Look-cases (look (peer k r) size)) [
  | inl (n, e) ↦
      let (x, y) = q k r in
      let (a, b, c) = look-skips (peer k r) size n e in
      let f : avail (peer k r) ≡ avail r = rw (x, y) refl in
      let p = avail-pop (peer k r) n b (omega arith) in
      let i =
        peek_from-Answered k peer (pop (peer k r) n) size q (inl (ground arith))
          (pop-head (peer k r) n) in
      rw (peek_from-suc k peer r size, e)
        (record {
          seen = i.seen;
          left = i.left;
          answer = i.answer;
          settled = i.settled;
          inside = i.inside;
        })
  | inr s ↦ record {
    seen = look (peer k r) size;
    left = peer k r;
    answer = peek_from-suc k peer r size ∙ go_on_settled _ (peer k r) (look (peer k r) size) s;
    settled = s;
    inside = look-Inside (peer k r) size;
  }
]

-- While the peer leaves the two counters alone, whatever bytes it writes between the rounds, the
-- loop over wrap padding ends from every content of the ring and every pair of counters: its
-- answer is not a skip, and if it is a record, that lies inside the data area.
pub peek-Answered :
    (peer : Peer) (r : Ring) (size : ℕ)
    → KeepsCounters peer
    → r.head < 2 ^ 64
    → Answered size (peek peer r size)
unfolding peek
peek-Answered peer r size q l = elim (Bool-cases (size_ok size)) [
  | inl b ↦ rw b (peek_from-Answered (size / 8 + 1) peer r size q (ground arith) l)
  | inr b ↦
      rw b (record {
        seen = bad;
        left = r;
        answer = refl;
        settled = λ n e. cc;
        inside = λ p m t e. cc;
      })
]
