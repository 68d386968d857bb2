-- ===== src/Ring/Found.antt =====
-- What a look at the ring finds behind a header that was written.
use nvkvm_pv.Base.{
  ℕ, suc, ◌+◌, ◌-◌, ◌*◌, ◌/◌, ◌%◌, ◌^◌, ◌≤◌, ◌<◌, ◌≡◌, refl, false, some, ◌⊎◌, inl, arith, ◌∙◌,
}
use native.Mathlib.Nat.{mod-lt, mod-add-div', add-mul-mod_self_right, mod_self}
use nvkvm_pv.Ring.{
  Ring, skips, found, rec_size, rec_data, rec_skip, judge, look, read32, write_header, write32,
  ring_sub64, pop, peek_from, alone, has_work,
}
use nvkvm_pv.Ring.Bytes.{read32-write32, read32_out}
use nvkvm_pv.Ring.Peek.{peek_from-suc}

-- A header reads back.
pub header_len :
    (m : ℕ → ℕ) (a len type : ℕ) → len < 2 ^ 32 → read32 (write_header m a len type) a ≡ len
unfolding write_header
header_len m a len type h =
    read32_out (write32 m a len) (a + 4) type a (inl (omega arith)) ∙ read32-write32 m a len h

pub header_type :
    (m : ℕ → ℕ) (a len type : ℕ) → type < 2 ^ 32 → read32 (write_header m a len type) (a + 4) ≡ type
unfolding write_header
header_type m a len type h = read32-write32 (write32 m a len) (a + 4) type h

pub header_out :
    (m : ℕ → ℕ) (a len type b : ℕ)
    → (b + 4 ≤ a) ⊎ (a + 8 ≤ b)
    → read32 (write_header m a len type) b ≡ read32 m b
unfolding write_header
header_out m a len type b h =
    read32_out (write32 m a len) (a + 4) type b (ground arith) ∙ read32_out m a len b (ground arith)

judge-found :
    (size a off len : ℕ)
    → 8 ≤ len
    → len ≤ a
    → a ≤ size
    → off + len ≤ size
    → len % 8 ≡ 0
    → judge size a off len rec_data ≡ found (off + rec_size) (len - rec_size) len
unfolding judge
judge-found size a off len g h l o z = ground arith

pub judge-skip :
    (size a off len : ℕ)
    → 8 ≤ len
    → len ≤ a
    → a ≤ size
    → off + len ≤ size
    → len % 8 ≡ 0
    → judge size a off len rec_skip ≡ skips len
unfolding judge
judge-skip size a off len g h l o z = ground arith

-- The next multiple of the size.
pub around : (tail size : ℕ) → 1 ≤ size → (tail + (size - tail % size)) % size ≡ 0
around tail size h =
    let d = mod-add-div' tail size in
    let l = mod-lt tail {m = size} h in
    let e : tail + (size - tail % size) ≡ size + tail / size * size = omega (arith, d, l) in
    rw e (add-mul-mod_self_right size (tail / size) size ∙ mod_self size)

pub look_is :
    (size off a len type : ℕ) (c : Ring)
    → c.head % size ≡ off
    → ring_sub64 c.tail c.head ≡ a
    → read32 c.bytes off ≡ len
    → read32 c.bytes (off + 4) ≡ type
    → look c size ≡ judge size a off len type
unfolding look
look_is size off a len type c h b l t = rw (h, b, l, t) refl

-- The record at the head is seen by the next round.
pub found_round :
    (k size off rec : ℕ) (c : Ring)
    → c.head % size ≡ off
    → ring_sub64 c.tail c.head ≡ rec
    → read32 c.bytes off ≡ rec
    → read32 c.bytes (off + 4) ≡ rec_data
    → 8 ≤ rec
    → off + rec ≤ size
    → rec % 8 ≡ 0
    → peek_from (suc k) alone c size ≡ some (found (off + rec_size) (rec - rec_size) rec, c)
found_round k size off rec c h a l t g o z =
    peek_from-suc k alone c size
    ∙ rw
        (
          look_is size off rec rec rec_data c h a l t,
          judge-found size rec off rec g (omega arith) (omega arith) o z,
        )
        refl

pub skip_round :
    (k size off len a : ℕ) (c : Ring)
    → c.head % size ≡ off
    → ring_sub64 c.tail c.head ≡ a
    → read32 c.bytes off ≡ len
    → read32 c.bytes (off + 4) ≡ rec_skip
    → 8 ≤ len
    → len ≤ a
    → a ≤ size
    → off + len ≤ size
    → len % 8 ≡ 0
    → peek_from (suc k) alone c size ≡ peek_from k alone (pop c len) size
skip_round k size off len a c h b l t g m n o z =
    peek_from-suc k alone c size
    ∙ rw (look_is size off a len rec_skip c h b l t, judge-skip size a off len g m n o z) refl

pub pop-empty : (c : Ring) (n : ℕ) → c.tail ≡ (c.head + n) % 2 ^ 64 → has_work (pop c n) ≡ false
unfolding has_work pop
pop-empty c n h = ground arith
