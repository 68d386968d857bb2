-- ===== src/Ring.antt =====
-- The command ring between a guest and an isolate, src/common/nvkvm_ring.h. The peer may write the
-- whole of it at any time.
use nvkvm_pv.Base.{
  ℕ, zero, suc, ◌+◌, ◌-◌, ◌*◌, ◌/◌, ◌%◌, ◌^◌, Bool, true, false, not, ◌&&◌, ◌||◌, Option, none,
  some, if◌then◌else◌, ltb, leb, ◌==◌, update,
}
use Prim.Native.Nat.{bit_and}
mod Bytes
mod Bounds
mod Spill
mod Peek
mod Found
mod Fed
mod RoundTrip
mod Examples

-- The data area as bytes by their offset; what is past the capacity lies behind the ring.
pub record Ring : Type 0 where
  pub head : ℕ
  pub tail : ℕ
  pub bytes : ℕ → ℕ

abbrev pub rec_size : ℕ
rec_size = 8

abbrev pub rec_data : ℕ
rec_data = 1

abbrev pub rec_skip : ℕ
rec_skip = 0

-- Words of 32 bits, the lowest byte first.
unfoldable pub read32 : (ℕ → ℕ) → ℕ → ℕ
read32 m a = m a + 256 * m (a + 1) + 65536 * m (a + 2) + 16777216 * m (a + 3)

unfoldable pub write32 : (ℕ → ℕ) → ℕ → ℕ → ℕ → ℕ
write32 m a v =
    update
      (update (update (update m a (v % 256)) (a + 1) (v / 256 % 256)) (a + 2) (v / 65536 % 256))
      (a + 3) (v / 16777216 % 256)

-- A record's header: its length, then its type.
unfoldable pub write_header : (ℕ → ℕ) → ℕ → ℕ → ℕ → ℕ → ℕ
write_header m a len type = write32 (write32 m a len) (a + 4) type

abbrev pub ring_sub64 : ℕ → ℕ → ℕ
ring_sub64 a b = (a + 2 ^ 64 - b) % 2 ^ 64

abbrev pub roundup : ℕ → ℕ
roundup x = (x + 7) % 2 ^ 32 / 8 * 8

-- At least 64 bytes and a power of two.
unfoldable pub size_ok : ℕ → Bool
size_ok n = leb 64 n && bit_and n (n - 1) == 0

-- Where the payload goes, and what `nvkvm_ring_commit` has to publish.
pub record Reservation : Type 0 where
  pub pay : ℕ
  pub total : ℕ

abbrev pub rec_len : ℕ → ℕ
rec_len payload = roundup ((rec_size + payload) % 2 ^ 32)

-- The bytes in use, and the bytes free as the producer computes them.
abbrev pub room : Ring → ℕ → ℕ
room r size = ring_sub64 size (ring_sub64 r.tail r.head)

-- The headers at offset `off`, `to_end` bytes before the end, with `free` bytes free.
unfoldable pub place : Ring → ℕ → ℕ → ℕ → ℕ → Option Reservation × Ring
place r off to_end free rec =
    if leb rec to_end
    then (if ltb free rec then (none, r) else (
      some (record { pay = off + rec_size; total = rec }),
      record r { bytes = write_header r.bytes off rec rec_data },
    ))
    else if ltb free (to_end + rec)
    then (none, r)
    else (
      some (record { pay = rec_size; total = to_end + rec }),
      record r { bytes = write_header (write_header r.bytes off to_end rec_skip) 0 rec rec_data },
    )

unfoldable pub reserve : Ring → ℕ → ℕ → Option Reservation × Ring
reserve r size payload =
    if not (size_ok size)
    then (none, r)
    else if ltb size (rec_len payload) || ltb size payload
    then (none, r)
    else let off = r.tail % size in place r off (size - off) (room r size) (rec_len payload)

unfoldable pub commit : Ring → ℕ → Ring
commit r total = record r { tail = (r.tail + total) % 2 ^ 64 }

-- What one round of `nvkvm_ring_peek` finds.
pub data Look : Type 0 where
  empty bad : Look
  skips : ℕ → Look
  found : (pay len total : ℕ) → Look

abbrev pub ill_formed : ℕ → ℕ → ℕ → ℕ → Bool
ill_formed size avail off len =
    ltb len rec_size || not (len % 8 == 0) || ltb avail len || ltb size len || ltb size (off + len)

unfoldable pub judge : ℕ → ℕ → ℕ → ℕ → ℕ → Look
judge size avail off len type =
    if avail == 0
    then empty
    else if ltb avail rec_size || ltb size avail
    then bad
    else if ill_formed size avail off len
    then bad
    else if type == rec_skip
    then skips len
    else if not (type == rec_data)
    then bad
    else found (off + rec_size) (len - rec_size) len

unfoldable pub look : Ring → ℕ → Look
look r size =
    let off = r.head % size in
    judge size (ring_sub64 r.tail r.head) off (read32 r.bytes off) (read32 r.bytes (off + 4))

unfoldable pub pop : Ring → ℕ → Ring
pop r total = record r { head = (r.head + total) % 2 ^ 64 }

-- What the peer makes of the ring before each round of a look at it, by the fuel left.
abbrev pub Peer : Type 0
Peer = ℕ → Ring → Ring

-- `nvkvm_ring_peek` on fuel, each round of which loads the counters and the header anew; `none` is
-- that the fuel ran out.
unfoldable pub peek_from : ℕ → Peer → Ring → ℕ → Option (Look × Ring)
unfolding pop
peek_from zero peer r size = none
peek_from (suc fuel) peer r size = elim (look (peer fuel r) size) [
  | skips len ↦ peek_from fuel peer (pop (peer fuel r) len) size
  | seen ↦ some (seen, peer fuel r)
]

unfoldable pub peek : Peer → Ring → ℕ → Option (Look × Ring)
unfolding size_ok
peek peer r size =
    if not (size_ok size) then some (bad, r) else peek_from (size / 8 + 1) peer r size

-- A peer that leaves the ring alone.
abbrev pub alone : Peer
alone fuel r = r

unfoldable pub has_work : Ring → Bool
has_work r = not (r.tail == r.head)
