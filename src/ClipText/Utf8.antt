-- ===== src/ClipText/Utf8.antt =====
-- The check of a text of bytes, `nb_utf8_ok`. A text is the list of its bytes; masks and shifts of
-- bytes are divisions and remainders by powers of 2.
use nvkvm_pv.Base.{
  ℕ, zero, suc, ◌+◌, ◌*◌, ◌/◌, ◌%◌, Bool, true, false, not, ◌&&◌, ◌||◌, Option, none, some, List,
  [], ◌∷◌, if◌then◌else◌, ltb, leb, ◌==◌, length,
}

-- How many bytes follow the first one, and the bits of the code point in it.
abbrev pub lead : ℕ → Option (ℕ × ℕ)
lead c =
    if c / 32 == 6
    then some (1, c % 32)
    else if c / 16 == 14
    then some (2, c % 16)
    else if c / 8 == 30
    then some (3, c % 8)
    else none

-- The bytes that follow add 6 bits each: the code point, and the text after them.
unfoldable pub continuation : ℕ → ℕ → List ℕ → Option (ℕ × List ℕ)
continuation zero cp bs = some (cp, bs)
continuation (suc k) cp [] = none
continuation (suc k) cp (b ∷ bs) =
    if not (b / 64 == 2) then none else continuation k (cp * 64 + b % 64) bs

abbrev pub is_overlong : ℕ → ℕ → Bool
is_overlong need cp =
    (need == 1 && ltb cp 0x80) || (need == 2 && ltb cp 0x800) || (need == 3 && ltb cp 0x10000)

abbrev pub is_out_of_range : ℕ → Bool
is_out_of_range cp = ltb 0x10ffff cp || (leb 0xd800 cp && leb cp 0xdfff)

abbrev pub checked : ℕ → Option (ℕ × List ℕ) → Option (ℕ × List ℕ)
checked need none = none
checked need (some (cp, bs)) =
    if is_overlong need cp then none else if is_out_of_range cp then none else some (cp, bs)

abbrev pub after_lead : List ℕ → Option (ℕ × ℕ) → Option (ℕ × List ℕ)
after_lead bs none = none
after_lead bs (some (need, cp)) =
    if leb (suc (length bs)) need then none else checked need (continuation need cp bs)

-- One round of the loop at byte `c`, before the bytes `bs`: where it goes on, and the code point.
unfoldable pub next_char : ℕ → List ℕ → Option (ℕ × List ℕ)
next_char c bs =
    if c == 0 then none else if ltb c 0x80 then some (c, bs) else after_lead bs (lead c)

-- The loop, on fuel.
abbrev pub go_round : (List ℕ → Bool) → Option (ℕ × List ℕ) → Bool
go_round rest none = false
go_round rest (some (cp, bs)) = rest bs

unfoldable pub utf8_from : ℕ → List ℕ → Bool
utf8_from fuel [] = true
utf8_from zero (c ∷ bs) = false
utf8_from (suc fuel) (c ∷ bs) = go_round (utf8_from fuel) (next_char c bs)

-- `nb_utf8_ok`: each round consumes a byte, so that as many rounds as bytes are enough.
unfoldable pub utf8_ok : List ℕ → Bool
utf8_ok bs = utf8_from (length bs) bs
