-- ===== src/ClipText/Scalars.antt =====
-- UTF-8 as the standard defines it: how each scalar value is written.
use nvkvm_pv.Base.{
  ℕ, ◌+◌, ◌*◌, ◌/◌, ◌%◌, ◌≤◌, ◌<◌, ◌≡◌, ◌⊎◌, inl, inr, refl, true, false, some, List, [], ◌∷◌, ◌++◌,
  if◌then◌else◌, ltb, leb, ◌==◌, length, arith, ltb-true, ltb-false, Bool-cases, suc,
}
use nvkvm_pv.ClipText.Utf8.{continuation, is_overlong, is_out_of_range, next_char}

-- A scalar value but the null character.
abbrev pub IsScalar : ℕ → Type 0
IsScalar cp = (1 ≤ cp) × ((cp < 0xd800) ⊎ ((0xdfff < cp) × (cp ≤ 0x10ffff)))

abbrev pub byte_at : ℕ → ℕ
byte_at x = 0x80 + x % 64

unfoldable pub encode : ℕ → List ℕ
encode cp =
    if ltb cp 0x80
    then cp ∷ []
    else if ltb cp 0x800
    then (0xc0 + cp / 64) ∷ byte_at cp ∷ []
    else if ltb cp 0x10000
    then (0xe0 + cp / 4096) ∷ byte_at (cp / 64) ∷ byte_at cp ∷ []
    else (0xf0 + cp / 262144) ∷ byte_at (cp / 4096) ∷ byte_at (cp / 64) ∷ byte_at cp ∷ []

-- Two, three and four bytes.
continuation_1 :
    (x a : ℕ) (bs : List ℕ) → a / 64 ≡ 2 → continuation 1 x (a ∷ bs) ≡ some (x * 64 + a % 64, bs)
unfolding continuation
continuation_1 x a bs h = ground arith

continuation_2 :
    (x a b : ℕ) (bs : List ℕ)
    → a / 64 ≡ 2
    → b / 64 ≡ 2
    → continuation 2 x (a ∷ b ∷ bs) ≡ some ((x * 64 + a % 64) * 64 + b % 64, bs)
unfolding continuation
continuation_2 x a b bs h k = ground arith

continuation_3 :
    (x a b c : ℕ) (bs : List ℕ)
    → a / 64 ≡ 2
    → b / 64 ≡ 2
    → c / 64 ≡ 2
    → continuation 3 x (a ∷ b ∷ c ∷ bs) ≡ some (((x * 64 + a % 64) * 64 + b % 64) * 64 + c % 64, bs)
unfolding continuation
continuation_3 x a b c bs h k l = ground arith

-- What is read from the encoding of a scalar value, before anything.
abbrev pub Reads : List ℕ → ℕ → List ℕ → Type 0
Reads [] cp bs = ⊥
Reads (c ∷ cs) cp bs = next_char c (cs ++ bs) ≡ some (cp, bs)

-- Characters of two, three and four bytes.
next_char_2 :
    (c x cp : ℕ) (bs : List ℕ)
    → IsScalar cp
    → c / 32 ≡ 6
    → x / 64 ≡ 2
    → c % 32 * 64 + x % 64 ≡ cp
    → 0x80 ≤ cp
    → next_char c (x ∷ bs) ≡ some (cp, bs)
unfolding next_char
next_char_2 c x cp bs s p q e l =
    let f : (c == 0) ≡ false = ground arith in
    let g : ltb c 0x80 ≡ false = ground arith in
    let h : (c / 32 == 6) ≡ true = ground arith in
    let n : leb (suc (suc (length bs))) 1 ≡ false = ground arith in
    let o : is_overlong 1 cp ≡ false = ground arith in
    let r : is_out_of_range cp ≡ false = ground (arith, s) in
    rw (f, g, h, n, continuation_1 (c % 32) x bs q, e, o, r) refl

next_char_3 :
    (c x y cp : ℕ) (bs : List ℕ)
    → IsScalar cp
    → c / 16 ≡ 14
    → x / 64 ≡ 2
    → y / 64 ≡ 2
    → (c % 16 * 64 + x % 64) * 64 + y % 64 ≡ cp
    → 0x800 ≤ cp
    → next_char c (x ∷ y ∷ bs) ≡ some (cp, bs)
unfolding next_char
next_char_3 c x y cp bs s p q q' e l =
    let f : (c == 0) ≡ false = ground arith in
    let g : ltb c 0x80 ≡ false = ground arith in
    let h : (c / 32 == 6) ≡ false = ground arith in
    let k : (c / 16 == 14) ≡ true = ground arith in
    let n : leb (suc (suc (suc (length bs)))) 2 ≡ false = ground arith in
    let o : is_overlong 2 cp ≡ false = ground arith in
    let r : is_out_of_range cp ≡ false = ground (arith, s) in
    rw (f, g, h, k, n, continuation_2 (c % 16) x y bs q q', e, o, r) refl

next_char_4 :
    (c x y z cp : ℕ) (bs : List ℕ)
    → IsScalar cp
    → c / 8 ≡ 30
    → x / 64 ≡ 2
    → y / 64 ≡ 2
    → z / 64 ≡ 2
    → ((c % 8 * 64 + x % 64) * 64 + y % 64) * 64 + z % 64 ≡ cp
    → 0x10000 ≤ cp
    → next_char c (x ∷ y ∷ z ∷ bs) ≡ some (cp, bs)
unfolding next_char
next_char_4 c x y z cp bs s p q q' q'' e l =
    let f : (c == 0) ≡ false = ground arith in
    let g : ltb c 0x80 ≡ false = ground arith in
    let h : (c / 32 == 6) ≡ false = ground arith in
    let k : (c / 16 == 14) ≡ false = ground arith in
    let m : (c / 8 == 30) ≡ true = ground arith in
    let n : leb (suc (suc (suc (suc (length bs))))) 3 ≡ false = ground arith in
    let o : is_overlong 3 cp ≡ false = ground arith in
    let r : is_out_of_range cp ≡ false = ground (arith, s) in
    rw (f, g, h, k, m, n, continuation_3 (c % 8) x y z bs q q' q'', e, o, r) refl

pub encode-Reads : (cp : ℕ) (bs : List ℕ) → IsScalar cp → Reads (encode cp) cp bs
unfolding encode next_char
encode-Reads cp bs s = elim (Bool-cases (ltb cp 0x80)) [
  | inl a ↦ rw a (ground (arith, s))
  | inr a ↦ elim (Bool-cases (ltb cp 0x800)) [
    | inl b ↦
        rw (a, b)
          (next_char_2 (192 + cp / 64) (byte_at cp) cp bs s (omega (arith, s, ltb-true _ _ b))
            (omega arith) (omega (arith, ltb-true _ _ b)) (omega (arith, ltb-false _ _ a)))
    | inr b ↦ elim (Bool-cases (ltb cp 0x10000)) [
      | inl c ↦
          rw (a, b, c)
            (next_char_3 (224 + cp / 4096) (byte_at (cp / 64)) (byte_at cp) cp bs s
              (omega (arith, ltb-true _ _ c)) (omega arith) (omega arith)
              (omega (arith, ltb-true _ _ c)) (omega (arith, ltb-false _ _ b)))
      | inr c ↦
          rw (a, b, c)
            (next_char_4 (240 + cp / 262144) (byte_at (cp / 4096)) (byte_at (cp / 64)) (byte_at cp)
              cp bs s (omega (arith, top)) (omega arith) (omega arith) (omega arith)
              (omega (arith, top)) (omega (arith, ltb-false _ _ c)))
    ]
  ]
]
  where
    top : cp ≤ 0x10ffff
    top = ground (arith, s)

-- A text of scalar values, written out.
unfoldable pub encode_all : List ℕ → List ℕ
encode_all [] = []
encode_all (cp ∷ cps) = encode cp ++ encode_all cps
