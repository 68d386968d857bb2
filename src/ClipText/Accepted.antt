-- ===== src/ClipText/Accepted.antt =====
-- The check of a text beside the encodings of texts.
use nvkvm_pv.Base.{
  ℕ, ◌+◌, ◌*◌, ◌/◌, ◌%◌, ◌≤◌, ◌<◌, ◌≡◌, ◌⊎◌, ◌↔◌, inl, inr, refl, ap, ◌∙◌, true, false, Option,
  none, some, List, [], ◌∷◌, ◌++◌, ltb, leb, ◌==◌, ==-true, length, length-append, arith,
  Bool-cases, suc, zero, All,
}
use nvkvm_pv.ClipText.Utf8.{
  lead, continuation, is_overlong, is_out_of_range, checked, after_lead, next_char, go_round,
  utf8_from, utf8_ok,
}
use nvkvm_pv.ClipText.Scalars.{IsScalar, byte_at, encode, encode_all, Reads, encode-Reads}

-- One continuation byte.
continuation-some :
    (k x : ℕ) (bs : List ℕ) (r : ℕ × List ℕ)
    → continuation (suc k) x bs ≡ some r
    → (a : ℕ) × (cs : List ℕ) × (bs ≡ a ∷ cs)
      × (a / 64 ≡ 2)
      × (continuation k (x * 64 + a % 64) cs ≡ some r)
unfolding continuation
continuation-some k x [] r h = cc
continuation-some k x (a ∷ cs) r h = elim (Bool-cases (a / 64 == 2)) [
  | inl b ↦ (a, cs, refl, ==-true _ _ b, rw b at h)
  | inr b ↦ let z : ◌≡◌ {A = Option (ℕ × List ℕ)} none (some r) = rw b at h in cc
]

continuation_end :
    (x : ℕ) (bs : List ℕ) (cp : ℕ) (rest : List ℕ)
    → continuation zero x bs ≡ some (cp, rest)
    → (x ≡ cp) × (bs ≡ rest)
unfolding continuation
continuation_end x bs cp rest h = (cc, cc)

checked-some :
    (need cp : ℕ) (o : Option (ℕ × List ℕ)) (rest : List ℕ)
    → checked need o ≡ some (cp, rest)
    → (o ≡ some (cp, rest)) × (is_overlong need cp ≡ false) × (is_out_of_range cp ≡ false)
checked-some need cp none rest h = cc
checked-some need cp (some (x, bs)) rest h = elim (Bool-cases (is_overlong need x)) [
  | inl b ↦ let z : ◌≡◌ {A = Option (ℕ × List ℕ)} none (some (cp, rest)) = rw b at h in cc
  | inr b ↦ elim (Bool-cases (is_out_of_range x)) [
    | inl c ↦ let z : ◌≡◌ {A = Option (ℕ × List ℕ)} none (some (cp, rest)) = rw (b, c) at h in cc
    | inr c ↦
        let z : ◌≡◌ {A = Option (ℕ × List ℕ)} (some (x, bs)) (some (cp, rest)) = rw (b, c) at h in
        let q : x ≡ cp = cc in (z, rw (← q) b, rw (← q) c)
  ]
]

-- The bytes `bs` before `rest` are those of a scalar value.
abbrev Spells : List ℕ → ℕ → List ℕ → Type 0
Spells bs cp rest = IsScalar cp × (bs ≡ encode cp ++ rest)

after_lead-Spells :
    (c need x cp : ℕ) (bs rest : List ℕ)
    → ((need ≡ 1) × (c / 32 ≡ 6) × (x ≡ c % 32))
      ⊎ ((need ≡ 2) × (c / 16 ≡ 14) × (x ≡ c % 16))
      ⊎ ((need ≡ 3) × (c / 8 ≡ 30) × (x ≡ c % 8))
    → after_lead bs (some (need, x)) ≡ some (cp, rest)
    → Spells (c ∷ bs) cp rest
unfolding encode
after_lead-Spells c need x cp bs rest k h = elim (Bool-cases (leb (suc (length bs)) need)) [
  | inl b ↦ let z : ◌≡◌ {A = Option (ℕ × List ℕ)} none (some (cp, rest)) = rw b at h in cc
  | inr b ↦
      let (f, o, r) = checked-some need cp (continuation need x bs) rest (rw b at h) in
      cases k f o r
]
  where
    cases :
        ((need ≡ 1) × (c / 32 ≡ 6) × (x ≡ c % 32))
          ⊎ ((need ≡ 2) × (c / 16 ≡ 14) × (x ≡ c % 16))
          ⊎ ((need ≡ 3) × (c / 8 ≡ 30) × (x ≡ c % 8))
        → continuation need x bs ≡ some (cp, rest)
        → is_overlong need cp ≡ false
        → is_out_of_range cp ≡ false
        → Spells (c ∷ bs) cp rest
    cases (inl (n, p, e)) f o r =
        let (a, cs, l, q, g) = continuation-some 0 x bs (cp, rest) (rw n at f) in
        let (u, v) = continuation_end _ cs cp rest g in
        let w : 0x80 ≤ cp = ground (arith, o) in
        let t : cp < 0x800 = omega arith in
        let one : ltb cp 0x80 ≡ false = ground arith in
        let two : ltb cp 0x800 ≡ true = ground arith in
        let x1 : 192 + cp / 64 ≡ c = omega arith in
        let x2 : byte_at cp ≡ a = omega arith in
        (ground (arith, r), rw (one, two, x1, x2, l, v) refl)
    cases (inr (inl (n, p, e))) f o r =
        let (a, cs, l, q, g) = continuation-some 1 x bs (cp, rest) (rw n at f) in
        let (a', ds, l', q', g') = continuation-some 0 (x * 64 + a % 64) cs (cp, rest) g in
        let (u, v) = continuation_end _ ds cp rest g' in
        let w : 0x800 ≤ cp = ground (arith, o) in
        let t : cp < 0x10000 = omega arith in
        let one : ltb cp 0x80 ≡ false = ground arith in
        let two : ltb cp 0x800 ≡ false = ground arith in
        let three : ltb cp 0x10000 ≡ true = ground arith in
        let x1 : 224 + cp / 4096 ≡ c = omega arith in
        let x2 : byte_at (cp / 64) ≡ a = omega arith in
        let x3 : byte_at cp ≡ a' = omega arith in
        (ground (arith, r), rw (one, two, three, x1, x2, x3, l, l', v) refl)
    cases (inr (inr (n, p, e))) f o r =
        let (a, cs, l, q, g) = continuation-some 2 x bs (cp, rest) (rw n at f) in
        let (a', ds, l', q', g') = continuation-some 1 (x * 64 + a % 64) cs (cp, rest) g in
        let (a'', es, l'', q'', g'') =
          continuation-some 0 ((x * 64 + a % 64) * 64 + a' % 64) ds (cp, rest) g' in
        let (u, v) = continuation_end _ es cp rest g'' in
        let w : 0x10000 ≤ cp = ground (arith, o) in
        let one : ltb cp 0x80 ≡ false = ground arith in
        let two : ltb cp 0x800 ≡ false = ground arith in
        let three : ltb cp 0x10000 ≡ false = ground arith in
        let x1 : 240 + cp / 262144 ≡ c = omega arith in
        let x2 : byte_at (cp / 4096) ≡ a = omega arith in
        let x3 : byte_at (cp / 64) ≡ a' = omega arith in
        let x4 : byte_at cp ≡ a'' = omega arith in
        (ground (arith, r), rw (one, two, three, x1, x2, x3, x4, l, l', l'', v) refl)

next_char-Spells :
    (c : ℕ) (bs : List ℕ) (cp : ℕ) (rest : List ℕ)
    → next_char c bs ≡ some (cp, rest)
    → Spells (c ∷ bs) cp rest
unfolding next_char encode
next_char-Spells c bs cp rest h = elim (Bool-cases (c == 0)) [
  | inl a ↦ let z : ◌≡◌ {A = Option (ℕ × List ℕ)} none (some (cp, rest)) = rw a at h in cc
  | inr a ↦ elim (Bool-cases (ltb c 0x80)) [
    | inl b ↦
        let z : ◌≡◌ {A = Option (ℕ × List ℕ)} (some (c, bs)) (some (cp, rest)) = rw (a, b) at h in
        let q : c ≡ cp = cc in let r : bs ≡ rest = cc in (ground arith, rw (← q, ← r, b) refl)
    | inr b ↦ of_lead (rw (a, b) at h)
  ]
]
  where
    of_lead : after_lead bs (lead c) ≡ some (cp, rest) → Spells (c ∷ bs) cp rest
    of_lead f = elim (Bool-cases (c / 32 == 6)) [
      | inl p ↦
          after_lead-Spells c 1 (c % 32) cp bs rest (inl (refl, ==-true _ _ p, refl)) (rw p at f)
      | inr p ↦ elim (Bool-cases (c / 16 == 14)) [
        | inl q ↦
            after_lead-Spells c 2 (c % 16) cp bs rest (inr (inl (refl, ==-true _ _ q, refl)))
              (rw (p, q) at f)
        | inr q ↦ elim (Bool-cases (c / 8 == 30)) [
          | inl r ↦
              after_lead-Spells c 3 (c % 8) cp bs rest (inr (inr (refl, ==-true _ _ r, refl)))
                (rw (p, q, r) at f)
          | inr r ↦
              let z : ◌≡◌ {A = Option (ℕ × List ℕ)} none (some (cp, rest)) = rw (p, q, r) at f in cc
        ]
      ]
    ]

-- A text of scalar values.
abbrev pub Writes : List ℕ → List ℕ → Type 0
Writes bs cps = All IsScalar cps × (bs ≡ encode_all cps)

utf8_from-Writes :
    (fuel : ℕ) (bs : List ℕ) → utf8_from fuel bs ≡ true → (cps : List ℕ) × Writes bs cps
unfolding utf8_from encode_all
utf8_from-Writes fuel [] h = ([], (tt, refl))
utf8_from-Writes zero (c ∷ bs) h = cc
utf8_from-Writes (suc fuel) (c ∷ bs) h = go (next_char c bs) refl h (utf8_from-Writes fuel)
  where
    go :
        (o : Option (ℕ × List ℕ))
        → next_char c bs ≡ o
        → go_round (utf8_from fuel) o ≡ true
        → ((cs : List ℕ) → utf8_from fuel cs ≡ true → (cps : List ℕ) × Writes cs cps)
        → (cps : List ℕ) × Writes (c ∷ bs) cps
    go none e k ih = cc
    go (some (cp, rest)) e k ih =
        let (s, q) = next_char-Spells c bs cp rest e in
        let (cps, (all, r)) = ih rest k in
        (cp ∷ cps, ((s, all), q ∙ ap (λ (x : List ℕ). encode cp ++ x) r))

utf8_from-Reads :
    (fuel : ℕ) (e : List ℕ) (cp : ℕ) (rest : List ℕ)
    → Reads e cp rest
    → length (e ++ rest) ≤ fuel
    → ((f : ℕ) → length rest ≤ f → utf8_from f rest ≡ true)
    → utf8_from fuel (e ++ rest) ≡ true
unfolding utf8_from
utf8_from-Reads fuel [] cp rest r l ih = absurd r
utf8_from-Reads zero (c ∷ cs) cp rest r l ih = absurd (omega arith)
utf8_from-Reads (suc fuel) (c ∷ cs) cp rest r l ih =
    rw r (ih fuel (omega (arith, length-append cs rest)))

utf8_from-encode_all :
    (cps : List ℕ) (fuel : ℕ)
    → All IsScalar cps
    → length (encode_all cps) ≤ fuel
    → utf8_from fuel (encode_all cps) ≡ true
unfolding encode_all utf8_from
utf8_from-encode_all [] fuel s l = refl
utf8_from-encode_all (cp ∷ cps) fuel (s, all) l =
    utf8_from-Reads fuel (encode cp) cp (encode_all cps) (encode-Reads cp (encode_all cps) s) l
      (λ f m. utf8_from-encode_all cps f all m)

-- A text passes the check exactly when it is what some scalar values other than 0 are written as, in
-- UTF-8 as the standard defines it.
pub utf8_ok-Writes : (bs : List ℕ) → (utf8_ok bs ≡ true) ↔ ((cps : List ℕ) × Writes bs cps)
unfolding utf8_ok
utf8_ok-Writes bs = (
  λ h. utf8_from-Writes (length bs) bs h,
  λ (cps, (all, q)). rw q (utf8_from-encode_all cps (length (encode_all cps)) all (omega arith)),
)
