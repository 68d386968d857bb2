-- ===== src/ClipText/Examples.antt =====
-- Concrete texts.
use nvkvm_pv.Base.{ℕ, ◌≡◌, ◌↔◌, refl, true, false, List, [], ◌∷◌}
use nvkvm_pv.ClipText.Utf8.{continuation, next_char, utf8_from, utf8_ok}
use nvkvm_pv.ClipText.Accepted.{Writes, utf8_ok-Writes}

-- The euro sign, a letter and an emoji.
abbrev euro_text : List ℕ
euro_text = 0xe2 ∷ 0x82 ∷ 0xac ∷ 0x41 ∷ 0xf0 ∷ 0x9f ∷ 0x98 ∷ 0x80 ∷ []

euro_text_passes : utf8_ok euro_text ≡ true
unfolding utf8_ok utf8_from next_char continuation
euro_text_passes = refl

-- An overlong slash, a surrogate, and a character that is cut short.
overlong_fails : utf8_ok (0xc0 ∷ 0xaf ∷ []) ≡ false
unfolding utf8_ok utf8_from next_char continuation
overlong_fails = refl

surrogate_fails : utf8_ok (0xed ∷ 0xa0 ∷ 0x80 ∷ []) ≡ false
unfolding utf8_ok utf8_from next_char continuation
surrogate_fails = refl

cut_fails : utf8_ok (0xe2 ∷ 0x82 ∷ []) ≡ false
unfolding utf8_ok utf8_from next_char continuation
cut_fails = refl

utf8_ok-Writes_example : (utf8_ok euro_text ≡ true) ↔ ((cps : List ℕ) × Writes euro_text cps)
utf8_ok-Writes_example = utf8_ok-Writes euro_text
