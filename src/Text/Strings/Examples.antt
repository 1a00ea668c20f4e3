-- ===== src/Text/Strings/Examples.antt =====
-- Runs of the counts of text-util.c, with a decoder that knows the ASCII characters.
use vis.Prelude.{
  Bool-cases, inl, inr, ℕ, ◌≡◌, refl, false, none, some, List, [], ◌∷◌, ltb, ◌==◌, if◌then◌else◌,
  arith,
}
use vis.Text.Iterator.Chars.{Locale, Decoded, invalid, incomplete, nul, char, is_utf8}
use vis.Text.Strings.{
  text_char_count, text_string_width, text_char_count-none, text_string_width-some, Advances,
}

abbrev ascii : List ℕ → Decoded
ascii [] = incomplete
ascii (x ∷ xs) = if x == 0 then nul else if ltb x 128 then char 1 (some 1) else invalid

abbrev ascii_locale : Locale
ascii_locale = record {
  Shift = Unit;
  initial = tt;
  mbrtowc = λ ps s. (ascii s, ps);
  mb_len_max = 16;
}

count_word : text_char_count ascii_locale 4 (118 ∷ 105 ∷ 115 ∷ []) 3 ≡ some 3
unfolding text_char_count
count_word = refl

width_word : text_string_width ascii_locale (λ ps s. false) (118 ∷ 0 ∷ 200 ∷ []) ≡ some 4
unfolding text_string_width
width_word = refl

text_char_count-none_example : text_char_count ascii_locale 9 (195 ∷ 40 ∷ []) 2 ≡ none
unfolding is_utf8
text_char_count-none_example =
    text_char_count-none ascii_locale 195 (40 ∷ []) 2 9 refl (omega arith) refl

ascii-Advances : (s : List ℕ) → Advances (ascii s)
ascii-Advances [] = tt
ascii-Advances (x ∷ xs) = elim (Bool-cases (x == 0)) [
  | inl e ↦ rw e tt
  | inr e ↦ elim (Bool-cases (ltb x 128)) [ inl f ↦ rw (e, f) (omega arith) | inr f ↦ rw (e, f) tt ]
]

text_string_width-some_example :
    (w : ℕ) × (text_string_width ascii_locale (λ ps s. false) (118 ∷ 0 ∷ 200 ∷ []) ≡ some w)
text_string_width-some_example =
    text_string_width-some ascii_locale (λ ps s. false) (λ ps s. ascii-Advances s)
      (118 ∷ 0 ∷ 200 ∷ [])
