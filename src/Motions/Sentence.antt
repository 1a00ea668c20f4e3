-- ===== src/Motions/Sentence.antt =====
-- Motions over sentences and paragraphs (text-motions.c).
use vis.Prelude.{ℕ, zero, suc, ◌+◌, Bool, false, not, none, some, ◌==◌, if◌then◌else◌, ◌&&◌, ◌||◌}
use vis.Text.State.{Text}
use vis.Text.Iterator.{
  Iterator, text_iterator_get, text_iterator_byte_get, text_iterator_byte_next,
  text_iterator_byte_prev,
}
use vis.Text.Iterator.Search.{text_iterator_byte_find_next, text_iterator_byte_find_prev}
use vis.Text.Iterator.Lines.{newline}
use vis.Text.Iterator.Chars.{
  Locale, byte_fuel, or_else, text_iterator_char_next, text_iterator_char_prev,
}
use vis.Motions.{is_blank, is_space, step_while, get_while}

unfoldable pub ends_sentence : ℕ → Bool
ends_sentence c = c == b'.' || c == b'?' || c == b'!'

-- `do text_iterator_byte_next(&it, NULL); while (text_iterator_byte_get(&it, &c) && IsSpace(c));`
unfoldable pub past_space : Text → Iterator → Iterator
unfolding get_while text_iterator_byte_next
past_space t it =
    get_while (byte_fuel t) t (text_iterator_byte_next t) is_space (text_iterator_byte_next t it).it

-- The walk back over white space before a position: the last character read, and the iterator.
unfoldable pub back_over_space : ℕ → Text → ℕ → Iterator → ℕ × Iterator
unfolding text_iterator_byte_get text_iterator_byte_prev is_space
back_over_space zero t prev it = (prev, it)
back_over_space (suc k) t prev it = elim (text_iterator_byte_get t it) [
  | none ↦ (prev, it)
  | some c ↦
      let rest = back_over_space k t c (text_iterator_byte_prev t it).it in
      if is_space c then rest else (c, it)
]

unfoldable pub sentence_next_loop : ℕ → Text → (prev c : ℕ) → Iterator → Iterator
unfolding ends_sentence past_space text_iterator_byte_next is_space
sentence_next_loop zero t prev c it = it
sentence_next_loop (suc k) t prev c it =
    let s = text_iterator_byte_next t it in
    let rest = sentence_next_loop k t c (or_else s.byte c) s.it in
    if ends_sentence prev && is_space c then past_space t it else if s.moved then rest else s.it

unfoldable pub text_sentence_next : Text → ℕ → ℕ
unfolding sentence_next_loop back_over_space text_iterator_get text_iterator_byte_get
text_sentence_next t at =
    let it = text_iterator_get t at in
    elim (text_iterator_byte_get t it) [
      | none ↦ at
      | some c ↦
          let (p, rev) = back_over_space (byte_fuel t) t b'X' it in
          let prev = if rev.pos == 0 then b'.' else p in
          (sentence_next_loop (byte_fuel t) t prev c it).pos
    ]

-- The loop of `text_sentence_prev`, and what follows it.
unfoldable pub sentence_prev_loop : ℕ → Text → (prev : ℕ) → (seen : Bool) → Iterator → Iterator
unfolding ends_sentence past_space text_iterator_byte_prev text_iterator_byte_next get_while
    is_space
sentence_prev_loop zero t prev seen it = it
sentence_prev_loop (suc k) t prev seen it =
    let s = text_iterator_byte_prev t it in
    let c = or_else s.byte prev in
    let rest = sentence_prev_loop k t c (seen || not (is_space c)) s.it in
    let finish = (λ (last : Iterator).
      if seen then get_while (byte_fuel t) t (text_iterator_byte_next t) is_space last else last) in
    if it.pos == 0
    then finish it
    else if not s.moved
    then finish s.it
    else if seen && is_space prev && ends_sentence c
    then past_space t s.it
    else rest

unfoldable pub text_sentence_prev : Text → ℕ → ℕ
unfolding sentence_prev_loop text_iterator_get
text_sentence_prev t at =
    (sentence_prev_loop (byte_fuel t) t b'X' false (text_iterator_get t at)).pos

-- The loop of `text_line_blank_next`: blank lines are those whose blanks a newline follows.
unfoldable pub blank_next_loop : ℕ → Text → (c : ℕ) → Iterator → ℕ
unfolding text_iterator_byte_find_next step_while text_iterator_byte_next is_blank
blank_next_loop zero t c it = it.pos
blank_next_loop (suc k) t c it =
    let (found, at) = text_iterator_byte_find_next t it newline in
    let r = step_while (byte_fuel t) (text_iterator_byte_next t) is_blank c at in
    let rest = blank_next_loop k t r.0 r.1 in
    if not found then at.pos else if r.0 == newline then at.pos + 1 else rest

-- `c0` is the value of a `char c` that the source leaves uninitialised.
unfoldable pub text_line_blank_next : (c0 : ℕ) → Text → ℕ → ℕ
unfolding blank_next_loop text_iterator_get
text_line_blank_next c0 t at = blank_next_loop (byte_fuel t) t c0 (text_iterator_get t at)

unfoldable pub blank_prev_loop : ℕ → Text → (c : ℕ) → Iterator → ℕ
unfolding text_iterator_byte_find_prev step_while text_iterator_byte_prev is_blank
blank_prev_loop zero t c it = it.pos
blank_prev_loop (suc k) t c it =
    let (found, at) = text_iterator_byte_find_prev t it newline in
    let r = step_while (byte_fuel t) (text_iterator_byte_prev t) is_blank c at in
    let rest = blank_prev_loop k t r.0 r.1 in
    if not found then at.pos else if r.0 == newline then r.1.pos + 1 else rest

unfoldable pub text_line_blank_prev : (c0 : ℕ) → Text → ℕ → ℕ
unfolding blank_prev_loop text_iterator_get
text_line_blank_prev c0 t at = blank_prev_loop (byte_fuel t) t c0 (text_iterator_get t at)

unfoldable pub is_newline_or_blank : ℕ → Bool
unfolding is_blank
is_newline_or_blank c = c == newline || is_blank c

module _ (locale : Locale) where
  unfoldable pub text_paragraph_next : (c0 : ℕ) → Text → ℕ → ℕ
  unfolding text_line_blank_next get_while is_newline_or_blank text_iterator_get
      text_iterator_char_next
  text_paragraph_next c0 t at =
      text_line_blank_next c0 t
        (get_while (byte_fuel t) t (text_iterator_char_next locale t) is_newline_or_blank
          (text_iterator_get t at)).pos

  unfoldable pub text_paragraph_prev : (c0 : ℕ) → Text → ℕ → ℕ
  unfolding text_line_blank_prev get_while is_newline_or_blank text_iterator_get
      text_iterator_char_prev
  text_paragraph_prev c0 t at =
      text_line_blank_prev c0 t
        (get_while (byte_fuel t) t (text_iterator_char_prev locale t) is_newline_or_blank
          (text_iterator_get t at)).pos
