-- ===== src/Motions/Word.antt =====
-- Motions over words (text-motions.c), for any notion of a boundary. `c0` is the value of a `char c`
-- that the source leaves uninitialised and reads where the first step fails.
use vis.Prelude.{ℕ, Bool, not, none, some, if◌then◌else◌, ◌&&◌}
use vis.Text.State.{Text}
use vis.Text.Iterator.{text_iterator_get, text_iterator_byte_get}
use vis.Text.Iterator.Chars.{Locale, byte_fuel, text_iterator_char_next, text_iterator_char_prev}
use vis.Motions.{is_space, is_word_boundary, while_step, step_while, last_pos}

-- Inside a run of boundary characters: a boundary that is no space.
unfoldable pub in_symbols : (ℕ → Bool) → ℕ → Bool
unfolding is_space
in_symbols isboundary c = isboundary c && not (is_space c)

-- The test of the loop that a word of the kind of `c` is walked with.
unfoldable pub same_kind : (ℕ → Bool) → ℕ → ℕ → Bool
unfolding in_symbols
same_kind isboundary c = if isboundary c then in_symbols isboundary else (λ d. not (isboundary d))

module _ (locale : Locale) where
  unfoldable pub text_customword_start_next : Text → ℕ → (ℕ → Bool) → ℕ
  unfolding same_kind while_step text_iterator_get text_iterator_byte_get text_iterator_char_next
  text_customword_start_next t at isboundary =
      let it = text_iterator_get t at in
      let next = text_iterator_char_next locale t in
      elim (text_iterator_byte_get t it) [
        | none ↦ at
        | some c ↦
            let r = while_step (byte_fuel t) next (same_kind isboundary c) c it in
            (while_step (byte_fuel t) next is_space r.0 r.1).1.pos
      ]

  unfoldable pub text_customword_start_prev : (c0 : ℕ) → Text → ℕ → (ℕ → Bool) → ℕ
  unfolding same_kind step_while last_pos text_iterator_get text_iterator_char_prev
  text_customword_start_prev c0 t at isboundary =
      let prev = text_iterator_char_prev locale t in
      let r = step_while (byte_fuel t) prev is_space c0 (text_iterator_get t at) in
      last_pos (byte_fuel t) prev (same_kind isboundary r.0) r.0 r.1

  unfoldable pub text_customword_end_next : (c0 : ℕ) → Text → ℕ → (ℕ → Bool) → ℕ
  unfolding same_kind step_while last_pos text_iterator_get text_iterator_char_next
  text_customword_end_next c0 t at isboundary =
      let next = text_iterator_char_next locale t in
      let r = step_while (byte_fuel t) next is_space c0 (text_iterator_get t at) in
      last_pos (byte_fuel t) next (same_kind isboundary r.0) r.0 r.1

  unfoldable pub text_customword_end_prev : Text → ℕ → (ℕ → Bool) → ℕ
  unfolding same_kind while_step text_iterator_get text_iterator_byte_get text_iterator_char_prev
  text_customword_end_prev t at isboundary =
      let it = text_iterator_get t at in
      let prev = text_iterator_char_prev locale t in
      elim (text_iterator_byte_get t it) [
        | none ↦ at
        | some c ↦
            let r = while_step (byte_fuel t) prev (same_kind isboundary c) c it in
            (while_step (byte_fuel t) prev is_space r.0 r.1).1.pos
      ]

  unfoldable pub text_word_end_next : (c0 : ℕ) → Text → ℕ → ℕ
  unfolding text_customword_end_next
  text_word_end_next c0 t at = text_customword_end_next c0 t at is_word_boundary

  unfoldable pub text_word_end_prev : Text → ℕ → ℕ
  unfolding text_customword_end_prev
  text_word_end_prev t at = text_customword_end_prev t at is_word_boundary

  unfoldable pub text_word_start_next : Text → ℕ → ℕ
  unfolding text_customword_start_next
  text_word_start_next t at = text_customword_start_next t at is_word_boundary

  unfoldable pub text_word_start_prev : (c0 : ℕ) → Text → ℕ → ℕ
  unfolding text_customword_start_prev
  text_word_start_prev c0 t at = text_customword_start_prev c0 t at is_word_boundary

  -- `isspace` is the C library's.
  module _ (isspace : ℕ → Bool) where
    unfoldable pub text_longword_end_next : (c0 : ℕ) → Text → ℕ → ℕ
    unfolding text_customword_end_next
    text_longword_end_next c0 t at = text_customword_end_next c0 t at isspace

    unfoldable pub text_longword_end_prev : Text → ℕ → ℕ
    unfolding text_customword_end_prev
    text_longword_end_prev t at = text_customword_end_prev t at isspace

    unfoldable pub text_longword_start_next : Text → ℕ → ℕ
    unfolding text_customword_start_next
    text_longword_start_next t at = text_customword_start_next t at isspace

    unfoldable pub text_longword_start_prev : (c0 : ℕ) → Text → ℕ → ℕ
    unfolding text_customword_start_prev
    text_longword_start_prev c0 t at = text_customword_start_prev c0 t at isspace
