-- ===== src/Objects/Word.antt =====
-- Words as ranges (text-objects.c).
use vis.Prelude.{ℕ, zero, suc, Bool, none, some, List, length, ltb, ◌==◌, if◌then◌else◌, ◌&&◌, ◌+◌}
use vis.Range.{Filerange, range, text_range_empty, text_range_new, text_range_size}
use vis.Text.State.{Text}
use vis.Text.Iterator.{
  Iterator, text_iterator_get, text_iterator_byte_get, text_iterator_byte_next,
  text_iterator_byte_prev,
}
use vis.Text.Iterator.Chars.{Locale, byte_fuel, or_else}
use vis.Motions.{is_space, is_word_boundary}
use vis.Motions.Search.{text_char_next, text_find_next, text_find_prev}
use vis.Motions.Word.{
  in_symbols, text_customword_start_next, text_customword_start_prev, text_customword_end_next,
  text_customword_end_prev, text_word_start_next,
}

-- The bytes before and behind a position, '0' where there is none.
unfoldable pub bytes_around : Text → ℕ → Iterator → ℕ × ℕ
unfolding text_iterator_byte_next text_iterator_byte_prev
bytes_around t at it =
    let s = text_iterator_byte_prev t it in
    let back = if s.moved then (text_iterator_byte_next t s.it).it else s.it in
    let prev = if ltb 0 at then or_else s.byte b'0' else b'0' in
    let here = if ltb 0 at then back else it in
    (prev, or_else (text_iterator_byte_next t here).byte b'0')

module _ (locale : Locale) (c0 : ℕ) where
  unfoldable pub text_object_customword : Text → ℕ → (ℕ → Bool) → Filerange
  unfolding bytes_around in_symbols is_space text_iterator_get text_iterator_byte_get text_char_next
      text_customword_start_next text_customword_start_prev text_customword_end_next
      text_customword_end_prev
  text_object_customword t at isboundary =
      let it = text_iterator_get t at in
      let (prev, next) = bytes_around t at it in
      let end_next = text_char_next locale t (text_customword_end_next locale c0 t at isboundary) in
      let start_prev = text_customword_start_prev locale c0 t at isboundary in
      elim (text_iterator_byte_get t it) [
        | none ↦ text_range_empty
        | some c ↦
            if is_space c
            then range (text_char_next locale t (text_customword_end_prev locale t at isboundary))
                (text_customword_start_next locale t at isboundary)
            else if isboundary c
            then range (if in_symbols isboundary prev then start_prev else at)
                (if in_symbols isboundary next then end_next else text_char_next locale t at)
            else range (if isboundary prev then at else start_prev)
                (if isboundary next then text_char_next locale t at else end_next)
      ]

  unfoldable pub text_object_word : Text → ℕ → Filerange
  unfolding text_object_customword
  text_object_word t at = text_object_customword t at is_word_boundary

  unfoldable pub text_object_longword : (isspace : ℕ → Bool) → Text → ℕ → Filerange
  unfolding text_object_customword
  text_object_longword isspace t at = text_object_customword t at isspace

  unfoldable pub text_object_customword_outer : Text → ℕ → (ℕ → Bool) → Filerange
  unfolding bytes_around is_space text_iterator_get text_iterator_byte_get text_char_next
      text_word_start_next text_customword_start_next text_customword_start_prev
      text_customword_end_next text_customword_end_prev
  text_object_customword_outer t at isboundary =
      let it = text_iterator_get t at in
      let (prev, next) = bytes_around t at it in
      let end_next = text_customword_end_next locale c0 t at isboundary in
      let start_next = text_customword_start_next locale t at isboundary in
      let start_prev = text_customword_start_prev locale c0 t at isboundary in
      let after_prev = text_char_next locale t (text_customword_end_prev locale t at isboundary) in
      let beyond = text_customword_start_next locale t end_next isboundary in
      elim (text_iterator_byte_get t it) [
        | none ↦ text_range_empty
        | some c ↦
            if is_space c
            then range after_prev (text_char_next locale t end_next)
            else if isboundary prev && isboundary next
            then (if isboundary c
                then range after_prev (text_word_start_next locale t end_next)
                else range at start_next)
            else if isboundary prev
            then range at beyond
            else if isboundary next
            then range start_prev start_next
            else range start_prev beyond
      ]

  unfoldable pub text_object_longword_outer : (isspace : ℕ → Bool) → Text → ℕ → Filerange
  unfolding text_object_customword_outer
  text_object_longword_outer isspace t at = text_object_customword_outer t at isspace

  unfoldable pub text_object_word_outer : Text → ℕ → Filerange
  unfolding text_object_customword_outer
  text_object_word_outer t at = text_object_customword_outer t at is_word_boundary

  -- The loop of `text_object_word_find_next`, on fuel.
  unfoldable pub word_find_next_loop : ℕ → Text → ℕ → List ℕ → Filerange
  unfolding text_object_word text_find_next
  word_find_next_loop zero t at word = text_range_empty
  word_find_next_loop (suc k) t at word =
      let found = text_find_next t at (some word) in
      let w = text_object_word t found in
      let rest = word_find_next_loop k t w.end word in
      if found == at then text_range_empty else if text_range_size w == length word then w else rest

  unfoldable pub text_object_word_find_next : Text → ℕ → List ℕ → Filerange
  unfolding word_find_next_loop
  text_object_word_find_next t at word = word_find_next_loop (byte_fuel t) t at word

  unfoldable pub word_find_prev_loop : ℕ → Text → ℕ → List ℕ → Filerange
  unfolding text_object_word text_find_prev
  word_find_prev_loop zero t at word = text_range_empty
  word_find_prev_loop (suc k) t at word =
      let found = text_find_prev t at (some word) in
      let w = text_object_word t found in
      let rest = word_find_prev_loop k t found word in
      if found == at then text_range_empty else if text_range_size w == length word then w else rest

  unfoldable pub text_object_word_find_prev : Text → ℕ → List ℕ → Filerange
  unfolding word_find_prev_loop
  text_object_word_find_prev t at word = word_find_prev_loop (byte_fuel t) t at word

unfoldable pub text_object_find_next : Text → ℕ → List ℕ → Filerange
unfolding text_find_next text_range_new
text_object_find_next t at search =
    let start = text_find_next t at (some search) in
    if start == at then text_range_empty else text_range_new start (start + length search)

unfoldable pub text_object_find_prev : Text → ℕ → List ℕ → Filerange
unfolding text_find_prev text_range_new
text_object_find_prev t at search =
    let start = text_find_prev t at (some search) in
    if start == at then text_range_empty else text_range_new start (start + length search)
