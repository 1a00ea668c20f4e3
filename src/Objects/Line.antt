-- ===== src/Objects/Line.antt =====
-- Lines, sentences and paragraphs as ranges, and ranges of whole lines (text-objects.c).
use vis.Prelude.{ℕ, zero, suc, Bool, true, false, none, some, ltb, ◌==◌, if◌then◌else◌, ◌&&◌, ◌||◌}
use vis.Range.{Filerange, range, text_range_new, text_range_size, text_range_union}
use vis.Text.State.{Text}
use vis.Text.Iterator.{
  Iterator, Step, text_iterator_get, text_iterator_byte_get, text_iterator_byte_next,
  text_iterator_byte_prev,
}
use vis.Text.Iterator.Bytes.{text_byte_get}
use vis.Text.Iterator.Lines.{newline, text_line_begin}
use vis.Text.Iterator.Chars.{Locale, byte_fuel, or_else, text_iterator_char_next}
use vis.Motions.{is_blank, is_space, last_pos, get_while}
use vis.Motions.Line.{text_line_next}
use vis.Motions.Sentence.{
  is_newline_or_blank, text_sentence_next, text_sentence_prev, text_line_blank_next,
  text_line_blank_prev,
}

unfoldable pub text_object_entire : Text → ℕ → Filerange
unfolding text_range_new
text_object_entire t at = text_range_new 0 t.size

unfoldable pub text_object_line : Text → ℕ → Filerange
unfolding text_line_begin text_line_next
text_object_line t at = range (text_line_begin t at) (text_line_next t at)

unfoldable pub text_range_inner : Text → Filerange → Filerange
unfolding get_while last_pos is_space text_iterator_get text_iterator_byte_next
    text_iterator_byte_prev
text_range_inner t r =
    range
      (get_while (byte_fuel t) t (text_iterator_byte_next t) is_space
        (text_iterator_get t r.start)).pos
      (last_pos (byte_fuel t) (text_iterator_byte_prev t) is_space 0 (text_iterator_get t r.end))

unfoldable pub text_object_line_inner : Text → ℕ → Filerange
unfolding text_object_line text_range_inner
text_object_line_inner t at = text_range_inner t (text_object_line t at)

unfoldable pub text_object_sentence : Text → ℕ → Filerange
unfolding text_sentence_prev text_sentence_next
text_object_sentence t at = range (text_sentence_prev t at) (text_sentence_next t at)

-- The loop of `text_line_blank`, with the last value of `b`.
unfoldable pub line_blank_loop : ℕ → Text → (Iterator → Step) → Bool → Iterator → Bool
unfolding text_iterator_byte_get is_blank
line_blank_loop zero t step b it = b
line_blank_loop (suc k) t step b it = elim (text_iterator_byte_get t it) [
  | none ↦ b
  | some c ↦
      let rest = line_blank_loop k t step true (step it).it in
      if c == newline then b else if is_blank c then rest else false
]

-- `while (text_iterator_byte_get(&it, &c) && test(c)) step(&it, NULL);`, with the last `c`.
unfoldable pub scan_while : ℕ → Text → (Iterator → Step) → (ℕ → Bool) → ℕ → Iterator → ℕ × Iterator
unfolding text_iterator_byte_get
scan_while zero t step test c it = (c, it)
scan_while (suc k) t step test c it = elim (text_iterator_byte_get t it) [
  | none ↦ (c, it)
  | some d ↦ let rest = scan_while k t step test d (step it).it in if test d then rest else (d, it)
]

-- A paragraph at a blank line: the blank lines around it.
unfoldable pub blank_paragraph : Text → ℕ → Filerange
unfolding scan_while get_while is_newline_or_blank text_line_next text_line_begin text_iterator_get
    text_iterator_byte_next text_iterator_byte_prev
blank_paragraph t at =
    let it = text_iterator_get t at in
    let (c, rit) =
      scan_while (byte_fuel t) t (text_iterator_byte_prev t) is_newline_or_blank 0 it in
    let e = get_while (byte_fuel t) t (text_iterator_byte_next t) is_newline_or_blank it in
    range (if is_newline_or_blank c then rit.pos else text_line_next t rit.pos)
      (if e.pos == t.size then rit.pos else text_line_begin t e.pos)

-- A paragraph at another line: the lines up to the blank ones.
unfoldable pub text_paragraph : (c0 : ℕ) → Text → ℕ → Filerange
unfolding text_line_blank_prev text_line_blank_next text_byte_get text_line_next
text_paragraph c0 t at =
    let start = text_line_blank_prev c0 t at in
    range
      (if ltb 0 start || or_else (text_byte_get t start) 0 == newline
        then text_line_next t start
        else start)
      (text_line_blank_next c0 t at)

module _ (locale : Locale) where
  unfoldable pub text_line_blank : Text → ℕ → Bool
  unfolding line_blank_loop text_line_begin text_iterator_get text_iterator_char_next
  text_line_blank t at =
      line_blank_loop (byte_fuel t) t (text_iterator_char_next locale t) true
        (text_iterator_get t (text_line_begin t at))

  unfoldable pub text_object_paragraph : (c0 : ℕ) → Text → ℕ → Filerange
  unfolding text_line_blank blank_paragraph text_paragraph
  text_object_paragraph c0 t at =
      if text_line_blank t at then blank_paragraph t at else text_paragraph c0 t at

  unfoldable pub text_object_paragraph_outer : (c0 : ℕ) → Text → ℕ → Filerange
  unfolding text_object_paragraph text_range_union
  text_object_paragraph_outer c0 t at =
      let p1 = text_object_paragraph c0 t at in
      text_range_union p1 (text_object_paragraph c0 t p1.end)

unfoldable pub text_range_linewise : Text → Filerange → Filerange
unfolding text_line_begin text_line_next
text_range_linewise t r =
    range (text_line_begin t r.start)
      (if r.end == text_line_begin t r.end then r.end else text_line_next t r.end)

unfoldable pub text_range_is_linewise : Text → Filerange → Bool
unfolding text_range_size text_line_begin
text_range_is_linewise t r =
    ltb 0 (text_range_size r)
    && r.start == text_line_begin t r.start
    && r.end == text_line_begin t r.end
