-- ===== src/Motions/Line.antt =====
-- Motions within and between lines (text-motions.c). A `char c` that the source leaves
-- uninitialised is an argument, as its value is read where a first step fails.
use vis.Prelude.{
  ℕ, zero, suc, ◌+◌, Bool, true, false, not, none, some, List, length, ltb, leb, ◌==◌,
  if◌then◌else◌, ◌&&◌, ◌||◌,
}
use vis.Prelude.Int.{ℤ, pos, negsuc, to_ℕ}
use vis.Range.{Filerange, epos, text_range_valid, text_range_contains}
use vis.Text.State.{Text}
use vis.Text.Iterator.{
  Iterator, head_or, text_iterator_get, text_iterator_byte_get, text_iterator_byte_next,
  text_iterator_byte_prev,
}
use vis.Text.Iterator.Bytes.{text_bytes_get}
use vis.Text.Iterator.Search.{text_iterator_byte_find_next, text_iterator_byte_find_prev}
use vis.Text.Iterator.Lines.{newline, text_line_begin}
use vis.Text.Iterator.Chars.{
  Locale, Decoded, invalid, incomplete, nul, char, byte_fuel, or_else, text_iterator_char_next,
  text_iterator_char_prev, text_iterator_codepoint_next,
}
use vis.Motions.{is_blank, while_step, get_while}

unfoldable pub text_line_prev : Text → ℕ → ℕ
unfolding text_iterator_byte_find_prev text_iterator_get
text_line_prev t at = (text_iterator_byte_find_prev t (text_iterator_get t at) newline).1.pos

unfoldable pub text_line_start : Text → ℕ → ℕ
unfolding get_while text_line_begin text_iterator_get text_iterator_byte_next
text_line_start t at =
    (get_while (byte_fuel t) t (text_iterator_byte_next t) is_blank
      (text_iterator_get t (text_line_begin t at))).pos

unfoldable pub text_line_end : Text → ℕ → ℕ
unfolding text_iterator_byte_find_next text_iterator_get
text_line_end t at = (text_iterator_byte_find_next t (text_iterator_get t at) newline).1.pos

-- A first step back that fails, or that meets a newline, leaves the end of the line.
unfoldable pub text_line_finish : Text → ℕ → ℕ
unfolding text_line_end while_step text_iterator_get text_iterator_byte_prev
text_line_finish t at =
    let e = text_line_end t at in
    let s = text_iterator_byte_prev t (text_iterator_get t e) in
    let c = or_else s.byte 0 in
    let r = while_step (byte_fuel t) (text_iterator_byte_prev t) is_blank c s.it in
    if not s.moved || c == newline then e else r.1.pos + (if r.0 == newline then 1 else 0)

unfoldable pub text_line_next : Text → ℕ → ℕ
unfolding text_iterator_byte_find_next text_iterator_get text_iterator_byte_next
text_line_next t at =
    let (found, it) = text_iterator_byte_find_next t (text_iterator_get t at) newline in
    if found then (text_iterator_byte_next t it).it.pos else it.pos

-- The loop of `text_line_offset`, by recursion on `off`.
unfoldable pub offset_loop : ℕ → Text → Iterator → Iterator
unfolding text_iterator_byte_get text_iterator_byte_next
offset_loop zero t it = it
offset_loop (suc off) t it =
    let rest = offset_loop off t (text_iterator_byte_next t it).it in
    elim (text_iterator_byte_get t it) [ none ↦ it | some c ↦ if c == newline then it else rest ]

unfoldable pub text_line_offset : Text → ℕ → ℕ → ℕ
unfolding offset_loop text_line_begin text_iterator_get
text_line_offset t at off = (offset_loop off t (text_iterator_get t (text_line_begin t at))).pos

-- The iterator stands on a byte that does not end the line.
unfoldable pub in_line : Text → Iterator → Bool
unfolding text_iterator_byte_get
in_line t it = elim (text_iterator_byte_get t it) [ none ↦ false | some c ↦ not (c == newline) ]

-- `cur_width >= width`.
abbrev pub at_least : ℕ → ℤ → Bool
at_least n (pos w) = leb w n
at_least n (negsuc w) = true

-- What a character adds to the width, its first byte given.
unfoldable pub width_of : ℕ → Decoded → ℕ
width_of b invalid = 1
width_of b incomplete = 0
width_of b nul = 2
width_of b (char n w) = if b == b'\t' then 1 else or_else w 2

module _ (locale : Locale) where
  open locale use {Shift, initial, mbrtowc, mb_len_max}

  -- The loop of `text_line_char_set`, by recursion on `count`.
  unfoldable pub char_set_loop : ℕ → Text → ℕ → Iterator → Iterator
  unfolding text_iterator_char_next
  char_set_loop zero t c it = it
  char_set_loop (suc count) t c it =
      let s = text_iterator_char_next locale t it in
      let c' = or_else s.byte c in
      let rest = char_set_loop count t c' s.it in
      if s.moved && not (c' == newline) then rest else s.it

  unfoldable pub text_line_char_set : Text → ℕ → ℤ → ℕ
  unfolding char_set_loop text_line_begin text_iterator_get in_line text_iterator_byte_get
  text_line_char_set t at count =
      let it = text_iterator_get t (text_line_begin t at) in
      let c = or_else (text_iterator_byte_get t it) 0 in
      if in_line t it then (char_set_loop (to_ℕ count) t c it).pos else it.pos

  unfoldable pub char_get_loop : ℕ → Text → (at c count : ℕ) → Iterator → ℕ
  unfolding text_iterator_char_next
  char_get_loop zero t at c count it = count
  char_get_loop (suc k) t at c count it =
      let s = text_iterator_char_next locale t it in
      let rest = char_get_loop k t at (or_else s.byte c) (count + 1) s.it in
      if ltb it.pos at && not (c == newline) && s.moved then rest else count

  unfoldable pub text_line_char_get : Text → ℕ → ℕ
  unfolding char_get_loop text_line_begin text_iterator_get in_line text_iterator_byte_get
  text_line_char_get t at =
      let it = text_iterator_get t (text_line_begin t at) in
      let c = or_else (text_iterator_byte_get t it) 0 in
      if in_line t it then char_get_loop (byte_fuel t) t at c 0 it else 0

  -- The shift state after a character: the initial one after an invalid sequence.
  abbrev pub next_shift : Decoded × Shift → Shift
  next_shift (invalid, ps) = initial
  next_shift (_, ps) = ps

  -- The bytes that show a character, unless the line or the text ends there.
  abbrev pub shows : List ℕ → Bool
  shows buf = not (length buf == 0) && not (head_or 0 buf == newline)

  unfoldable pub width_get_loop : ℕ → Text → (at : ℕ) → Shift → (width : ℕ) → Iterator → ℕ
  unfolding text_bytes_get text_iterator_codepoint_next width_of
  width_get_loop zero t at ps width it = width
  width_get_loop (suc k) t at ps width it =
      let buf = text_bytes_get t it.pos mb_len_max in
      let d = mbrtowc ps buf in
      let width' = width + width_of (head_or 0 buf) d.0 in
      let s = text_iterator_codepoint_next t it in
      let rest = width_get_loop k t at (next_shift d) width' s.it in
      if ltb it.pos at && shows buf then (if s.moved then rest else width') else width

  unfoldable pub text_line_width_get : Text → ℕ → ℕ
  unfolding width_get_loop text_line_begin text_iterator_get
  text_line_width_get t at =
      width_get_loop (byte_fuel t) t at initial 0 (text_iterator_get t (text_line_begin t at))

  unfoldable pub width_set_loop : ℕ → Text → ℤ → Shift → (cur_width : ℕ) → Iterator → Iterator
  unfolding text_bytes_get text_iterator_codepoint_next width_of
  width_set_loop zero t width ps cur it = it
  width_set_loop (suc k) t width ps cur it =
      let buf = text_bytes_get t it.pos mb_len_max in
      let d = mbrtowc ps buf in
      let cur' = cur + width_of (head_or 0 buf) d.0 in
      let s = text_iterator_codepoint_next t it in
      let rest = width_set_loop k t width (next_shift d) cur' s.it in
      if not (shows buf)
      then it
      else if at_least cur' width
      then it
      else if s.moved
      then rest
      else s.it

  unfoldable pub text_line_width_set : Text → ℕ → ℤ → ℕ
  unfolding width_set_loop text_line_begin text_iterator_get
  text_line_width_set t at width =
      (width_set_loop (byte_fuel t) t width initial 0
        (text_iterator_get t (text_line_begin t at))).pos

  unfoldable pub text_line_char_next : Text → ℕ → ℕ
  unfolding in_line text_iterator_char_next text_iterator_get
  text_line_char_next t at =
      let it = text_iterator_get t at in
      if in_line t it then (text_iterator_char_next locale t it).it.pos else at

  unfoldable pub text_line_char_prev : Text → ℕ → ℕ
  unfolding text_iterator_char_prev text_iterator_get
  text_line_char_prev t at =
      let s = text_iterator_char_prev locale t (text_iterator_get t at) in
      if not s.moved || or_else s.byte 0 == newline then at else s.it.pos

  unfoldable pub text_line_up : Text → ℕ → ℕ
  unfolding text_line_width_get text_line_prev text_line_width_set
  text_line_up t at = text_line_width_set t (text_line_prev t at) (pos (text_line_width_get t at))

  unfoldable pub text_line_down : Text → ℕ → ℕ
  unfolding text_line_width_get text_line_next text_line_width_set
  text_line_down t at =
      let next = text_line_next t at in
      if next == t.size then at else text_line_width_set t next (pos (text_line_width_get t at))

unfoldable pub text_range_line_first : Text → Filerange → ℕ
unfolding text_range_valid
text_range_line_first t r = if text_range_valid r then r.start else epos

unfoldable pub text_range_line_next : Text → Filerange → ℕ → ℕ
unfolding text_range_contains text_line_next
text_range_line_next t r at =
    let newpos = text_line_next t at in
    if not (text_range_contains r at)
    then epos
    else if not (newpos == at) && ltb newpos r.end
    then newpos
    else epos
