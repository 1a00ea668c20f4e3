-- ===== src/Text/Iterator/Chars.antt =====
-- Code points and characters (text-iterator.c). The decoding of multi-byte characters and their
-- width are the C library's.
use vis.Prelude.{
  ℕ, zero, suc, ◌+◌, ◌/◌, ◌%◌, Bool, true, false, not, Option, none, some, List, ◌==◌,
  if◌then◌else◌,
}
use vis.Text.State.{Text}
use vis.Text.Iterator.{Iterator, Step, stay, text_iterator_byte_next, text_iterator_byte_prev}
use vis.Text.Iterator.Bytes.{text_bytes_get}

-- What `mbrtowc` makes of some bytes: -1 with `EILSEQ`, -2, 0, or a character of a number of bytes
-- with its `wcwidth`, where `none` is -1.
pub data Decoded : Type 0 where
  invalid incomplete nul : Decoded
  char : ℕ → Option ℕ → Decoded

-- The multi-byte decoder, with the shift state that it keeps between calls.
pub record Locale : Type 1 where
  pub Shift : Type 0
  pub initial : Shift
  pub mbrtowc : Shift → List ℕ → Decoded × Shift
  pub mb_len_max : ℕ

-- `ISUTF8`: the byte begins a UTF-8 sequence, `(c & 0xC0) != 0x80`.
unfoldable pub is_utf8 : ℕ → Bool
is_utf8 c = not (c / 64 % 4 == 2)

abbrev pub or_else : Option ℕ → ℕ → ℕ
or_else none d = d
or_else (some c) d = c

-- `while (step(it, &test_byte))` until a sequence begins.
unfoldable pub codepoint_loop : ℕ → (Iterator → Step) → Iterator → Step
unfolding is_utf8
codepoint_loop zero step it = stay it
codepoint_loop (suc k) step it =
    let s = step it in
    let rest = codepoint_loop k step s.it in
    if not s.moved then stay s.it else if is_utf8 (or_else s.byte 0) then s else rest

-- Enough rounds for any walk byte by byte over the text.
abbrev pub byte_fuel : Text → ℕ
byte_fuel t = t.size + t.next_piece + 2

unfoldable pub text_iterator_codepoint_next : Text → Iterator → Step
unfolding codepoint_loop text_iterator_byte_next
text_iterator_codepoint_next t it = codepoint_loop (byte_fuel t) (text_iterator_byte_next t) it

unfoldable pub text_iterator_codepoint_prev : Text → Iterator → Step
unfolding codepoint_loop text_iterator_byte_prev
text_iterator_codepoint_prev t it = codepoint_loop (byte_fuel t) (text_iterator_byte_prev t) it

-- Whether a character has no width, so that it belongs to the one before.
abbrev pub zero_width : Decoded → Bool
zero_width (char n (some w)) = w == 0
zero_width _ = false

abbrev pub is_incomplete : Decoded → Bool
is_incomplete incomplete = true
is_incomplete _ = false

module _ (locale : Locale) where
  open locale use {Shift, initial, mbrtowc, mb_len_max}

  -- The loop of `text_iterator_char_next`, after a first step `s`, with the shift state `ps`.
  unfoldable pub char_next_loop : ℕ → Text → Shift → Step → Step
  unfolding text_iterator_codepoint_next text_bytes_get
  char_next_loop zero t ps s = record s { moved = false }
  char_next_loop (suc k) t ps s =
      let (d, ps') = mbrtowc ps (text_bytes_get t s.it.pos mb_len_max) in
      let s' = text_iterator_codepoint_next t s.it in
      let kept : Step = record {
        moved = s'.moved;
        byte = some (or_else s'.byte (or_else s.byte 0));
        it = s'.it;
      } in
      let rest = char_next_loop k t ps' kept in
      if is_incomplete d
      then record s { moved = false }
      else if zero_width d
      then (if s'.moved then rest else record kept { moved = false })
      else s

  unfoldable pub text_iterator_char_next : Text → Iterator → Step
  unfolding char_next_loop
  text_iterator_char_next t it =
      let s = text_iterator_codepoint_next t it in
      if s.moved then char_next_loop (byte_fuel t) t initial s else s

  -- `text_iterator_char_prev` decodes each time from the initial shift state.
  unfoldable pub char_prev_loop : ℕ → Text → Step → Step
  unfolding text_iterator_codepoint_prev text_bytes_get
  char_prev_loop zero t s = record s { moved = false }
  char_prev_loop (suc k) t s =
      let d = (mbrtowc initial (text_bytes_get t s.it.pos mb_len_max)).0 in
      let s' = text_iterator_codepoint_prev t s.it in
      let kept : Step = record {
        moved = s'.moved;
        byte = some (or_else s'.byte (or_else s.byte 0));
        it = s'.it;
      } in
      let rest = char_prev_loop k t kept in
      if is_incomplete d
      then record s { moved = false }
      else if zero_width d
      then (if s'.moved then rest else record kept { moved = false })
      else s

  unfoldable pub text_iterator_char_prev : Text → Iterator → Step
  unfolding char_prev_loop
  text_iterator_char_prev t it =
      let s = text_iterator_codepoint_prev t it in
      if s.moved then char_prev_loop (byte_fuel t) t s else s
