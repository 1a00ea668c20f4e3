-- ===== src/Objects/Bracket.antt =====
-- Brackets and quotes as ranges (text-objects.c), and the motions to the ends of blocks and
-- parentheses (text-motions.c). Matching quotes counts lines, which moves the text's cache.
use vis.Prelude.{
  ℕ, zero, suc, ◌+◌, ◌-◌, ◌%◌, Bool, not, Option, none, some, ◌==◌, if◌then◌else◌, ◌&&◌, ◌||◌,
}
use vis.Range.{Filerange, range, epos, c_min, c_max, text_range_empty, text_range_valid}
use vis.Text.State.{Text}
use vis.Text.Blocks.{size_mod}
use vis.Text.Iterator.{
  Iterator, Step, text_iterator_get, text_iterator_byte_get, text_iterator_byte_next,
  text_iterator_byte_prev,
}
use vis.Text.Iterator.Chars.{byte_fuel, or_else}
use vis.Motions.Bracket.{double_quote, is_quote, text_bracket_match}

-- The opening and the closing symbol of a type of bracket.
unfoldable pub bracket_pair : ℕ → Option (ℕ × ℕ)
unfolding is_quote
bracket_pair type =
    if type == b'(' || type == b')'
    then some (b'(', b')')
    else if type == b'{' || type == b'}'
    then some (b'{', b'}')
    else if type == b'[' || type == b']'
    then some (b'[', b']')
    else if type == b'<' || type == b'>'
    then some (b'<', b'>')
    else if is_quote type
    then some (type, type)
    else none

-- Either loop of `text_object_bracket`: the position of the symbol `this` that `count` more of them
-- than of `that` lead to.
unfoldable pub bracket_loop :
    ℕ → Text → (Iterator → Step) → (at this that count : ℕ) → Iterator → Option ℕ
unfolding text_iterator_byte_get
bracket_loop zero t step at this that count it = none
bracket_loop (suc k) t step at this that count it = elim (text_iterator_byte_get t it) [
  | none ↦ none
  | some c ↦
      let left = if c == this then count - 1 else count in
      let count' = if c == that && not (it.pos == at) then left + 1 else left in
      let rest = bracket_loop k t step at this that count' (step it).it in
      if c == this && left == 0 then some it.pos else rest
]

abbrev pub plus : Option ℕ → ℕ → Option ℕ
plus none n = none
plus (some p) n = some (p + n)

-- The range between two brackets, the invalid one if either was not found.
unfoldable pub between_brackets : Text → (at opening closing : ℕ) → Filerange
unfolding bracket_loop text_iterator_get text_iterator_byte_next text_iterator_byte_prev
between_brackets t at opening closing =
    let it = text_iterator_get t at in
    let first = bracket_loop (byte_fuel t) t (text_iterator_byte_prev t) at opening closing 1 it in
    let last = bracket_loop (byte_fuel t) t (text_iterator_byte_next t) at closing opening 1 it in
    let r = range (or_else (plus first 1) epos) (or_else last epos) in
    if text_range_valid r then r else text_range_empty

abbrev pub quote_at : Option ℕ → Bool
quote_at none = Bool.false
quote_at (some c) = is_quote c

-- `text_range_unlimited`.
abbrev pub text_range_unlimited : Filerange
text_range_unlimited = range 0 (epos - 1)

unfoldable pub text_object_bracket : Text → ℕ → ℕ → Filerange × Text
unfolding bracket_pair between_brackets is_quote text_bracket_match text_iterator_get
    text_iterator_byte_get
text_object_bracket t at type = elim (bracket_pair type) [
  | none ↦ (text_range_empty, t)
  | some p ↦
      let m = text_bracket_match t at text_range_unlimited in
      if p.0 == p.1 && quote_at (text_iterator_byte_get t (text_iterator_get t at))
      then (range (c_min at m.0 + 1) (c_max at m.0), m.1)
      else (between_brackets t at p.0 p.1, t)
]

unfoldable pub text_object_square_bracket : Text → ℕ → Filerange × Text
unfolding text_object_bracket
text_object_square_bracket t at = text_object_bracket t at b']'

unfoldable pub text_object_curly_bracket : Text → ℕ → Filerange × Text
unfolding text_object_bracket
text_object_curly_bracket t at = text_object_bracket t at b'}'

unfoldable pub text_object_angle_bracket : Text → ℕ → Filerange × Text
unfolding text_object_bracket
text_object_angle_bracket t at = text_object_bracket t at b'>'

unfoldable pub text_object_parenthesis : Text → ℕ → Filerange × Text
unfolding text_object_bracket
text_object_parenthesis t at = text_object_bracket t at b')'

unfoldable pub text_object_quote : Text → ℕ → Filerange × Text
unfolding text_object_bracket
text_object_quote t at = text_object_bracket t at double_quote

unfoldable pub text_object_single_quote : Text → ℕ → Filerange × Text
unfolding text_object_bracket
text_object_single_quote t at = text_object_bracket t at 39

unfoldable pub text_object_backtick : Text → ℕ → Filerange × Text
unfolding text_object_bracket
text_object_backtick t at = text_object_bracket t at 96

-- `pos - 1` and `pos + 1` of a `size_t`.
abbrev pub before : ℕ → ℕ
before at = if at == 0 then epos else at - 1

abbrev pub behind : ℕ → ℕ
behind at = (at + 1) % size_mod

abbrev pub start_of : ℕ → Filerange × Text → ℕ × Text
start_of at (r, t) = (if text_range_valid r then r.start - 1 else at, t)

abbrev pub end_of : ℕ → Filerange × Text → ℕ × Text
end_of at (r, t) = (if text_range_valid r then r.end else at, t)

unfoldable pub text_block_start : Text → ℕ → ℕ × Text
unfolding text_object_curly_bracket
text_block_start t at = start_of at (text_object_curly_bracket t (before at))

unfoldable pub text_block_end : Text → ℕ → ℕ × Text
unfolding text_object_curly_bracket
text_block_end t at = end_of at (text_object_curly_bracket t (behind at))

unfoldable pub text_parenthesis_start : Text → ℕ → ℕ × Text
unfolding text_object_parenthesis
text_parenthesis_start t at = start_of at (text_object_parenthesis t (before at))

unfoldable pub text_parenthesis_end : Text → ℕ → ℕ × Text
unfolding text_object_parenthesis
text_parenthesis_end t at = end_of at (text_object_parenthesis t (behind at))
