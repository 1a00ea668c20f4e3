-- ===== src/Motions/Bracket.antt =====
-- Matching brackets and quotes (text-motions.c).
use vis.Prelude.{
  ℕ, zero, suc, ◌+◌, ◌-◌, Bool, true, false, not, Option, none, some, List, [], ◌∷◌, ltb, ◌==◌,
  if◌then◌else◌, ◌&&◌, ◌||◌,
}
use vis.Range.{Filerange}
use vis.Text.State.{Text}
use vis.Text.Iterator.{
  Iterator, Step, text_iterator_get, text_iterator_byte_get, text_iterator_byte_next,
  text_iterator_byte_prev,
}
use vis.Util.{memory_scan_forward}
use vis.Text.Iterator.Chars.{byte_fuel, or_else}
use vis.Text.Iterator.Lines.{text_lineno_by_pos}

abbrev pub double_quote : ℕ
double_quote = 34

-- Either loop of `match_symbol`, with its step and its limit.
unfoldable pub match_loop :
    ℕ
    → (Iterator → Step)
    → (outside : ℕ → Bool) → (current search count : ℕ) → (instring : Bool) → Iterator
    → Option ℕ
match_loop zero step outside current search count instring it = none
match_loop (suc k) step outside current search count instring it =
    let s = step it in
    let c = or_else s.byte 0 in
    let quoted = if not (c == current) && c == double_quote then not instring else instring in
    let left = if c == search then count - 1 else count in
    let count' = if quoted then count else if c == current then left + 1 else left in
    let rest = match_loop k step outside current search count' quoted s.it in
    if not s.moved
    then none
    else if outside s.it.pos
    then none
    else if not quoted && c == search && left == 0
    then some s.it.pos
    else rest

unfoldable pub match_symbol : Text → ℕ → ℕ → (forward : Bool) → Filerange → ℕ
unfolding match_loop text_iterator_get text_iterator_byte_get text_iterator_byte_next
    text_iterator_byte_prev
match_symbol t at search forward limits =
    let it = text_iterator_get t at in
    elim (text_iterator_byte_get t it) [
      | none ↦ at
      | some current ↦
          or_else
            (if forward
              then match_loop (byte_fuel t) (text_iterator_byte_next t)
                  (λ p. not (ltb p limits.end)) current search 1 false it
              else match_loop (byte_fuel t) (text_iterator_byte_prev t) (λ p. ltb p limits.start)
                  current search 1 false it)
            at
    ]

-- The symbol that a bracket is matched with, and whether it is searched forward.
unfoldable pub partner : ℕ → Option (ℕ × Bool)
partner c =
    if c == b'('
    then some (b')', true)
    else if c == b')'
    then some (b'(', false)
    else if c == b'{'
    then some (b'}', true)
    else if c == b'}'
    then some (b'{', false)
    else if c == b'['
    then some (b']', true)
    else if c == b']'
    then some (b'[', false)
    else if c == b'<'
    then some (b'>', true)
    else if c == b'>'
    then some (b'<', false)
    else none

unfoldable pub is_quote : ℕ → Bool
is_quote c = c == double_quote || c == 96 || c == 39

-- The characters of `special`, its terminator included.
abbrev pub special : List ℕ
special = b' ' ∷ b'\t' ∷ b'\n' ∷ b')' ∷ b'}' ∷ b']' ∷ b'>' ∷ b'.' ∷ b',' ∷ b':' ∷ b';' ∷ 0 ∷ []

-- Whether a byte was found by the scan.
abbrev pub is_some : Option ℕ → Bool
is_some none = false
is_some (some i) = true

-- Which of the two matches of a quote is meant. Counting lines moves the cache of the text.
unfoldable pub quote_match : Text → ℕ → (fw bw : ℕ) → Iterator → ℕ × Text
unfolding text_lineno_by_pos text_iterator_byte_next memory_scan_forward
quote_match t at fw bw it =
    let (line, t1) = text_lineno_by_pos t at in
    let (line_fw, t2) = text_lineno_by_pos t1 fw in
    let (line_bw, t3) = text_lineno_by_pos t2 bw in
    let s = text_iterator_byte_next t3 it in
    let backward = s.moved && is_some (memory_scan_forward special (or_else s.byte 0)) in
    if fw == at
    then (bw, t)
    else if bw == at
    then (fw, t)
    else if not (line == line_fw)
    then (bw, t3)
    else if not (line == line_bw)
    then (fw, t3)
    else (if backward then bw else fw, t3)

-- Whether `symbols` lets a character be matched.
abbrev pub admits : Option (List ℕ) → ℕ → Bool
admits none c = true
admits (some symbols) c = is_some (memory_scan_forward symbols c)

unfoldable pub text_bracket_match_symbol : Text → ℕ → Option (List ℕ) → Filerange → ℕ × Text
unfolding match_symbol partner is_quote quote_match text_iterator_get text_iterator_byte_get
    memory_scan_forward
text_bracket_match_symbol t at symbols limits =
    let it = text_iterator_get t at in
    elim (text_iterator_byte_get t it) [
      | none ↦ (at, t)
      | some current ↦
          let fw = match_symbol t at current true limits in
          let bw = match_symbol t at current false limits in
          if not (admits symbols current)
          then (at, t)
          else if is_quote current
          then quote_match t at fw bw it
          else elim (partner current) [
            | none ↦ (at, t)
            | some m ↦ (match_symbol t at m.0 m.1 limits, t)
          ]
    ]

unfoldable pub text_bracket_match : Text → ℕ → Filerange → ℕ × Text
unfolding text_bracket_match_symbol
text_bracket_match t at limits = text_bracket_match_symbol t at none limits
