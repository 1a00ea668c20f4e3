-- ===== src/Motions/Search.antt =====
-- Single steps, and searching a string (text-motions.c).
use vis.Prelude.{
  ℕ, zero, suc, ◌+◌, ◌-◌, ◌*◌, Bool, true, false, not, Option, none, some, List, length, drop, ltb,
  ◌==◌, if◌then◌else◌, ◌&&◌,
}
use vis.Text.State.{Text}
use vis.Text.Iterator.{
  Iterator, head_or, text_iterator_get, text_iterator_byte_get, text_iterator_byte_next,
  text_iterator_byte_prev,
}
use vis.Text.Iterator.Chars.{
  Locale, byte_fuel, or_else, text_iterator_char_next, text_iterator_char_prev,
  text_iterator_codepoint_next, text_iterator_codepoint_prev,
}

unfoldable pub text_codepoint_next : Text → ℕ → ℕ
unfolding text_iterator_codepoint_next text_iterator_get
text_codepoint_next t pos = (text_iterator_codepoint_next t (text_iterator_get t pos)).it.pos

unfoldable pub text_codepoint_prev : Text → ℕ → ℕ
unfolding text_iterator_codepoint_prev text_iterator_get
text_codepoint_prev t pos = (text_iterator_codepoint_prev t (text_iterator_get t pos)).it.pos

module _ (locale : Locale) where
  unfoldable pub text_char_next : Text → ℕ → ℕ
  unfolding text_iterator_char_next text_iterator_get
  text_char_next t pos = (text_iterator_char_next locale t (text_iterator_get t pos)).it.pos

  unfoldable pub text_char_prev : Text → ℕ → ℕ
  unfolding text_iterator_char_prev text_iterator_get
  text_char_prev t pos = (text_iterator_char_prev locale t (text_iterator_get t pos)).it.pos

-- `s[i]`.
abbrev pub char_at : List ℕ → ℕ → ℕ
char_at s i = head_or 0 (drop i s)

-- The loop of `find_next`: how much is matched, the iterator, and `sit`, where the match began.
-- A match that breaks off goes on behind its beginning. The fuel bounds the restarts too.
unfoldable pub find_next_loop :
    ℕ → Text → (s : List ℕ) → (line : Bool) → ℕ → (it sit : Iterator) → ℕ × Iterator
unfolding text_iterator_byte_get text_iterator_byte_next
find_next_loop zero t s line matched it sit = (matched, it)
find_next_loop (suc k) t s line matched it sit = elim (text_iterator_byte_get t it) [
  | none ↦ (matched, it)
  | some c ↦
      let hit = c == char_at s matched in
      let matched' = if hit then matched + 1 else 0 in
      let sit' = if hit && matched == 0 then it else sit in
      let from = if not hit && ltb 0 matched then sit else it in
      let it' = (text_iterator_byte_next t from).it in
      let rest = find_next_loop k t s line matched' it' sit' in
      if not (ltb matched (length s))
      then (matched, it)
      else if line && c == b'\n'
      then (matched', it')
      else rest
]

unfoldable pub find_next : Text → ℕ → Option (List ℕ) → Bool → ℕ
unfolding find_next_loop text_iterator_get
find_next t pos none line = pos
find_next t pos (some s) line =
    let start = text_iterator_get t pos in
    let r = find_next_loop ((byte_fuel t + 1) * (length s + 1)) t s line 0 start start in
    if r.0 == length s then r.1.pos - length s else pos

unfoldable pub text_find_next : Text → ℕ → Option (List ℕ) → ℕ
unfolding find_next
text_find_next t pos s = find_next t pos s false

unfoldable pub text_line_find_next : Text → ℕ → Option (List ℕ) → ℕ
unfolding find_next
text_line_find_next t pos s = find_next t pos s true

-- The loop of `find_prev`, from the last byte of `s` to the first, `matched` being the next index;
-- `none` if nothing was found.
unfoldable pub find_prev_loop :
    ℕ → Text → (s : List ℕ) → (line : Bool) → ℕ → (it sit : Iterator) → Option ℕ
unfolding text_iterator_byte_prev
find_prev_loop zero t s line matched it sit = none
find_prev_loop (suc k) t s line matched it sit =
    let r = text_iterator_byte_prev t it in
    let c = or_else r.byte 0 in
    let hit = c == char_at s matched in
    let last = length s - 1 in
    let matched' = if hit then matched - 1 else last in
    let it' = if not hit && ltb matched last then sit else r.it in
    let sit' = if hit && matched == last then r.it else sit in
    let rest = find_prev_loop k t s line matched' it' sit' in
    if not r.moved
    then none
    else if hit && matched == 0
    then some r.it.pos
    else if line && c == b'\n'
    then none
    else rest

unfoldable pub find_prev : Text → ℕ → Option (List ℕ) → Bool → ℕ
unfolding find_prev_loop text_iterator_get
find_prev t pos none line = pos
find_prev t pos (some s) line =
    let start = text_iterator_get t pos in
    if length s == 0
    then pos
    else or_else
        (find_prev_loop ((byte_fuel t + 1) * (length s + 1)) t s line (length s - 1) start start)
        pos

unfoldable pub text_find_prev : Text → ℕ → Option (List ℕ) → ℕ
unfolding find_prev
text_find_prev t pos s = find_prev t pos s false

unfoldable pub text_line_find_prev : Text → ℕ → Option (List ℕ) → ℕ
unfolding find_prev
text_line_find_prev t pos s = find_prev t pos s true
