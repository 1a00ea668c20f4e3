-- ===== src/Text/Iterator/Lines.antt =====
-- Counting lines, with the cache of one position (text.c).
use vis.Prelude.{ℕ, zero, suc, ◌+◌, ◌-◌, not, List, [], ◌∷◌, drop, ltb, leb, ◌==◌, if◌then◌else◌}
use vis.Range.{epos}
use vis.Text.State.{Text}
use vis.Text.Iterator.{
  Iterator, text_iterator_get, text_iterator_valid, text_iterator_next, piece_bytes,
}
use vis.Text.Iterator.Search.{text_iterator_byte_find_prev}

abbrev pub newline : ℕ
newline = 10

-- The inner loop of `lines_count` over the bytes of one piece: how many bytes are left to look at,
-- and how many lines were seen.
unfoldable pub count_in : List ℕ → (len lines : ℕ) → ℕ × ℕ
count_in [] len lines = (len, lines)
count_in (x ∷ xs) len lines =
    let rest = count_in xs (len - 1) (if x == newline then lines + 1 else lines) in
    if len == 0 then (len, lines) else rest

unfoldable pub count_pieces : ℕ → Text → (len lines : ℕ) → Iterator → ℕ
unfolding count_in text_iterator_valid text_iterator_next
count_pieces zero t len lines it = lines
count_pieces (suc k) t len lines it =
    let here = count_in (drop it.off (piece_bytes t it)) len lines in
    let rest = count_pieces k t here.0 here.1 (text_iterator_next t it) in
    if not (text_iterator_valid t it) then lines else if here.0 == 0 then here.1 else rest

-- The newlines in `[pos, pos + len)`.
unfoldable pub lines_count : Text → ℕ → ℕ → ℕ
unfolding count_pieces text_iterator_get
lines_count t pos len = count_pieces (t.next_piece + 1) t len 0 (text_iterator_get t pos)

-- The inner loop of `lines_skip_forward`: the position, and the lines left to skip.
unfoldable pub skip_in : List ℕ → (pos lines : ℕ) → ℕ × ℕ
skip_in [] pos lines = (pos, lines)
skip_in (x ∷ xs) pos lines =
    let rest = skip_in xs (pos + 1) (if x == newline then lines - 1 else lines) in
    if lines == 0 then (pos, lines) else rest

unfoldable pub skip_lines : ℕ → Text → (pos lines : ℕ) → Iterator → ℕ × ℕ
unfolding skip_in text_iterator_valid text_iterator_next
skip_lines zero t pos lines it = (pos, lines)
skip_lines (suc k) t pos lines it =
    let here = skip_in (drop it.off (piece_bytes t it)) pos lines in
    let rest = skip_lines k t here.0 here.1 (text_iterator_next t it) in
    if not (text_iterator_valid t it) then (pos, lines) else if here.1 == 0 then here else rest

-- The position after the lines, and how many were skipped.
unfoldable pub lines_skip_forward : Text → ℕ → ℕ → ℕ × ℕ
unfolding skip_lines text_iterator_get
lines_skip_forward t pos lines =
    let r = skip_lines (t.next_piece + 1) t pos lines (text_iterator_get t pos) in
    (r.0, lines - r.1)

abbrev pub cached : Text → ℕ → ℕ → Text
cached t pos lineno = record t { lines = record { pos = pos; lineno = lineno } }

unfoldable pub text_pos_by_lineno : Text → ℕ → ℕ × Text
unfolding lines_skip_forward
text_pos_by_lineno t lineno =
    let c = t.lines in
    let further = lines_skip_forward t c.pos (lineno - c.lineno) in
    let anew = lines_skip_forward t 0 (lineno - 1) in
    let t' =
      if ltb c.lineno lineno
      then cached t further.0 (c.lineno + further.1)
      else if ltb lineno c.lineno
      then cached t anew.0 (anew.1 + 1)
      else t in
    if leb lineno 1 then (0, t) else (if t'.lines.lineno == lineno then t'.lines.pos else epos, t')

-- `text_line_begin`, which text-motions.c declares.
unfoldable pub text_line_begin : Text → ℕ → ℕ
unfolding text_iterator_byte_find_prev text_iterator_get
text_line_begin t pos =
    let (found, it) = text_iterator_byte_find_prev t (text_iterator_get t pos) newline in
    if found then it.pos + 1 else it.pos

unfoldable pub text_lineno_by_pos : Text → ℕ → ℕ × Text
unfolding lines_count text_line_begin
text_lineno_by_pos t pos0 =
    let pos = if ltb t.size pos0 then t.size else pos0 in
    let c = t.lines in
    let lineno =
      if ltb pos c.pos
      then (if ltb (c.pos - pos) pos
          then c.lineno - lines_count t pos (c.pos - pos)
          else lines_count t 0 pos + 1)
      else if ltb c.pos pos
      then c.lineno + lines_count t c.pos (pos - c.pos)
      else c.lineno in
    (lineno, cached t (text_line_begin t pos) lineno)
