-- ===== src/Text/Iterator/Bytes.antt =====
-- Copying bytes out of a text, and marks (text-common.c, text.c).
use vis.Prelude.{
  ℕ, zero, suc, ◌+◌, ◌-◌, not, Option, none, some, List, [], ◌++◌, length, take, drop, ltb, leb,
  ◌==◌, if◌then◌else◌, ◌&&◌,
}
use vis.Range.{epos}
use vis.Text.State.{Ptr, null, begin, Data, in_block, Piece, Text, advance}
use vis.Text.Spans.{piece_get_extern}
use vis.Text.Iterator.{
  Iterator, text_iterator_get, text_iterator_valid, text_iterator_next, piece_bytes, head_or,
}

-- The loop of `text_bytes_get`, with `rem` bytes still to copy.
unfoldable pub bytes_get : ℕ → Text → ℕ → Iterator → List ℕ
unfolding text_iterator_valid text_iterator_next
bytes_get zero t rem it = []
bytes_get (suc k) t rem it =
    let here = take rem (drop it.off (piece_bytes t it)) in
    let rest = bytes_get k t (rem - length here) (text_iterator_next t it) in
    if not (text_iterator_valid t it) then [] else if rem == 0 then [] else here ++ rest

-- The bytes that are copied to the buffer; the function returns how many.
unfoldable pub text_bytes_get : Text → ℕ → ℕ → List ℕ
unfolding bytes_get text_iterator_get
text_bytes_get t pos len = bytes_get (t.next_piece + 1) t len (text_iterator_get t pos)

unfoldable pub text_byte_get : Text → ℕ → Option ℕ
unfolding text_bytes_get
text_byte_get t pos =
    if length (text_bytes_get t pos 1) == 0 then none else some (head_or 0 (text_bytes_get t pos 1))

-- A mark is the address of a byte, that of the end sentinel, or `EMARK`.
pub data Mark : Type 0 where
  end_mark : Mark
  at_data : Data → Mark
  no_mark : Mark

unfoldable pub text_mark_set : Text → ℕ → Mark
text_mark_set t pos =
    let loc = piece_get_extern t pos in
    if pos == t.size
    then end_mark
    else if loc.piece == null
    then no_mark
    else at_data (advance (t.piece loc.piece).source loc.off)

-- How far an address lies into a piece, if it does.
unfoldable pub data_offset : Data → Data → ℕ → Option ℕ
data_offset (in_block i m) (in_block j start) n =
    if i == j && leb start m && ltb m (start + n) then some (m - start) else none
data_offset _ _ n = none

-- The loop of `text_mark_get`: the position of the byte at address `m`.
unfoldable pub mark_get : ℕ → (ℕ → Piece) → Data → Ptr → ℕ → ℕ
unfolding data_offset
mark_get zero piece m p cur = epos
mark_get (suc k) piece m p cur =
    let rest = mark_get k piece m (piece p).next (cur + (piece p).len) in
    if (piece p).next == null
    then epos
    else elim (data_offset m (piece p).source (piece p).len) [ some d ↦ cur + d | none ↦ rest ]

unfoldable pub text_mark_get : Text → Mark → ℕ
unfolding mark_get
text_mark_get t no_mark = epos
text_mark_get t end_mark = t.size
text_mark_get t (at_data m) = mark_get (t.next_piece + 1) t.piece m (t.piece begin).next 0
