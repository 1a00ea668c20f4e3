-- ===== src/Text/Iterator.antt =====
-- Iterators over the pieces (text.c and text-iterator.c). `off` is `text - start`, `len` is
-- `end - start`, and `set` tells that `text` is not `NULL`.
pub mod Bytes
pub mod Search
pub mod Chars
pub mod Lines
use vis.Prelude.{
  ℕ, zero, suc, ◌+◌, ◌-◌, ◌/◌, Bool, true, false, not, Option, none, some, List, [], ◌∷◌, length,
  take, drop, ltb, ◌==◌, if◌then◌else◌, ◌&&◌,
}
use vis.Text.State.{Ptr, null, Data, no_data, literal, in_block, Location, Text, slice}
use vis.Text.Spans.{piece_get_extern}

pub record Iterator : Type 0 where
  pub pos : ℕ
  pub piece : Ptr
  pub off : ℕ
  pub len : ℕ
  pub set : Bool

abbrev pub has_data : Data → Bool
has_data no_data = false
has_data literal = true
has_data (in_block i off) = true

unfoldable pub text_iterator_valid : Text → Iterator → Bool
text_iterator_valid t it = not (it.piece == null) && (t.piece it.piece).text

-- `iterator_init` without its result, which is `text_iterator_valid` of the new iterator.
unfoldable pub iterator_init : Text → ℕ → Ptr → ℕ → Iterator
iterator_init t pos p off =
    if not (p == null) && has_data (t.piece p).source
    then record { pos = pos; piece = p; off = off; len = (t.piece p).len; set = true }
    else record { pos = pos; piece = p; off = 0; len = 0; set = false }

unfoldable pub text_iterator_get : Text → ℕ → Iterator
unfolding iterator_init
text_iterator_get t pos = let loc = piece_get_extern t pos in iterator_init t pos loc.piece loc.off

unfoldable pub text_iterator_next : Text → Iterator → Iterator
unfolding iterator_init
text_iterator_next t it =
    iterator_init t (it.pos + (it.len - it.off))
      (if it.piece == null then null else (t.piece it.piece).next) 0

-- The piece before the iterator's, or `NULL`.
abbrev pub prev_piece : Text → Iterator → Ptr
prev_piece t it = if it.piece == null then null else (t.piece it.piece).prev

unfoldable pub text_iterator_prev : Text → Iterator → Iterator
unfolding iterator_init
text_iterator_prev t it =
    iterator_init t (it.pos - it.off) (prev_piece t it)
      (if prev_piece t it == null then 0 else (t.piece (prev_piece t it)).len)

unfoldable pub text_iterator_has_next : Text → Iterator → Bool
text_iterator_has_next t it = not (it.piece == null) && not ((t.piece it.piece).next == null)

unfoldable pub text_iterator_has_prev : Text → Iterator → Bool
text_iterator_has_prev t it = not (it.piece == null) && not ((t.piece it.piece).prev == null)

abbrev pub head_or : ℕ → List ℕ → ℕ
head_or d [] = d
head_or d (x ∷ xs) = x

-- The bytes of the iterator's piece, and `*it->text`.
abbrev pub piece_bytes : Text → Iterator → List ℕ
piece_bytes t it = slice (t.piece it.piece).source (t.piece it.piece).len t.block

abbrev pub byte_at : Text → Iterator → ℕ
byte_at t it = head_or 0 (drop it.off (piece_bytes t it))

unfoldable pub text_iterator_byte_get : Text → Iterator → Option ℕ
unfolding text_iterator_valid
text_iterator_byte_get t it =
    if text_iterator_valid t it
    then (if ltb it.off it.len
        then some (byte_at t it)
        else if it.pos == t.size
        then some 0
        else none)
    else none

-- The result of a step: whether it was made, the byte that was stored, if one was, and the iterator.
pub record Step : Type 0 where
  pub moved : Bool
  pub byte : Option ℕ
  pub it : Iterator

abbrev pub stay : Iterator → Step
stay it = record { moved = false; byte = none; it = it }

-- The loop `while (it->text == it->end)` of `text_iterator_byte_next`.
unfoldable pub skip_ends : ℕ → Text → (eof : Bool) → Iterator → Step
unfolding text_iterator_valid text_iterator_next text_iterator_prev
skip_ends zero t eof it = stay it
skip_ends (suc k) t eof it =
    let next = text_iterator_next t it in
    let back = text_iterator_prev t next in
    let rest = skip_ends k t eof next in
    if not (it.off == it.len)
    then record { moved = true; byte = some (byte_at t it); it = it }
    else if not (text_iterator_valid t next)
    then (if eof
        then stay next
        else record { moved = text_iterator_valid t back; byte = some 0; it = back })
    else rest

unfoldable pub text_iterator_byte_next : Text → Iterator → Step
unfolding skip_ends text_iterator_has_next text_iterator_has_prev
text_iterator_byte_next t it =
    if not (text_iterator_has_next t it)
    then stay it
    else if not (it.off == it.len)
    then skip_ends (t.next_piece + 1) t false (record it { off = it.off + 1; pos = it.pos + 1 })
    else skip_ends (t.next_piece + 1) t (text_iterator_has_prev t it) it

-- The loop of `text_iterator_byte_prev`, and the step back after it.
unfoldable pub skip_starts : ℕ → Text → (eof : Bool) → Iterator → Step
unfolding text_iterator_valid text_iterator_next text_iterator_prev
skip_starts zero t eof it = stay it
skip_starts (suc k) t eof it =
    let before = text_iterator_prev t it in
    let back = text_iterator_next t before in
    let rest = skip_starts k t eof before in
    if not (it.off == 0)
    then (let it' : Iterator = record it { off = it.off - 1; pos = it.pos - 1 } in
        record { moved = true; byte = some (byte_at t it'); it = it' })
    else if not (text_iterator_valid t before)
    then (if eof
        then record { moved = text_iterator_valid t back; byte = some 0; it = back }
        else stay before)
    else rest

unfoldable pub text_iterator_byte_prev : Text → Iterator → Step
unfolding skip_starts text_iterator_has_next text_iterator_has_prev
text_iterator_byte_prev t it =
    if not (text_iterator_has_prev t it)
    then stay it
    else skip_starts (t.next_piece + 1) t (not (text_iterator_has_next t it)) it
