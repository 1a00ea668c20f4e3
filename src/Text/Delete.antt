-- ===== src/Text/Delete.antt =====
-- `text_delete` and `text_delete_range` of text.c.
use vis.Prelude.{
  ℕ, zero, suc, ◌+◌, ◌-◌, Bool, true, false, Option, none, some, ltb, ◌==◌, if◌then◌else◌,
}
use vis.Range.{Filerange, text_range_valid, text_range_size}
use vis.Text.State.{Run, ok, failed, ◌>>=◌, Ptr, null, Piece, Text, Env, advance, Location}
use vis.Text.Blocks.{addu}
use vis.Text.Spans.{piece_alloc, piece_init, span_init, span_swap, piece_get_intern}
use vis.Text.Revisions.{text_change_alloc, edit_change}
use vis.Text.Cache.{cache_delete}
use vis.Text.Insert.{invalidate_before}

-- The pieces that fall into the deletion: from `p` with `cur` bytes deleted so far to the piece
-- where at least `n` are.
unfoldable pub skip_pieces : ℕ → (ℕ → Piece) → (n : ℕ) → Ptr → (cur : ℕ) → Ptr × ℕ
skip_pieces zero piece n p cur = (p, cur)
skip_pieces (suc k) piece n p cur =
    let rest = skip_pieces k piece n (piece p).next (cur + (piece (piece p).next).len) in
    if ltb cur n then rest else (p, cur)

-- Where the deletion starts: whether midway in a piece, the piece before it, the first piece of the
-- span, and the bytes of the start piece that are deleted.
pub record DeleteStart : Type 0 where
  pub midway : Bool
  pub before : Ptr
  pub start : Ptr
  pub cur : ℕ

unfoldable pub delete_start : Env → Text → Ptr → ℕ → Run DeleteStart
delete_start env t p off =
    if off == (t.piece p).len
    then ok (record { midway = false; before = p; start = (t.piece p).next; cur = 0 }, t)
    else do
      (before, t1) ← piece_alloc env t
      ok (record { midway = true; before = before; start = p; cur = (t.piece p).len - off }, t1)

-- Where it stops: the last piece of the span, whether midway in it, and the piece after it.
pub record DeleteStop : Type 0 where
  pub midway : Bool
  pub last : Ptr
  pub after : Ptr

unfoldable pub delete_stop : Env → Text → (before p : Ptr) → (cur n : ℕ) → Run DeleteStop
delete_stop env t before p cur n =
    if cur == n then ok (record { midway = false; last = p; after = (t.piece p).next }, t) else do
      (after, t1) ← piece_alloc env t
      ok (
        record { midway = true; last = p; after = after },
        piece_init t1 after before (t1.piece p).next
            (advance (t1.piece p).source ((t1.piece p).len - (cur - n))) (cur - n),
      )

-- The span of new pieces: `before`, `after`, both or none.
unfoldable pub new_start : DeleteStart → DeleteStop → Ptr
new_start a z = if a.midway then a.before else if z.midway then z.after else null

unfoldable pub new_end : DeleteStart → DeleteStop → Ptr
new_end a z = if z.midway then z.after else if a.midway then a.before else null

-- `before` is linked, the change gets its spans, and they are swapped.
unfoldable pub finish_delete : Text → Ptr → ℕ → DeleteStart → DeleteStop → Text
unfolding new_start new_end
finish_delete t r off a z =
    let t1 =
      if a.midway
      then piece_init t a.before (t.piece a.start).prev z.after (t.piece a.start).source off
      else t in
    let new = span_init t1 (new_start a z) (new_end a z) in
    let old = span_init t1 a.start z.last in
    span_swap (edit_change t1 r λ c. record c { old = old; new = new }) old new

-- What follows the allocation of the change `r`.
unfoldable pub delete_span : Env → Text → Ptr → Ptr → ℕ → ℕ → Run (Unit {0})
unfolding skip_pieces delete_start delete_stop finish_delete
delete_span env t r p off n = do
  (a, t1) ← delete_start env t p off
  let (q, cur) = skip_pieces (t1.next_piece + 1) t1.piece n p a.cur
  (z, t2) ← delete_stop env t1 a.before q cur n
  ok (tt, finish_delete t2 r off a z)

unfoldable pub delete_change : Env → Text → ℕ → Ptr → ℕ → ℕ → Run (Unit {0})
unfolding delete_span
delete_change env t pos p off n = do
  (r, t1) ← text_change_alloc env t pos
  delete_span env t1 r p off n

unfoldable pub delete_uncached : Env → Text → ℕ → Location → ℕ → Option Text → Run (Unit {0})
unfolding delete_change
delete_uncached env t pos loc n (some t') = ok (tt, t')
delete_uncached env t pos loc n none = delete_change env t pos loc.piece loc.off n

unfoldable pub delete_at : Env → Text → ℕ → Location → ℕ → Run (Unit {0})
unfolding delete_uncached
delete_at env t pos loc n =
    if loc.piece == null
    then failed t
    else delete_uncached env t pos loc n (cache_delete t loc.piece loc.off n)

-- Whether `pos + n` fits a `size_t` and lies within the text.
unfoldable pub in_text : Option ℕ → ℕ → Bool
in_text none size = false
in_text (some e) size = if ltb size e then false else true

unfoldable pub text_delete : Env → Text → ℕ → ℕ → Run (Unit {0})
unfolding in_text delete_at
text_delete env t pos n =
    if n == 0
    then ok (tt, t)
    else if in_text (addu pos n) t.size
    then (let t1 = invalidate_before t pos in delete_at env t1 pos (piece_get_intern t1 pos) n)
    else failed t

unfoldable pub text_delete_range : Env → Text → Filerange → Run (Unit {0})
unfolding text_delete
text_delete_range env t r =
    if text_range_valid r then text_delete env t r.start (text_range_size r) else failed t
