-- ===== src/Text/Insert.antt =====
-- `text_insert` of text.c.
use vis.Prelude.{ℕ, ◌-◌, Option, none, some, List, length, ltb, ◌==◌, if◌then◌else◌}
use vis.Text.State.{
  Run, ok, failed, ◌>>=◌, Ptr, null, Data, Span, Text, Env, advance, empty_span, Location,
}
use vis.Text.Blocks.{block_store}
use vis.Text.Spans.{piece_alloc, piece_init, span_init, span_swap, piece_get_intern}
use vis.Text.Revisions.{text_change_alloc, edit_change}
use vis.Text.Cache.{cache_piece, cache_insert}

abbrev pub lineno_cache_invalidate : Text → Text
lineno_cache_invalidate t = record t { lines = record { pos = 0; lineno = 1 } }

-- `if (pos < txt->lines.pos) lineno_cache_invalidate(&txt->lines)`.
abbrev pub invalidate_before : Text → ℕ → Text
invalidate_before t pos = if ltb pos t.lines.pos then lineno_cache_invalidate t else t

-- The change gets its two spans, the new piece may be cached, and the spans are swapped.
unfoldable pub finish_insert : Text → Ptr → Ptr → (old new : Span) → Text
finish_insert t r p old new =
    span_swap (cache_piece (edit_change t r λ c. record c { old = old; new = new }) p) old new

-- Between two pieces: one new piece after `p`.
unfoldable pub insert_between : Env → Text → Ptr → Ptr → Data → ℕ → Run (Unit {0})
unfolding finish_insert
insert_between env t r p source n = do
  (new, t1) ← piece_alloc env t
  let t2 = piece_init t1 new p (t1.piece p).next source n
  ok (tt, finish_insert t2 r new empty_span (span_init t2 new new))

-- The three pieces that replace `p`, linked, and the swap.
unfoldable pub split_piece : Text → Ptr → Ptr → ℕ → Data → ℕ → (before new after : Ptr) → Text
unfolding finish_insert
split_piece t r p off source n before new after =
    let t1 = piece_init t before (t.piece p).prev new (t.piece p).source off in
    let t2 = piece_init t1 new before after source n in
    let t3 =
      piece_init t2 after new (t2.piece p).next (advance (t2.piece p).source off)
        ((t2.piece p).len - off) in
    finish_insert t3 r new (span_init t3 p p) (span_init t3 before after)

-- Into the middle of `p`, which three new pieces replace. The source allocates all three before it
-- looks whether one failed; here the first failure ends it, and nothing refers to the pieces.
unfoldable pub insert_middle : Env → Text → Ptr → Ptr → ℕ → Data → ℕ → Run (Unit {0})
unfolding split_piece
insert_middle env t r p off source n = do
  (before, t1) ← piece_alloc env t
  (new, t2) ← piece_alloc env t1
  (after, t3) ← piece_alloc env t2
  ok (tt, split_piece t3 r p off source n before new after)

-- The change in the pieces, once the data is stored.
unfoldable pub insert_stored : Env → Text → Ptr → Ptr → ℕ → Data → ℕ → Run (Unit {0})
unfolding insert_between insert_middle
insert_stored env t r p off source n =
    if off == (t.piece p).len
    then insert_between env t r p source n
    else insert_middle env t r p off source n

unfoldable pub insert_change : Env → Text → ℕ → Ptr → ℕ → List ℕ → Run (Unit {0})
unfolding insert_stored
insert_change env t pos p off s = do
  (r, t1) ← text_change_alloc env t pos
  (source, t2) ← block_store env t1 s
  insert_stored env t2 r p off source (length s)

-- A successful cache insertion, or else a change.
unfoldable pub insert_uncached : Env → Text → ℕ → Location → List ℕ → Option Text → Run (Unit {0})
unfolding insert_change
insert_uncached env t pos loc s (some t') = ok (tt, t')
insert_uncached env t pos loc s none = insert_change env t pos loc.piece loc.off s

unfoldable pub insert_at : Env → Text → ℕ → Location → List ℕ → Run (Unit {0})
unfolding insert_uncached
insert_at env t pos loc s =
    if loc.piece == null
    then failed t
    else insert_uncached env t pos loc s (cache_insert t loc.piece loc.off s)

-- The result `true` is `ok`, and `false` is `failed`.
unfoldable pub text_insert : Env → Text → ℕ → List ℕ → Run (Unit {0})
unfolding insert_at
text_insert env t pos s =
    if length s == 0
    then ok (tt, t)
    else if ltb t.size pos
    then failed t
    else (let t1 = invalidate_before t pos in insert_at env t1 pos (piece_get_intern t1 pos) s)
