-- ===== src/Text/Load.antt =====
-- `vis_text_load` of text.c. What `block_load` returns and whether it set `errno` are the file
-- system's, so they are arguments.
use vis.Prelude.{ℕ, ◌+◌, ◌-◌, false, Option, none, some, length}
use vis.Range.{epos}
use vis.Text.State.{
  Run, ok, failed, ◌>>=◌, Ptr, null, begin, end, Data, no_data, literal, in_block, Piece, Block,
  Text, Env, update, new_revision,
}
use vis.Text.Spans.{piece_alloc, piece_init}
use vis.Text.Revisions.{text_change_alloc, text_snapshot}

-- A sentinel, as `calloc` leaves it.
abbrev pub sentinel : Piece
sentinel = record { text = false; prev = null; next = null; source = no_data; len = 0 }

-- `calloc(1, sizeof *txt)`, with the line cache as `lineno_cache_invalidate` sets it.
abbrev pub empty_text : Text
empty_text = record {
  block = λ _. none;
  count = 0;
  piece = λ _. sentinel;
  next_piece = 3;
  cache = null;
  revision = λ _. new_revision 0;
  next_revision = 1;
  history = null;
  current_revision = null;
  last_revision = null;
  saved_revision = null;
  size = 0;
  lines = record { pos = 0; lineno = 1 };
}

-- The name of a file was given: `block_load` returned `block`, and an error only with `NULL`.
pub data File : Type 0 where
  no_file : File
  loaded : Option Block → File
  error : File

abbrev pub push_block : Text → Option Block → Text
push_block t b = record t { block = update t.block t.count b; count = t.count + 1 }

-- The only piece of the new text, of `n` bytes, and the two sentinels around it.
unfoldable pub first_piece : Text → Ptr → Data → ℕ → Text
first_piece t p source n =
    let t1 = piece_init t p begin end source n in
    let t2 = piece_init t1 begin null p no_data 0 in
    let t3 = piece_init t2 end p null no_data 0 in record t3 { size = n }

unfoldable pub load_block : Text → Ptr → Option Block → Text
unfolding first_piece
load_block t p none = first_piece t p literal 0
load_block t p (some b) = first_piece t p (in_block (t.count - 1) 0) (length b.bytes)

unfoldable pub load_file : Text → Ptr → File → Run (Unit {0})
unfolding load_block
load_file t p no_file = ok (tt, load_block t p none)
load_file t p (loaded b) = ok (tt, load_block (push_block t b) p b)
load_file t p error = failed t

-- The text that the loading ends with, after the empty first revision is written. The code does not
-- look at what `text_change_alloc` returns.
abbrev pub after_change : Run Ptr → Text
after_change (ok (r, t)) = t
after_change (failed t) = t

unfoldable pub vis_text_load : Env → File → Run (Unit {0})
unfolding load_file
vis_text_load env file = do
  (p, t1) ← piece_alloc env empty_text
  (_, t2) ← load_file t1 p file
  let t3 = text_snapshot (after_change (text_change_alloc env t2 epos))
  ok (tt, record t3 { saved_revision = t3.history })
