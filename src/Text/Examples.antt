-- ===== src/Text/Examples.antt =====
-- Runs of the piece table, and its theorems at a text of two pieces (text.c).
use vis.Prelude.{
  Option, none, take, drop, ℕ, zero, suc, ◌≡◌, refl, true, some, List, [], ◌∷◌, ◌++◌, ◌==◌,
  if◌then◌else◌, arith,
}
use vis.Prelude.Slices.{inserted, removed}
use vis.Text.State.{
  Block, malloc, Run, ok, failed, Text, Env, ◌>>=◌, Ptr, null, begin, end, slice, Piece, Span,
  in_block, update, new_revision,
}
use vis.Text.Load.{vis_text_load, loaded, sentinel}
use vis.Text.Loaded.{Loaded, vis_text_load-Loaded}
use vis.Text.Iterator.Bytes.{text_bytes_get}
use vis.Text.Reading.Lookup.{Reached, piece_get_extern-Reached}
use vis.Text.Reading.Bytes.{Readable, text_bytes_get-text_of}
use vis.Text.Insert.{text_insert}
use vis.Text.Delete.{text_delete}
use vis.Text.History.{text_undo, text_redo}
use vis.Text.Spans.{
  span_swap, span_init, piece_alloc, piece_init, piece_get_intern, piece_get_extern,
}
use vis.Text.Blocks.{addu, block_insert, block_store}
use vis.Text.Cache.{cache_piece, cache_contains, cache_insert, cache_delete}
use vis.Text.Revisions.{text_change_alloc, text_snapshot, revision_undo, revision_redo}
use vis.Text.Chain.Splice.{Splice, span_swap-span_swap}
use vis.Text.Content.Lookup.{Found}
use vis.Text.Holds.Defs.{Holds, text_of}
use vis.Text.Holds.Between.{Changed}
use vis.Text.Holds.Inserted.{lookup-Found, text_insert-Changed}
use vis.Text.Holds.Erasure.{text_delete-Changed}
use vis.Text.Holds.RoundTrip.{text_delete-text_insert}

abbrev world : Env
world = record { calloc = λ _. true; time = λ _. 0 }

-- The bytes of the pieces from `p` on.
walk : ℕ → Text → Ptr → List ℕ
walk zero t p = []
walk (suc k) t p =
    if p == null
    then []
    else slice (t.piece p).source (t.piece p).len t.block ++ walk k t (t.piece p).next

bytes_of : {A : Type 0} → Run A → List ℕ
unfolding walk
bytes_of (ok (a, t)) = walk 10 t begin
bytes_of (failed t) = 0 ∷ []

-- A redo that finds a change.
redone : Option (ℕ × Text) → Text → Run ℕ
redone none t = failed t
redone (some (pos, u)) t = ok (pos, u)

-- A text is loaded, two insertions and a deletion are made, and all of them are undone, redone and
-- undone: the bytes of the file are left.
undone_run : List ℕ
unfolding bytes_of redone
undone_run = bytes_of do
  (_, t0) ←
      vis_text_load world
        (loaded (some (record { size = 9; bytes = 1 ∷ 2 ∷ 3 ∷ 4 ∷ []; type = malloc })))
  (_, t1) ← text_insert world t0 2 (7 ∷ 8 ∷ [])
  (_, t2) ← text_insert world t1 3 (9 ∷ [])
  (_, t3) ← text_delete world t2 1 3
  let (_, t4) = text_undo t3
  (_, t5) ← redone (text_redo t4) t4
  let (_, t6) = text_undo t5
  ok (tt, t6)

undone_run-bytes : undone_run ≡ 1 ∷ 2 ∷ 3 ∷ 4 ∷ []
unfolding undone_run vis_text_load text_insert text_delete text_undo text_redo piece_alloc
    text_snapshot text_change_alloc piece_init piece_get_intern cache_insert cache_contains
    block_store span_swap span_init cache_piece block_insert addu cache_delete revision_undo
    revision_redo
undone_run-bytes = refl

abbrev piece_of : Ptr → Ptr → ℕ → Piece
piece_of prev next off = record {
  text = true;
  prev = prev;
  next = next;
  source = in_block 0 off;
  len = 2;
}

-- Pieces 3 and 4 between the sentinels hold 1, 2 and 3, 4; piece 5 is not in the chain, but fits
-- where piece 3 is.
abbrev pub two_pieces : Text
two_pieces = record {
  block = λ _. some (record { size = 9; bytes = 1 ∷ 2 ∷ 3 ∷ 4 ∷ 5 ∷ 6 ∷ []; type = malloc });
  count = 1;
  piece =
      update
        (update
          (update
            (update (update (λ _. sentinel) begin (record sentinel { next = 3 })) end
              (record sentinel { prev = 4 }))
            3 (piece_of begin 4 0))
          4 (piece_of 3 end 2))
        5 (piece_of begin 4 4);
  next_piece = 6;
  cache = null;
  revision = λ _. new_revision 0;
  next_revision = 1;
  history = null;
  current_revision = null;
  last_revision = null;
  saved_revision = null;
  size = 4;
  lines = record { pos = 0; lineno = 1 };
}

abbrev chain : List Ptr
chain = begin ∷ 3 ∷ 4 ∷ []

two_pieces-Holds : Holds two_pieces chain
two_pieces-Holds = record {
  starts = refl;
  linked = (refl, refl, (refl, refl, (refl, refl, tt)));
  end_next = refl;
  distinct = (
    (omega arith, (omega arith, (omega arith, tt))),
    ((omega arith, (omega arith, tt)), ((omega arith, tt), (tt, tt))),
  );
  nonnull = (omega arith, (omega arith, (omega arith, tt)));
  below = (omega arith, (omega arith, (omega arith, (omega arith, tt))));
  begin_len = refl;
  placed = (refl, ((omega arith, omega arith), ((omega arith, omega arith), tt)));
  sized = refl;
  fuel = omega arith;
}

text_insert-Changed_example :
    Changed
      (text_insert world two_pieces 3 (7 ∷ 8 ∷ []))
      (inserted (text_of two_pieces chain) 3 (7 ∷ 8 ∷ []))
text_insert-Changed_example =
    text_insert-Changed world two_pieces chain 3 (7 ∷ 8 ∷ []) (λ v. refl) two_pieces-Holds refl
      (omega arith)

text_delete-Changed_example :
    Changed (text_delete world two_pieces 1 2) (removed (text_of two_pieces chain) 1 2)
text_delete-Changed_example =
    text_delete-Changed world two_pieces chain 1 2 (λ v. refl) two_pieces-Holds refl (omega arith)
      (omega arith)

text_delete-text_insert_example :
    Changed
      (text_insert world two_pieces 3 (7 ∷ 8 ∷ []) >>= λ r.
        text_delete world (text_snapshot (r.1)) 3 2)
      (text_of two_pieces chain)
text_delete-text_insert_example =
    text_delete-text_insert world two_pieces chain 3 (7 ∷ 8 ∷ []) (λ v. refl) two_pieces-Holds refl
      (omega arith) (omega arith)

lookup-Found_example : Found two_pieces.piece chain 0 3 (piece_get_intern two_pieces 3)
lookup-Found_example = lookup-Found two_pieces chain 3 two_pieces-Holds (omega arith)

abbrev pub old_span : Span
old_span = record { start = 3; end = 3; len = 2 }

abbrev pub new_span : Span
new_span = record { start = 5; end = 5; len = 2 }

pub replaced : Splice two_pieces.piece begin 4 [] (3 ∷ []) (5 ∷ []) (end ∷ []) old_span new_span
replaced = record {
  linked = (refl, refl, (refl, refl, (refl, refl, tt)));
  fits = (refl, refl);
  old_span = record { counted = refl; ends = (refl, refl, omega arith) };
  new_span = record { counted = refl; ends = (refl, refl, omega arith) };
  apart_old = record {
    ends = omega arith;
    a_front = tt;
    b_front = tt;
    a_span = (omega arith, tt);
    b_span = (omega arith, tt);
    a_back = (omega arith, tt);
    b_back = (omega arith, tt);
  };
  apart_new = record {
    ends = omega arith;
    a_front = tt;
    b_front = tt;
    a_span = (omega arith, tt);
    b_span = (omega arith, tt);
    a_back = (omega arith, tt);
    b_back = (omega arith, tt);
  };
}

span_swap-span_swap_example :
    ((p : Ptr)
      → (span_swap (span_swap two_pieces old_span new_span) new_span old_span).piece p
        ≡ two_pieces.piece p)
    × ((span_swap (span_swap two_pieces old_span new_span) new_span old_span).size
        ≡ two_pieces.size)
span_swap-span_swap_example = span_swap-span_swap two_pieces replaced (omega arith)

abbrev file_block : Block
file_block = record { size = 9; bytes = 1 ∷ 2 ∷ 3 ∷ 4 ∷ []; type = malloc }

vis_text_load-Loaded_example : Loaded file_block (vis_text_load world (loaded (some file_block)))
vis_text_load-Loaded_example = vis_text_load-Loaded world file_block (λ v. refl)

two_pieces-Readable : Readable two_pieces (3 ∷ 4 ∷ [])
two_pieces-Readable = (refl, (refl, (refl, tt)))

text_bytes_get-text_of_example :
    text_bytes_get two_pieces 1 2 ≡ take 2 (drop 1 (text_of two_pieces chain))
text_bytes_get-text_of_example =
    text_bytes_get-text_of two_pieces (3 ∷ 4 ∷ []) 1 2 two_pieces-Holds two_pieces-Readable
      (omega arith)

piece_get_extern-Reached_example :
    Reached two_pieces.piece (3 ∷ 4 ∷ []) 0 2 (piece_get_extern two_pieces 2)
piece_get_extern-Reached_example =
    piece_get_extern-Reached two_pieces (3 ∷ 4 ∷ []) 2 two_pieces-Holds (omega arith)
