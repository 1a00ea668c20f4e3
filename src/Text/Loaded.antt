-- ===== src/Text/Loaded.antt =====
-- What `vis_text_load` of text.c sets up.
use vis.Prelude.{
  ◌≢◌, ◌≡◌, ◌∙◌, refl, true, some, List, [], ◌∷◌, length, arith, append-nil, take_all,
}
use vis.Range.{epos}
use vis.Text.State.{
  Run, ok, Ptr, null, begin, Block, Text, Env, update, new_piece, new_change, set_revision,
}
use vis.Text.Spans.{piece_alloc, piece_init}
use vis.Text.Revisions.{
  text_snapshot, text_change_alloc, revision_alloc, push_change, link_later, link_child,
  add_revision,
}
use vis.Text.Content.{content}
use vis.Text.Holds.Defs.{Holds, text_of}
use vis.Text.Holds.Frame.{SamePieces, SamePieces-trans, Holds-SamePieces, text_of-SamePieces}
use vis.Text.Load.{
  loaded, empty_text, first_piece, load_block, load_file, push_block, vis_text_load,
}

-- The text before its first revision, with the piece that was allocated for the bytes.
abbrev opened : Block → Text
unfolding first_piece load_block piece_init
opened b =
    let t : Text = record empty_text {
      piece = update empty_text.piece 3 new_piece;
      next_piece = 4;
    } in
    load_block (push_block t (some b)) 3 (some b)

-- The only piece of a new text, behind the first sentinel.
abbrev pub new_chain : List Ptr
new_chain = begin ∷ 3 ∷ []

opened-Holds : (b : Block) → Holds (opened b) new_chain
unfolding first_piece load_block piece_init
opened-Holds b = record {
  starts = refl;
  linked = (refl, refl, (refl, refl, tt));
  end_next = refl;
  distinct = ((omega arith, (omega arith, tt)), ((omega arith, tt), (tt, tt)));
  nonnull = (omega arith, (omega arith, tt));
  below = (omega arith, (omega arith, (omega arith, tt)));
  begin_len = refl;
  placed = (refl, ((omega arith, omega arith), tt));
  sized = omega arith;
  fuel = omega arith;
}

opened-text : (b : Block) → text_of (opened b) new_chain ≡ b.bytes
unfolding first_piece load_block piece_init content
opened-text b = rw append-nil (take_all (length b.bytes) b.bytes (omega arith))

-- The text with its first revision closed and taken for the saved one.
abbrev closed : Text → Text
unfolding text_snapshot
closed t = let u = text_snapshot t in record u { saved_revision = u.history }

SamePieces-closed : (t : Text) → SamePieces t (closed t)
unfolding text_snapshot
SamePieces-closed t = record {
  block = refl;
  count = refl;
  piece = refl;
  next_piece = refl;
  size = refl;
}

-- The text with its first revision, of one empty change.
abbrev noted : Env → Block → Text
unfolding link_later link_child
noted env b =
    let t = link_child (link_later (add_revision env (opened b)) 1) 1 in
    set_revision t 1 (record (t.revision 1) { change = new_change epos ∷ (t.revision 1).change })

SamePieces-noted : (env : Env) (b : Block) → SamePieces (opened b) (noted env b)
unfolding link_later link_child opened
SamePieces-noted env b = record {
  block = refl;
  count = refl;
  piece = refl;
  next_piece = refl;
  size = refl;
}

first_change :
    (env : Env) (b : Block)
    → ((v : Text) → env.calloc v ≡ true)
    → text_change_alloc env (opened b) epos ≡ ok (1, noted env b)
unfolding text_change_alloc revision_alloc push_change link_later link_child opened
first_change env b a = rw (a (opened b), a _) refl

-- A text loaded from a block, with allocations that succeed: it holds one piece with the bytes of the
-- block and no piece is cached. There is a revision, without a parent and with one change, an empty
-- one; it is closed, and it is both the last one and the one that counts as saved.
pub record Loaded (b : Block) (r : Run (Unit {0})) : Type 0 where
  pub after : Text
  pub result : r ≡ ok (tt, after)
  pub holds : Holds after new_chain
  pub text : text_of after new_chain ≡ b.bytes
  pub cache : after.cache ≡ null
  pub first : after.history ≢ null
  pub saved : after.saved_revision ≡ after.history
  pub current : after.current_revision ≡ null
  pub last : after.last_revision ≡ after.history
  pub parent : (after.revision after.history).prev ≡ null
  pub changes : (after.revision after.history).change ≡ new_change epos ∷ []

-- Loading a file whose bytes were read into a block gives, provided that every allocation succeeds, a
-- text that satisfies the invariant, holds exactly these bytes, has no cached piece, and whose history
-- is a closed revision without a parent and with one empty change, which is the last one and the
-- saved one.
pub vis_text_load-Loaded :
    (env : Env) (b : Block)
    → ((v : Text) → env.calloc v ≡ true)
    → Loaded b (vis_text_load env (loaded (some b)))
unfolding vis_text_load load_file piece_alloc text_snapshot load_block first_piece piece_init noted
vis_text_load-Loaded env b a =
    let same = SamePieces-trans (SamePieces-noted env b) (SamePieces-closed (noted env b)) in
    rw (a empty_text, first_change env b a)
      (record {
        after = closed (noted env b);
        result = refl;
        holds = Holds-SamePieces same new_chain (opened-Holds b);
        text = text_of-SamePieces same new_chain ∙ opened-text b;
        cache = refl;
        first = omega arith;
        saved = refl;
        current = refl;
        last = refl;
        parent = refl;
        changes = refl;
      })
