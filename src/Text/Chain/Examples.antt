-- ===== src/Text/Chain/Examples.antt =====
-- The theorems on undo and redo at a revision of one change (text.c).
use vis.Prelude.{ℕ, some, length, ap, ◌≡◌, ◌≢◌, [], ◌∷◌, arith}
use vis.Text.State.{null, Text, TextChange, new_revision}
use vis.Text.Insert.{lineno_cache_invalidate}
use vis.Text.History.{text_undo}
use vis.Text.Undone.{text_undo-Applied}
use vis.Text.Spans.{span_swap}
use vis.Text.Revisions.{text_snapshot, revision_undo, revision_redo}
use vis.Text.Chain.Undo.{
  Applied, changed, unchanged, revision_undo-Applied, revision_redo-revision_undo,
}
use vis.Text.Examples.{two_pieces, old_span, new_span, replaced}

abbrev change : TextChange
change = record { old = old_span; new = new_span; pos = 0 }

abbrev before_swap : Text
before_swap = record two_pieces { revision = λ _. record (new_revision 0) { change = change ∷ [] } }

abbrev after_swap : Text
unfolding span_swap
after_swap = span_swap before_swap old_span new_span

applied : Applied before_swap (after_swap.revision 1).change after_swap
unfolding span_swap
applied = changed change (unchanged before_swap) replaced (omega arith)

one_change : (after_swap.revision 1).change ≢ []
unfolding span_swap
one_change e = omega (arith, ap length e)

revision_undo-Applied_example : (revision_undo after_swap 1).1 ≡ before_swap
revision_undo-Applied_example = revision_undo-Applied before_swap after_swap 1 applied

revision_redo-revision_undo_example :
    (pos : ℕ) × (revision_redo (revision_undo after_swap 1).1 1 ≡ some (pos, after_swap))
revision_redo-revision_undo_example =
    revision_redo-revision_undo before_swap after_swap 1 one_change applied

abbrev two_revisions : Text
two_revisions = record before_swap {
  revision = λ _. record (new_revision 0) { change = change ∷ []; prev = 2 };
  history = 1;
}

abbrev edited : Text
unfolding span_swap
edited = span_swap two_revisions old_span new_span

edited-Applied :
    Applied two_revisions (edited.revision edited.history).change (text_snapshot edited)
unfolding span_swap text_snapshot
edited-Applied = changed change (unchanged two_revisions) replaced (omega arith)

edited-prev : (edited.revision edited.history).prev ≢ null
unfolding span_swap
edited-prev = omega arith

text_undo-Applied_example :
    (text_undo edited).1
    ≡ lineno_cache_invalidate
        (record two_revisions { history = (edited.revision edited.history).prev })
text_undo-Applied_example = text_undo-Applied edited two_revisions edited-Applied edited-prev
