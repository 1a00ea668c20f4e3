-- ===== src/Text/Undone.antt =====
-- What `text_undo` of text.c leaves.
use vis.Prelude.{◌≡◌, ◌≢◌, ap, ne→==_false}
use vis.Text.State.{null, Text}
use vis.Text.Revisions.{text_snapshot}
use vis.Text.Insert.{lineno_cache_invalidate}
use vis.Text.History.{text_undo}
use vis.Text.Chain.Undo.{Applied, revision_undo-Applied}

-- Undo, in a text whose last revision is not the first one and whose changes, each a swap of spans
-- that fit, led to the snapshot of the text from a text `s`: it leaves the very text `s`, with the
-- parent of that revision as its history and the line cache reset.
pub text_undo-Applied :
    (t s : Text)
    → Applied s (t.revision t.history).change (text_snapshot t)
    → (t.revision t.history).prev ≢ null
    → (text_undo t).1 ≡ lineno_cache_invalidate (record s { history = (t.revision t.history).prev })
unfolding text_undo text_snapshot
text_undo-Applied t s a ne = rw (ne→==_false (t.revision t.history).prev null ne) (
    ap (λ (w : Text). lineno_cache_invalidate (record w { history = (t.revision t.history).prev }))
      (revision_undo-Applied s (text_snapshot t) t.history a))
