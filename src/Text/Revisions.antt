-- ===== src/Text/Revisions.antt =====
-- Revisions and changes: allocation, the snapshot, and the swaps of undo and redo (text.c, and
-- `text_snapshot` of text-io.c).
use vis.Prelude.{Option, none, some, ℕ, ◌+◌, ◌-◌, List, [], ◌∷◌, ltb, ◌==◌, if◌then◌else◌}
use mathlib.Core.List.{reverse}
use vis.Range.{epos}
use vis.Text.State.{
  Run, ok, failed, ◌>>=◌, Ptr, null, TextChange, Text, Env, set_revision, new_revision, new_change,
  update,
}
use vis.Text.Spans.{span_swap}

-- `rev->seq`, and the links to the chronologically previous revision.
unfoldable pub link_later : Text → Ptr → Text
link_later t r =
    if t.last_revision == null
    then set_revision t r (record (t.revision r) { seq = 0; earlier = null })
    else (let last = t.revision t.last_revision in
        let t1 =
          set_revision t r
            (record (t.revision r) { seq = last.seq + 1; earlier = t.last_revision }) in
        set_revision t1 t.last_revision (record (t1.revision t.last_revision) { later = r }))

-- The links to the parent, which `history` was.
unfoldable pub link_child : Text → Ptr → Text
link_child t r =
    if t.history == null
    then record t { history = r }
    else (let t1 = set_revision t r (record (t.revision r) { prev = t.history }) in
        let t2 = set_revision t1 t.history (record (t1.revision t.history) { next = r }) in
        record t2 { history = r })

-- The text with a fresh revision, which is the current one.
abbrev pub add_revision : Env → Text → Text
add_revision env t = record t {
  revision = update t.revision t.next_revision (new_revision (env.time t));
  next_revision = t.next_revision + 1;
  current_revision = t.next_revision;
}

unfoldable pub revision_alloc : Env → Text → Run Ptr
unfolding link_later link_child
revision_alloc env t =
    if env.calloc t
    then (let r = t.next_revision in ok (r, link_child (link_later (add_revision env t) r) r))
    else failed t

-- The new change becomes the head of its revision's list.
unfoldable pub push_change : Env → ℕ → Ptr → Text → Run Ptr
push_change env pos r t =
    if env.calloc t
    then ok (
      r,
      set_revision t r (record (t.revision r) { change = new_change pos ∷ (t.revision r).change }),
    )
    else failed t

-- The revision that the change is added to, the current one or a new one.
unfoldable pub text_change_alloc : Env → Text → ℕ → Run Ptr
unfolding revision_alloc push_change
text_change_alloc env t pos = do
  (r, t1) ← if t.current_revision == null then revision_alloc env t else ok (t.current_revision, t)
  push_change env pos r t1

abbrev pub map_head {ℓ} : {A : Type ℓ} → (A → A) → List A → List A
map_head f [] = []
map_head f (c ∷ cs) = f c ∷ cs

-- An assignment to the fields of a revision's most recent change.
abbrev pub edit_change : Text → Ptr → (TextChange → TextChange) → Text
edit_change t r f =
    set_revision t r (record (t.revision r) { change = map_head f (t.revision r).change })

unfoldable pub text_snapshot : Text → Text
text_snapshot t = record t {
  last_revision = if t.current_revision == null then t.last_revision else t.current_revision;
  current_revision = null;
  cache = null;
}

-- The loops of `revision_undo` and `revision_redo`, with the last position so far.
unfoldable pub undo_changes : Text → ℕ → List TextChange → ℕ × Text
undo_changes t pos [] = (pos, t)
undo_changes t pos (c ∷ cs) = undo_changes (span_swap t c.new c.old) c.pos cs

unfoldable pub redo_changes : Text → ℕ → List TextChange → ℕ × Text
redo_changes t pos [] = (pos, t)
redo_changes t pos (c ∷ cs) =
    redo_changes (span_swap t c.old c.new)
      (c.pos + (if ltb c.old.len c.new.len then c.new.len - c.old.len else 0)) cs

unfoldable pub revision_undo : Text → Ptr → ℕ × Text
unfolding undo_changes
revision_undo t r = undo_changes t epos (t.revision r).change

-- From the oldest change to the most recent one; `none` is the dereference of `NULL` where the
-- revision has no change.
unfoldable pub revision_redo : Text → Ptr → Option (ℕ × Text)
unfolding redo_changes
revision_redo t r = elim (t.revision r).change [
  | [] ↦ none
  | c ∷ cs ↦ some (redo_changes t epos (reverse (c ∷ cs)))
]
