-- ===== src/Text/History.antt =====
-- Undo, redo and the traversal of the revision graph (text.c).
use vis.Prelude.{
  Option, none, some, ℕ, zero, suc, ◌+◌, ◌-◌, Bool, false, ltb, ◌==◌, if◌then◌else◌, ◌&&◌, ◌||◌,
  not,
}
use vis.Range.{epos}
use vis.Text.State.{Ptr, null, Revision, Text, set_revision}
use vis.Text.Revisions.{text_snapshot, revision_undo, revision_redo}
use vis.Text.Insert.{lineno_cache_invalidate}

-- The new `history` and line cache after the changes of a revision.
abbrev pub arrive : Ptr → ℕ × Text → ℕ × Text
arrive r (pos, t) = (pos, lineno_cache_invalidate (record t { history = r }))

abbrev arrive_if : Ptr → Option (ℕ × Text) → Option (ℕ × Text)
arrive_if r none = none
arrive_if r (some s) = some (arrive r s)

unfoldable pub text_undo : Text → ℕ × Text
text_undo t =
    let t1 = text_snapshot t in
    let r = (t1.revision t1.history).prev in
    if r == null then (epos, t1) else arrive r (revision_undo t1 t1.history)

-- `none`, from here on, is the dereference of `NULL` in `revision_redo`.
unfoldable pub text_redo : Text → Option (ℕ × Text)
text_redo t =
    let t1 = text_snapshot t in
    let r = (t1.revision t1.history).next in
    if r == null then some (epos, t1) else arrive_if r (revision_redo t1 r)

-- `history_change_branch`: every `next` on the way up points back down to `r`.
unfoldable pub history_change_branch : ℕ → Text → Ptr → Bool × Text
history_change_branch zero t r = (false, t)
history_change_branch (suc k) t r =
    let p = (t.revision r).prev in
    let stays = (t.revision p).next == r in
    let t1 = if stays then t else set_revision t p (record (t.revision p) { next = r }) in
    let rest = history_change_branch k t1 p in
    if p == null then (false, t) else (not stays || rest.0, rest.1)

-- `while (txt->history != rev) pos = step(txt)`.
unfoldable pub walk_to : ℕ → (Text → Option (ℕ × Text)) → Ptr → ℕ → Text → Option (ℕ × Text)
walk_to zero step r pos t = some (pos, t)
walk_to (suc k) step r pos t =
    let rest : Option (ℕ × Text) = elim (step t) [
      | none ↦ none
      | some (pos', t') ↦ walk_to k step r pos' t'
    ] in
    if t.history == r then some (pos, t) else rest

-- `while (history->prev && history->prev->next == history) text_undo(txt)`.
unfoldable pub climb : ℕ → Text → Text
climb zero t = t
climb (suc k) t =
    let rest = climb k (text_undo t).1 in
    let p = (t.revision t.history).prev in
    if not (p == null) && (t.revision p).next == t.history then rest else t

unfoldable pub traverse_same_branch : Text → Ptr → Option (ℕ × Text)
unfolding walk_to
traverse_same_branch t r =
    let here = (t.revision t.history).seq in
    let there = (t.revision r).seq in
    if there == here
    then some (t.lines.pos, t)
    else if ltb here there
    then walk_to (t.next_revision + 1) text_redo r epos t
    else walk_to (t.next_revision + 1) (λ u. some (text_undo u)) r epos t

unfoldable pub traverse_other_branch : Text → Ptr → Option (ℕ × Text)
unfolding walk_to climb
traverse_other_branch t r =
    let t1 = climb (t.next_revision + 1) t in
    let (pos, t2) = text_undo t1 in walk_to (t.next_revision + 1) text_redo r pos t2

unfoldable pub history_traverse_to : Text → Ptr → Option (ℕ × Text)
unfolding history_change_branch traverse_same_branch traverse_other_branch
history_traverse_to t r =
    if r == null
    then some (epos, t)
    else (let (changed, t1) = history_change_branch (t.next_revision + 1) t r in
        if changed then traverse_other_branch t1 r else traverse_same_branch t1 r)

unfoldable pub text_earlier : Text → Option (ℕ × Text)
unfolding history_traverse_to
text_earlier t = history_traverse_to t (t.revision t.history).earlier

unfoldable pub text_later : Text → Option (ℕ × Text)
unfolding history_traverse_to
text_later t = history_traverse_to t (t.revision t.history).later

unfoldable pub text_modified : Text → Bool
text_modified t = not (t.saved_revision == t.history)

-- `while (test(rev) && step(rev)) rev = step(rev)`, along the chronological links.
unfoldable pub revision_while :
    ℕ → (ℕ → Revision) → (Revision → Bool) → (Revision → Ptr) → Ptr → Ptr
revision_while zero revision test step r = r
revision_while (suc k) revision test step r =
    let next = step (revision r) in
    let rest = revision_while k revision test step next in
    if test (revision r) && not (next == null) then rest else r

-- `labs(a - b)` of two times.
abbrev pub distance : ℕ → ℕ → ℕ
distance a b = (a - b) + (b - a)

-- `other`, if it is a revision besides `history` that is nearer to the time than `diff`; else `r`.
unfoldable pub nearer : Text → (time diff : ℕ) → (r other : Ptr) → Ptr
nearer t time diff r other =
    if not (other == null)
      && not (other == t.history)
      && ltb (distance (t.revision other).time time) diff
    then other
    else r

unfoldable pub text_restore : Text → ℕ → Option (ℕ × Text)
unfolding history_traverse_to revision_while nearer
text_restore t time =
    let fuel = t.next_revision + 1 in
    let r1 = revision_while fuel t.revision (λ r. ltb time r.time) (λ r. r.earlier) t.history in
    let r2 = revision_while fuel t.revision (λ r. ltb r.time time) (λ r. r.later) r1 in
    let diff = distance (t.revision r2).time time in
    let r3 = nearer t time diff r2 (t.revision r2).earlier in
    let r4 = nearer t time diff r3 (t.revision r3).later in history_traverse_to t r4

unfoldable pub text_state : Text → ℕ
text_state t = (t.revision t.history).time
