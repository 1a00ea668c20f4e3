-- ===== src/Text/Chain/Undo.antt =====
-- The changes of a revision, made and unmade (`revision_undo`, `revision_redo` of text.c).
use vis.Prelude.{
  some, subst, ◌≢◌, ◌⊎◌, ℕ, ◌≤◌, ◌≡◌, ◌∙◌, refl, sym, ap, List, [], ◌∷◌, ◌++◌, Bool-cases, inl, inr,
  ◌==◌,
}
use mathlib.Core.List.{reverse, reverse-cons}
use vis.Range.{epos}
use vis.Text.State.{Ptr, Span, Text, TextChange, Revision}
use vis.Text.Spans.{span_swap}
use vis.Text.Revisions.{undo_changes, redo_changes, revision_undo, revision_redo}
use vis.Text.Chain.{Store}
use vis.Text.Chain.Splice.{Splice, span_swap-span_swap}

-- `u` is `t` after the changes of the list, of which the most recent comes first.
pub data Applied : Text → List TextChange → Text → Type 0 where
  unchanged : (t : Text) → Applied t [] t
  changed :
      {t u : Text} {a b : Ptr} {xs olds news ys : List Ptr} {cs : List TextChange} (c : TextChange)
      → Applied t cs u
      → Splice u.piece a b xs olds news ys c.old c.new
      → c.old.len ≤ u.size
      → Applied t (c ∷ cs) (span_swap u c.old c.new)

-- A swap changes the pieces and the size only.
span_swap-shape :
    (t : Text) (old new : Span)
    → span_swap t old new
      ≡ record t { piece = (span_swap t old new).piece; size = (span_swap t old new).size }
unfolding span_swap
span_swap-shape t old new = elim (Bool-cases (old.len == 0)) [
  | inl e ↦ elim (Bool-cases (new.len == 0)) [ inl f ↦ rw (e, f) | inr f ↦ rw (e, f) ]
  | inr e ↦ elim (Bool-cases (new.len == 0)) [ inl f ↦ rw (e, f) | inr f ↦ rw (e, f) ]
]

same_text :
    (t : Text) (piece : Store) (size : ℕ)
    → ((p : Ptr) → piece p ≡ t.piece p)
    → size ≡ t.size
    → record t { piece = piece; size = size } ≡ t
same_text t piece size e f = λ i. record t { piece = λ p. e p i; size = f i }

-- Swapping back gives the very text before.
span_swap_back :
    (t : Text) {a b : Ptr} {xs olds news ys : List Ptr} (old new : Span)
    → Splice t.piece a b xs olds news ys old new
    → old.len ≤ t.size
    → span_swap (span_swap t old new) new old ≡ t
span_swap_back t old new s k =
    let u = span_swap t old new in
    let v = span_swap u new old in
    let r = span_swap-span_swap t s k in
    span_swap-shape u new old
    ∙ ap (λ (w : Text). record w { piece = v.piece; size = v.size }) (span_swap-shape t old new)
    ∙ same_text t v.piece v.size r.0 r.1

-- Undoing all changes that were made since a text gives that very text.
pub undo_changes-Applied :
    (t u : Text) (cs : List TextChange) (pos : ℕ) → Applied t cs u → (undo_changes u pos cs).1 ≡ t
unfolding undo_changes
undo_changes-Applied t u cs pos (unchanged _) = refl
undo_changes-Applied t u cs pos (changed {u = w} {cs = ds} c r s k) =
    ap (λ z. (undo_changes z c.pos ds).1) (span_swap_back w c.old c.new s k)
    ∙ undo_changes-Applied t w ds c.pos r

redo_changes-append :
    (t : Text) (pos : ℕ) (xs ys : List TextChange)
    → redo_changes t pos (xs ++ ys)
      ≡ redo_changes (redo_changes t pos xs).1 (redo_changes t pos xs).0 ys
unfolding redo_changes
redo_changes-append t pos [] ys = refl
redo_changes-append t pos (c ∷ xs) ys = redo_changes-append (span_swap t c.old c.new) _ xs ys

-- Redoing the changes from the text before them, the oldest first, gives the text after them.
pub redo_changes-Applied :
    (t u : Text) (cs : List TextChange) (pos : ℕ)
    → Applied t cs u
    → (redo_changes t pos (reverse cs)).1 ≡ u
unfolding redo_changes
redo_changes-Applied t u cs pos (unchanged _) = refl
redo_changes-Applied t u cs pos (changed {u = w} {cs = ds} c r s k) =
    ap (λ l. (redo_changes t pos l).1) (reverse-cons c ds)
    ∙ ap (λ z. z.1) (redo_changes-append t pos (reverse ds) (c ∷ []))
    ∙ ap (λ z. span_swap z c.old c.new) (redo_changes-Applied t w ds pos r)

revision-Applied : (t u : Text) (cs : List TextChange) → Applied t cs u → u.revision ≡ t.revision
revision-Applied t u cs (unchanged _) = refl
revision-Applied t u cs (changed {u = w} {cs = ds} c r s k) =
    ap (λ (z : Text). z.revision) (span_swap-shape w c.old c.new) ∙ revision-Applied t w ds r

-- Undoing a revision whose changes, each a swap of spans that fit, lead from `t` to `u` gives the
-- very text `t`.
pub revision_undo-Applied :
    (t u : Text) (r : Ptr) → Applied t (u.revision r).change u → (revision_undo u r).1 ≡ t
unfolding revision_undo
revision_undo-Applied t u r a = undo_changes-Applied t u (u.revision r).change epos a

list_view :
    (l : List TextChange) → (l ≡ []) ⊎ ((c : TextChange) × (cs : List TextChange) × (l ≡ c ∷ cs))
list_view [] = inl refl
list_view (c ∷ cs) = inr (c, cs, refl)

-- Where a revision has a change, redoing finds them all.
redone :
    (t u : Text) (r : Ptr)
    → (t.revision r).change ≢ []
    → Applied t (t.revision r).change u
    → (pos : ℕ) × (revision_redo t r ≡ some (pos, u))
unfolding revision_redo
redone t u r ne a = elim (list_view (t.revision r).change) [
  | inl e ↦ absurd (ne e)
  | inr (c, cs, e) ↦
      let all = subst (λ l. Applied t l u) e a in
      let there = redo_changes t epos (reverse (c ∷ cs)) in
      (
        there.0,
        rw (revision_redo, e)
            (ap (λ z. some (there.0, z)) (redo_changes-Applied t u (c ∷ cs) epos all)),
      )
]

-- Redoing a revision after it was undone finds a change to redo and gives back the very text `u`,
-- where the revision has a change and its changes, each a swap of spans that fit, lead from some text
-- to `u`.
pub revision_redo-revision_undo :
    (t u : Text) (r : Ptr)
    → (u.revision r).change ≢ []
    → Applied t (u.revision r).change u
    → (pos : ℕ) × (revision_redo (revision_undo u r).1 r ≡ some (pos, u))
revision_redo-revision_undo t u r ne a =
    let same = revision-Applied t u (u.revision r).change a in
    subst (λ z. (pos : ℕ) × (revision_redo z r ≡ some (pos, u)))
      (sym (revision_undo-Applied t u r a))
      (redone t u r (subst (λ (rev : ℕ → Revision). (rev r).change ≢ []) same ne)
        (subst (λ (rev : ℕ → Revision). Applied t (rev r).change u) same a))
