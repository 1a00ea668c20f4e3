-- ===== src/Text/Holds/RoundTrip.antt =====
-- `text_insert`, `text_snapshot` and `text_delete` of text.c one after the other.
use vis.Prelude.{
  ℕ, ◌+◌, ◌≤◌, ◌<◌, ◌≡◌, refl, sym, ap, ◌∙◌, List, [], ◌++◌, length, take, drop, arith, true,
  append-nil, length-append, take-append-drop, length-take, ◌^◌,
}
use vis.Prelude.Slices.{inserted, removed}
use vis.Text.State.{Ptr, null, Text, Env, ◌>>=◌}
use vis.Text.Insert.{text_insert}
use vis.Text.Revisions.{text_snapshot}
use vis.Text.Delete.{text_delete}
use vis.Text.Holds.Defs.{Holds, text_of}
use vis.Text.Holds.Frame.{SamePieces, Holds-SamePieces, text_of-SamePieces}
use vis.Text.Holds.Between.{Changed}
use vis.Text.Holds.Insertion.{Changed-text, length-text_of}
use vis.Text.Holds.Inserted.{text_insert-Changed}
use vis.Text.Holds.Erasure.{text_delete-Changed}
use vis.Text.Holds.Cut.{removed_between}

SamePieces-text_snapshot : (t : Text) → SamePieces t (text_snapshot t)
unfolding text_snapshot
SamePieces-text_snapshot t = record {
  block = refl;
  count = refl;
  piece = refl;
  next_piece = refl;
  size = refl;
}

cache-text_snapshot : (t : Text) → (text_snapshot t).cache ≡ null
unfolding text_snapshot
cache-text_snapshot t = refl

size-text_of : (t : Text) (l : List Ptr) → Holds t l → t.size ≡ length (text_of t l)
size-text_of t l h = h.sized ∙ sym (length-text_of t l l [] h (sym (append-nil l)))

length-take_within : (c : List ℕ) (at : ℕ) → at ≤ length c → at ≡ length (take at c)
length-take_within c at k = ground (arith, length-take at c)

removed-inserted :
    (c s : List ℕ) (at : ℕ) → at ≤ length c → removed (inserted c at s) at (length s) ≡ c
removed-inserted c s at k =
    let here = length-take_within c at k in
    removed_between (take at c) s (drop at c) [] s s [] at (length s) refl (sym (append-nil s))
      (omega (arith, here)) (omega (arith, here))
    ∙ ap (λ z. z ++ drop at c) (append-nil (take at c))
    ∙ take-append-drop at c

length-inserted : (c s : List ℕ) (at : ℕ) → length (inserted c at s) ≡ length c + length s
length-inserted c s at =
    rw (length-append, length-append)
      (omega (arith, ap length (take-append-drop at c), length-append (take at c) (drop at c)))

-- Deleting what was just inserted.
module _ (env : Env) (t : Text) (l : List Ptr) (pos : ℕ) (s : List ℕ)
    (a : (v : Text) → env.calloc v ≡ true) (h : Holds t l) (e : t.cache ≡ null)
    (within : pos ≤ t.size) (fits : pos + length s < 2 ^ 64) where
  delete_after :
      (u : Text) (m : List Ptr)
      → Holds u m
      → text_of u m ≡ inserted (text_of t l) pos s
      → Changed (text_delete env (text_snapshot u) pos (length s)) (text_of t l)
  delete_after u m k c =
      let same = SamePieces-text_snapshot u in
      let size = size-text_of t l h in
      Changed-text
        (ap (λ z. removed z pos (length s)) (text_of-SamePieces same m ∙ c)
          ∙ removed-inserted (text_of t l) s pos (omega (arith, size, within)))
        (text_delete-Changed env (text_snapshot u) m pos (length s) a (Holds-SamePieces same m k)
          (cache-text_snapshot u)
          (omega (
            arith,
            same.size,
            size-text_of u m k,
            ap length c,
            length-inserted (text_of t l) s pos,
            size,
            within,
          ))
          fits)

  -- Where allocations succeed, inserting bytes within a text that has no cached piece, taking a
  -- snapshot and deleting as many bytes at the same position leaves a text with the invariant and the
  -- bytes from before the insertion, if the end of the inserted bytes fits a `size_t`.
  pub text_delete-text_insert :
      Changed
        (text_insert env t pos s >>= λ r. text_delete env (text_snapshot (r.1)) pos (length s))
        (text_of t l)
  text_delete-text_insert =
      let i = text_insert-Changed env t l pos s a h e within in
      rw i.result (delete_after i.after i.chain i.holds i.text)
