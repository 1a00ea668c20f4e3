-- ===== src/Text/Holds/Prepared.antt =====
-- What a change of the chain needs, before its spans are swapped (text.c).
use vis.Prelude.{
  All-right, All-map, ◌≤◌, ◌<◌, ◌≡◌, ◌≢◌, refl, ap, subst, ◌∙◌, List, [], ◌∷◌, ◌++◌, append_assoc,
  length, arith,
}
use vis.Text.State.{Ptr, begin, end, Text, Span}
use vis.Text.Spans.{span_swap}
use vis.Text.Chain.{Linked, Inside, Avoids, Distinct, first_of}
use vis.Text.Chain.Apart.{Below, Fresh, AgreeBelow, Linked-agree, Apart-of_Distinct, Apart-span}
use vis.Text.Chain.Swap.{SpanIs}
use vis.Text.Chain.Splice.{Splice}
use vis.Text.Content.{AllPlaced, Extends}
use vis.Text.Holds.Defs.{Holds, StartsAt}

-- `u` is the text `t` with the pieces `news` made ready to take the place of `olds`.
pub record Prepared (t u : Text) (xs : List Ptr) (a : Ptr) (olds news behind : List Ptr)
    (old new : Span) : Type 0 where
  pub agree : AgreeBelow t.next_piece t.piece u.piece
  pub extends : Extends t.block t.count u.block u.count
  pub same_size : u.size ≡ t.size
  pub counter : t.next_piece ≤ u.next_piece
  pub fresh : Fresh t.next_piece u.next_piece news
  pub distinct_news : Distinct news
  pub fits : Inside u.piece a news (first_of behind end)
  pub old_span : SpanIs u.piece old olds
  pub new_span : SpanIs u.piece new news
  pub placed_news : AllPlaced u.block u.count u.piece news
  pub fuel : length (xs ++ a ∷ (news ++ behind)) ≤ u.next_piece

-- The chain with its last piece.
pub full_chain :
    (xs : List Ptr) (a : Ptr) (l behind : List Ptr)
    → (xs ++ a ∷ (l ++ behind)) ++ end ∷ [] ≡ xs ++ a ∷ (l ++ (behind ++ end ∷ []))
full_chain xs a l behind =
    append_assoc xs (a ∷ (l ++ behind)) (end ∷ [])
    ∙ ap (λ r. xs ++ a ∷ r) (append_assoc l behind (end ∷ []))

-- What stands behind a span, `end` included, is not empty.
pub tail_view :
    (behind : List Ptr) → (ys : List Ptr) × (behind ++ end ∷ [] ≡ first_of behind end ∷ ys)
tail_view [] = ([], refl)
tail_view (q ∷ l) = (l ++ end ∷ [], refl)

pub snoc_split : (xs : List Ptr) (a : Ptr) (zs : List Ptr) → (xs ++ a ∷ []) ++ zs ≡ xs ++ a ∷ zs
snoc_split xs a zs = append_assoc xs (a ∷ []) zs

pub StartsAt-same :
    (xs : List Ptr) (a : Ptr) (l m : List Ptr)
    → StartsAt begin (xs ++ a ∷ l)
    → StartsAt begin (xs ++ a ∷ m)
StartsAt-same [] a l m h = h
StartsAt-same (x ∷ xs) a l m h = h

module _ (t : Text) (old new : Span) where
  pub block-span_swap : (span_swap t old new).block ≡ t.block
  unfolding span_swap
  block-span_swap = ground arith

  pub count-span_swap : (span_swap t old new).count ≡ t.count
  unfolding span_swap
  count-span_swap = ground arith

  pub next_piece-span_swap : (span_swap t old new).next_piece ≡ t.next_piece
  unfolding span_swap
  next_piece-span_swap = ground arith

module _ (t u : Text) (xs : List Ptr) (a : Ptr) (olds news behind : List Ptr) (old new : Span)
    (h : Holds t (xs ++ a ∷ (olds ++ behind)))
    (r : Prepared t u xs a olds news behind old new) where
  bs : List Ptr
  bs = behind ++ end ∷ []

  ys : List Ptr
  ys = (tail_view behind).0

  b : Ptr
  b = first_of behind end

  Distinct-all : Distinct (xs ++ a ∷ (olds ++ (behind ++ end ∷ [])))
  Distinct-all = subst Distinct (full_chain xs a olds behind) h.distinct

  Below-all : Below t.next_piece (xs ++ a ∷ (olds ++ (behind ++ end ∷ [])))
  Below-all = subst (Below t.next_piece) (full_chain xs a olds behind) h.below

  -- The same, with the piece behind the span shown.
  shown : (l : List Ptr) → xs ++ a ∷ (l ++ (behind ++ end ∷ [])) ≡ xs ++ a ∷ (l ++ b ∷ ys)
  unfolding ys b
  shown l = ap (λ z. xs ++ a ∷ (l ++ z)) (tail_view behind).1

  fresh-ne : (p : Ptr) → p < t.next_piece → Avoids p news
  fresh-ne p k =
      All-map (λ q. (t.next_piece ≤ q) × (q < u.next_piece)) (λ q. q ≢ p) news (λ q f. omega arith)
        r.fresh

  pub prepared-Splice :
      Splice u.piece a (first_of behind end) xs olds news (tail_view behind).0 old new
  unfolding shown
  prepared-Splice =
      let o = Apart-of_Distinct a b xs olds ys (subst Distinct (shown olds) Distinct-all) in
      let lows = subst (Below t.next_piece) (shown olds) Below-all in
      record {
        linked =
            subst (Linked u.piece) (full_chain xs a olds behind ∙ shown olds)
              (Linked-agree r.agree _ h.below h.linked);
        fits = r.fits;
        old_span = r.old_span;
        new_span = r.new_span;
        apart_old = o;
        apart_new =
            Apart-span news o
              (fresh-ne a (All-right (λ q. q < t.next_piece) xs (a ∷ (olds ++ b ∷ ys)) lows).0)
              (fresh-ne b
                (All-right (λ q. q < t.next_piece) olds (b ∷ ys)
                  (All-right (λ q. q < t.next_piece) xs (a ∷ (olds ++ b ∷ ys)) lows).1).0);
      }
