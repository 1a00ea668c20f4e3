-- ===== src/Text/Holds/Removal.antt =====
-- A change that replaces pieces by none, one or two new ones, made ready (`text_delete` of text.c).
use vis.Prelude.{
  All-left, All-right, subst, ℕ, ◌+◌, ◌<◌, ◌≡◌, ◌≢◌, ap, ◌∙◌, List, [], ◌∷◌, ◌++◌, arith, length,
  length-append,
}
use native.Mathlib.Numerals.{add-one}
use vis.Text.State.{Piece, Ptr, null, end, Text}
use vis.Text.Spans.{span_init, span_length}
use vis.Text.Chain.{
  Linked, Follows, Distinct, first_of, last_of, Linked-back, Follows-of_Linked, total,
}
use vis.Text.Chain.Apart.{AgreeBelow, Linked-agree, Distinct-right, total-agree, Below}
use vis.Text.Chain.Swap.{SpanIs}
use vis.Text.Content.{Placed}
use vis.Text.Content.Storing.{Extends-refl}
use vis.Text.Holds.Defs.{Holds}
use vis.Text.Holds.Prepared.{Prepared, full_chain, tail_view}
use vis.Text.Holds.Gone.{span_init-SpanIs}

Distinct-left : (xs zs : List Ptr) → Distinct (xs ++ zs) → Distinct xs
Distinct-left [] zs d = tt
Distinct-left (x ∷ xs) zs d = (All-left (λ q. q ≢ x) xs zs d.0, Distinct-left xs zs d.1)

-- The pieces at consecutive addresses.
abbrev pub Cells : (ℕ → Piece) → ℕ → List Piece → Type 0
Cells h n [] = Unit
Cells h n (c ∷ cs) = (h n ≡ c) × Cells h (n + 1) cs

-- `u` is the text `t` with some new pieces.
pub record Made (t u : Text) (cells : List Piece) : Type 0 where
  pub agree : AgreeBelow t.next_piece t.piece u.piece
  pub block : u.block ≡ t.block
  pub count : u.count ≡ t.count
  pub size : u.size ≡ t.size
  pub next_piece : u.next_piece ≡ t.next_piece + length cells
  pub filled : Cells u.piece t.next_piece cells

-- A new piece of the text `t` with bytes within its blocks.
pub record Filled (t : Text) (c : Piece) : Type 0 where
  pub placed : Placed t.block t.count c.source c.len
  pub some_bytes : 0 < c.len

module _ (t u : Text) (xs : List Ptr) (a p : Ptr) (r behind : List Ptr)
    (h : Holds t (xs ++ a ∷ ((p ∷ r) ++ behind))) (more : 0 < total t.piece (p ∷ r)) where
  whole : Linked t.piece (xs ++ a ∷ ((p ∷ r) ++ (behind ++ end ∷ [])))
  whole = subst (Linked t.piece) (full_chain xs a (p ∷ r) behind) h.linked

  -- The chain from the piece before the span on.
  pub from_before : Linked t.piece (a ∷ ((p ∷ r) ++ (behind ++ end ∷ [])))
  from_before = Linked-back t.piece xs a ((p ∷ r) ++ (behind ++ end ∷ [])) whole

  pub span-Below : Below t.next_piece ((p ∷ r) ++ (behind ++ end ∷ []))
  span-Below =
      (All-right (λ q. q < t.next_piece) xs (a ∷ ((p ∷ r) ++ (behind ++ end ∷ [])))
        (subst (Below t.next_piece) (full_chain xs a (p ∷ r) behind) h.below)).1

  pub Follows-span : Follows t.piece p r (first_of behind end)
  Follows-span =
      Follows-of_Linked t.piece p r (first_of behind end) (tail_view behind).0
        (subst (λ z. Linked t.piece ((p ∷ r) ++ z)) (tail_view behind).1 from_before.2)

  old-SpanIs :
      (cells : List Piece) → Made t u cells → SpanIs u.piece (span_init u p (last_of p r)) (p ∷ r)
  old-SpanIs cells m =
      let zs = behind ++ end ∷ [] in
      let linked : Linked u.piece ((p ∷ r) ++ zs) =
        Linked-agree m.agree ((p ∷ r) ++ zs) span-Below from_before.2 in
      let parts = subst Distinct (full_chain xs a (p ∷ r) behind) h.distinct in
      span_init-SpanIs u p r (first_of behind end)
        (omega (
          arith,
          h.fuel,
          m.next_piece,
          length-append xs (a ∷ ((p ∷ r) ++ behind)),
          length-append r behind,
        ))
        (All-left (λ q. q ≢ null) (p ∷ r) behind
          (All-right (λ q. q ≢ null) xs (a ∷ ((p ∷ r) ++ behind)) h.nonnull).1)
        (Distinct-left (p ∷ r) zs (Distinct-right xs (a ∷ ((p ∷ r) ++ zs)) parts).1)
        (Follows-of_Linked u.piece p r (first_of behind end) (tail_view behind).0
          (subst (λ z. Linked u.piece ((p ∷ r) ++ z)) (tail_view behind).1 linked))
        (rw (total-agree m.agree (p ∷ r) (All-left (λ q. q < t.next_piece) (p ∷ r) zs span-Below))
          more)

  end_below : end < t.next_piece
  end_below =
      (All-right (λ q. q < t.next_piece) (xs ++ a ∷ ((p ∷ r) ++ behind)) (end ∷ []) h.below).0

  pub none-Prepared :
      Made t u []
      → Prepared t u xs a (p ∷ r) [] behind (span_init u p (last_of p r)) (span_init u null null)
  unfolding span_init span_length
  none-Prepared m = record {
    agree = m.agree;
    extends = rw (m.block, m.count) (Extends-refl t.block t.count);
    same_size = m.size;
    counter = omega (arith, m.next_piece);
    fresh = tt;
    distinct_news = tt;
    fits = tt;
    old_span = old-SpanIs [] m;
    new_span = record { counted = rw add-one; ends = tt };
    placed_news = tt;
    fuel = omega (
      arith,
      h.fuel,
      m.next_piece,
      length-append xs (a ∷ ((p ∷ r) ++ behind)),
      length-append (p ∷ r) behind,
      length-append xs (a ∷ behind),
    );
  }

  pub one-Prepared :
      (c : Piece)
      → Made t u (c ∷ [])
      → c.prev ≡ a
      → c.next ≡ first_of behind end
      → Filled t c
      → Prepared t u xs a
          (p ∷ r)
          (t.next_piece ∷ [])
          behind
          (span_init u p (last_of p r))
          (span_init u t.next_piece t.next_piece)
  one-Prepared c m before after f =
      let cell = m.filled.0 in
      record {
        agree = m.agree;
        extends = rw (m.block, m.count) (Extends-refl t.block t.count);
        same_size = m.size;
        counter = omega (arith, m.next_piece);
        fresh = ((omega arith, omega (arith, m.next_piece)), tt);
        distinct_news = (tt, tt);
        fits = (ap (λ z. z.prev) cell ∙ before, ap (λ z. z.next) cell ∙ after);
        old_span = old-SpanIs (c ∷ []) m;
        new_span =
            span_init-SpanIs u t.next_piece [] (first_of behind end) (omega arith)
              (omega (arith, end_below), tt) (tt, tt) (ap (λ z. z.next) cell ∙ after)
              (omega (arith, ap (λ z. z.len) cell, f.some_bytes));
        placed_news = (rw (m.block, m.count, cell) f.placed, tt);
        fuel = omega (
          arith,
          h.fuel,
          m.next_piece,
          length-append xs (a ∷ ((p ∷ r) ++ behind)),
          length-append (p ∷ r) behind,
          length-append xs (a ∷ t.next_piece ∷ behind),
        );
      }

  pub two-Prepared :
      (c d : Piece)
      → Made t u (c ∷ d ∷ [])
      → c.prev ≡ a
      → c.next ≡ t.next_piece + 1
      → d.prev ≡ t.next_piece
      → d.next ≡ first_of behind end
      → Filled t c
      → Filled t d
      → Prepared t u xs a
          (p ∷ r)
          (t.next_piece ∷ (t.next_piece + 1) ∷ [])
          behind
          (span_init u p (last_of p r))
          (span_init u t.next_piece (t.next_piece + 1))
  two-Prepared c d m before next prev after f g =
      let cell = m.filled.0 in
      let other = m.filled.1.0 in
      let links : Follows u.piece t.next_piece ((t.next_piece + 1) ∷ []) (first_of behind end) = (
        ap (λ z. z.next) cell ∙ next,
        ap (λ z. z.prev) other ∙ prev,
        ap (λ z. z.next) other ∙ after,
      ) in
      record {
        agree = m.agree;
        extends = rw (m.block, m.count) (Extends-refl t.block t.count);
        same_size = m.size;
        counter = omega (arith, m.next_piece);
        fresh = (
          (omega arith, omega (arith, m.next_piece)),
          ((omega arith, omega (arith, m.next_piece)), tt),
        );
        distinct_news = ((omega arith, tt), (tt, tt));
        fits = (ap (λ z. z.prev) cell ∙ before, links);
        old_span = old-SpanIs (c ∷ d ∷ []) m;
        new_span =
            span_init-SpanIs u t.next_piece ((t.next_piece + 1) ∷ []) (first_of behind end)
              (omega (arith, m.next_piece)) (omega (arith, end_below), (omega arith, tt))
              ((omega arith, tt), (tt, tt)) links
              (omega (arith, ap (λ z. z.len) cell, f.some_bytes));
        placed_news =
            (rw (m.block, m.count, cell) f.placed, (rw (m.block, m.count, other) g.placed, tt));
        fuel = omega (
          arith,
          h.fuel,
          m.next_piece,
          length-append xs (a ∷ ((p ∷ r) ++ behind)),
          length-append (p ∷ r) behind,
          length-append xs (a ∷ t.next_piece ∷ (t.next_piece + 1) ∷ behind),
        );
      }
