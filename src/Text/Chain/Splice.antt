-- ===== src/Text/Chain/Splice.antt =====
-- `span_swap` of text.c in a chain: one span in the place of another, and back.
use vis.Prelude.{
  ◌≤◌, ◌≡◌, List, [], ◌∷◌, ◌++◌, ◌∙◌, refl, sym, ap, Bool-cases, ◌==◌, inl, inr, ==_iff, arith,
}
use vis.Text.State.{Ptr, Piece, Span, Text}
use vis.Text.Spans.{span_swap}
use vis.Text.Chain.{
  Store, Linked, Inside, first_of, last_of, total, Linked-front, Linked-back, Inside-of_Linked,
}
use vis.Text.Chain.Relink.{Relinked, Apart, Relinked-Linked, Inside-kept}
use vis.Text.Chain.Swap.{SpanIs, span_swap-Relinked, size-span_swap}

-- The span `old` of the pieces `olds` stands in a chain between `a` and `b`, and the span `new` of
-- the pieces `news` fits there.
pub record Splice (h : Store) (a b : Ptr) (xs olds news ys : List Ptr) (old new : Span)
    : Type 0 where
  pub linked : Linked h (xs ++ a ∷ (olds ++ b ∷ ys))
  pub fits : Inside h a news b
  pub old_span : SpanIs h old olds
  pub new_span : SpanIs h new news
  pub apart_old : Apart a b xs olds ys
  pub apart_new : Apart a b xs news ys

pub total-Relinked :
    {h g : Store} {a s b e : Ptr} (r : Relinked h g a s b e) (l : List Ptr) → total g l ≡ total h l
total-Relinked r [] = refl
total-Relinked r (p ∷ l) = omega (arith, r.len_same p, total-Relinked r l)

SpanIs-Relinked :
    {h g : Store} {a s b e : Ptr} (r : Relinked h g a s b e) {span : Span} {l : List Ptr}
    → SpanIs h span l
    → SpanIs g span l
SpanIs-Relinked r {l} i = record { counted = i.counted ∙ sym (total-Relinked r l); ends = i.ends }

pub last-prev :
    (h : Store) (p : Ptr) (l : List Ptr) (b : Ptr) (ys : List Ptr)
    → Linked h (p ∷ (l ++ b ∷ ys))
    → (h b).prev ≡ last_of p l
last-prev h p [] b ys k = k.1
last-prev h p (q ∷ l) b ys k = last-prev h q l b ys k.2

pub first-next :
    (h : Store) (p : Ptr) (l : List Ptr) (b : Ptr) (ys : List Ptr)
    → Linked h (p ∷ (l ++ b ∷ ys))
    → (h p).next ≡ first_of l b
first-next h p [] b ys k = k.0
first-next h p (q ∷ l) b ys k = k.0

Linked-behind :
    (h : Store) (p : Ptr) (l : List Ptr) (b : Ptr) (ys : List Ptr)
    → Linked h (p ∷ (l ++ b ∷ ys))
    → Linked h (b ∷ ys)
Linked-behind h p [] b ys k = k.2
Linked-behind h p (q ∷ l) b ys k = Linked-behind h q l b ys k.2

Piece-ext :
    (c d : Piece)
    → c.text ≡ d.text
    → c.prev ≡ d.prev
    → c.next ≡ d.next
    → c.source ≡ d.source
    → c.len ≡ d.len
    → c ≡ d
Piece-ext c d e1 e2 e3 e4 e5 =
    λ i. record { text = e1 i; prev = e2 i; next = e3 i; source = e4 i; len = e5 i }

module _ {a b : Ptr} {xs olds news ys : List Ptr} {old new : Span} (t : Text)
    (s : Splice t.piece a b xs olds news ys old new) where
  at_a : Linked t.piece (a ∷ (olds ++ b ∷ ys))
  at_a = Linked-back t.piece xs a (olds ++ b ∷ ys) s.linked

  pub swap-Relinked :
      Relinked t.piece (span_swap t old new).piece a (first_of news b) b (last_of a news)
  swap-Relinked =
      span_swap-Relinked t old new a b olds news s.old_span s.new_span s.apart_old.ends
        s.apart_old.a_span s.apart_new.a_span (Inside-of_Linked t.piece a olds b ys at_a) s.fits
        (first-next t.piece a olds b ys at_a) (last-prev t.piece a olds b ys at_a)

  -- The chain after the swap has the new pieces in place of the old ones.
  pub Linked-swap : Linked (span_swap t old new).piece (xs ++ a ∷ (news ++ b ∷ ys))
  Linked-swap =
      Relinked-Linked xs news ys swap-Relinked s.apart_new
        (Linked-front t.piece xs a (olds ++ b ∷ ys) s.linked) s.fits
        (Linked-behind t.piece a olds b ys at_a)

  -- After the swap the old span fits where the new one stands.
  pub Splice-swap : Splice (span_swap t old new).piece a b xs news olds ys new old
  Splice-swap = record {
    linked = Linked-swap;
    fits =
        Inside-kept swap-Relinked olds a b s.apart_old.a_span s.apart_old.b_span
          (Inside-of_Linked t.piece a olds b ys at_a);
    old_span = SpanIs-Relinked swap-Relinked s.new_span;
    new_span = SpanIs-Relinked swap-Relinked s.old_span;
    apart_old = s.apart_new;
    apart_new = s.apart_old;
  }

-- Two changes of the same links, the second back to what they were.
Relinked-back :
    {h g f : Store} {a s b e s' e' : Ptr} (p : Ptr)
    → Relinked h g a s b e
    → Relinked g f a s' b e'
    → (h a).next ≡ s'
    → (h b).prev ≡ e'
    → f p ≡ h p
Relinked-back {h} {f} {a} {b} p r r' n q =
    Piece-ext (f p) (h p) (r'.text_same p ∙ r.text_same p) prevs nexts
      (r'.source_same p ∙ r.source_same p) (r'.len_same p ∙ r.len_same p)
  where
    nexts : (f p).next ≡ (h p).next
    nexts = elim (Bool-cases (p == a)) [
      | inl e ↦
          ap (λ x. (f x).next) ((==_iff p a).0 e)
          ∙ r'.next_new
          ∙ sym n
          ∙ ap (λ x. (h x).next) (sym ((==_iff p a).0 e))
      | inr e ↦
          r'.next_same p (λ k. ground (arith, e, k)) ∙ r.next_same p (λ k. ground (arith, e, k))
    ]

    prevs : (f p).prev ≡ (h p).prev
    prevs = elim (Bool-cases (p == b)) [
      | inl e ↦
          ap (λ x. (f x).prev) ((==_iff p b).0 e)
          ∙ r'.prev_new
          ∙ sym q
          ∙ ap (λ x. (h x).prev) (sym ((==_iff p b).0 e))
      | inr e ↦
          r'.prev_same p (λ k. ground (arith, e, k)) ∙ r.prev_same p (λ k. ground (arith, e, k))
    ]

-- Undoing a change: where the new span has taken the place of the old one, swapping them back
-- restores every piece, and the size of the text if it was at least as long as the old span.
pub span_swap-span_swap :
    (t : Text) {a b : Ptr} {xs olds news ys : List Ptr} {old new : Span}
    → Splice t.piece a b xs olds news ys old new
    → old.len ≤ t.size
    → ((p : Ptr) → (span_swap (span_swap t old new) new old).piece p ≡ t.piece p)
      × ((span_swap (span_swap t old new) new old).size ≡ t.size)
span_swap-span_swap t {a} {b} {olds} {news} {ys} {old} {new} s k = (
  λ p.
      Relinked-back p (swap-Relinked t s) (swap-Relinked (span_swap t old new) (Splice-swap t s))
        (first-next t.piece a olds b ys (at_a t s)) (last-prev t.piece a olds b ys (at_a t s)),
  omega (
    arith,
    size-span_swap t old new olds news s.old_span s.new_span,
    size-span_swap (span_swap t old new) new old news olds (Splice-swap t s).old_span
        (Splice-swap t s).new_span,
    s.old_span.counted,
    total-Relinked (swap-Relinked t s) olds,
    total-Relinked (swap-Relinked t s) news,
  ),
)
