-- ===== src/Text/Chain/Swap.antt =====
-- `span_swap` of text.c as a change of two links.
use vis.Prelude.{
  ◌+◌, ◌-◌, ◌<◌, ◌≡◌, ◌≢◌, List, [], ◌∷◌, ◌∙◌, refl, sym, ap, true, false, arith, ◌==◌,
}
use vis.Text.State.{Ptr, Span, Text}
use vis.Text.Spans.{set_next, set_prev, span_swap}
use vis.Text.Chain.{Store, Follows, Inside, Avoids, first_of, last_of, total}
use vis.Text.Chain.Relink.{Relinked}

-- A span of the pieces `l`: it is empty just if `l` is, and else has the two ends of `l`.
abbrev pub SpanEnds : Span → List Ptr → Type 0
SpanEnds s [] = Unit
SpanEnds s (p ∷ r) = (s.start ≡ p) × (s.end ≡ last_of p r) × (0 < s.len)

pub record SpanIs (h : Store) (s : Span) (l : List Ptr) : Type 0 where
  pub counted : s.len ≡ total h l
  pub ends : SpanEnds s l

pub next-last_of :
    (h : Store) (p : Ptr) (l : List Ptr) (b : Ptr) → Follows h p l b → (h (last_of p l)).next ≡ b
next-last_of h p [] b f = f
next-last_of h p (q ∷ l) b f = next-last_of h q l b f.2

last_of-ne : (a p : Ptr) (l : List Ptr) → Avoids a (p ∷ l) → last_of p l ≢ a
last_of-ne a p [] av = av.0
last_of-ne a p (q ∷ l) av = last_of-ne a q l av.1

set_links-Relinked :
    (t : Text) (a s b e : Ptr)
    → a ≢ b
    → Relinked t.piece (set_prev (set_next t a s) b e).piece a s b e
set_links-Relinked t a s b e ab = record {
  next_new = ground arith;
  prev_new = ground arith;
  next_same = λ p ne. ground arith;
  prev_same = λ p ne. ground arith;
  len_same = λ p. ground arith;
  source_same = λ p. ground arith;
  text_same = λ p. ground arith;
}

same-Relinked : (h : Store) (a s b e : Ptr) → (h a).next ≡ s → (h b).prev ≡ e → Relinked h h a s b e
same-Relinked h a s b e n p = record {
  next_new = n;
  prev_new = p;
  next_same = λ q ne. refl;
  prev_same = λ q ne. refl;
  len_same = λ q. refl;
  source_same = λ q. refl;
  text_same = λ q. refl;
}

set_next-next_other :
    (t : Text) (a s q : Ptr) → q ≢ a → ((set_next t a s).piece q).next ≡ (t.piece q).next
set_next-next_other t a s q ne = ground arith

set_next-prev : (t : Text) (a s q : Ptr) → ((set_next t a s).piece q).prev ≡ (t.piece q).prev
set_next-prev t a s q = ground arith

-- The same with the addresses as the code computes them.
set_links_at :
    (t : Text) (a' s' b' e' a s b e : Ptr)
    → a ≢ b
    → a' ≡ a
    → s' ≡ s
    → b' ≡ b
    → e' ≡ e
    → Relinked t.piece (set_prev (set_next t a' s') b' e').piece a s b e
set_links_at t a' s' b' e' a s b e ab ea es eb ee =
    rw (ea, es, eb, ee) (set_links-Relinked t a s b e ab)

is_empty : {h : Store} {s : Span} → SpanIs h s [] → (s.len == 0) ≡ true
is_empty i = ground (arith, i.counted)

not_empty :
    {h : Store} {s : Span} {p : Ptr} {l : List Ptr} → SpanIs h s (p ∷ l) → (s.len == 0) ≡ false
not_empty i = ground (arith, i.ends)

-- The outer ends of a span that stands or fits between `a` and `b`, read through its own fields.
start-prev :
    (t : Text) (s : Span) (a b x : Ptr) (l : List Ptr)
    → SpanIs t.piece s (x ∷ l)
    → Inside t.piece a (x ∷ l) b
    → (t.piece s.start).prev ≡ a
start-prev t s a b x l i f = ap (λ q. (t.piece q).prev) i.ends.0 ∙ f.0

end-next :
    (t : Text) (s : Span) (a b x : Ptr) (l : List Ptr)
    → SpanIs t.piece s (x ∷ l)
    → Inside t.piece a (x ∷ l) b
    → (t.piece s.end).next ≡ b
end-next t s a b x l i f = ap (λ q. (t.piece q).next) i.ends.1 ∙ next-last_of t.piece x l b f.1

-- `end-next` after a first write, to the `next` of `a'`, which is `a`.
end-next_after :
    (t : Text) (s : Span) (a' s' a b x : Ptr) (l : List Ptr)
    → SpanIs t.piece s (x ∷ l)
    → Inside t.piece a (x ∷ l) b
    → Avoids a (x ∷ l)
    → a' ≡ a
    → ((set_next t a' s').piece s.end).next ≡ b
end-next_after t s a' s' a b x l i f av ea =
    set_next-next_other t a' s' s.end (λ e. last_of-ne a x l av (sym i.ends.1 ∙ e ∙ ea))
    ∙ end-next t s a b x l i f

-- The pieces after a swap of the span `olds`, which stands between `a` and `b`, for the span `news`.
pub span_swap-Relinked :
    (t : Text) (old new : Span) (a b : Ptr) (olds news : List Ptr)
    → SpanIs t.piece old olds
    → SpanIs t.piece new news
    → a ≢ b
    → Avoids a olds
    → Avoids a news
    → Inside t.piece a olds b
    → Inside t.piece a news b
    → (t.piece a).next ≡ first_of olds b
    → (t.piece b).prev ≡ last_of a olds
    → Relinked t.piece (span_swap t old new).piece a (first_of news b) b (last_of a news)
unfolding span_swap
span_swap-Relinked t old new a b [] [] so sn ab ao an io fn n p =
    rw (is_empty so, is_empty sn) (same-Relinked t.piece a b b a n p)
span_swap-Relinked t old new a b [] (x ∷ news) so sn ab ao an io fn n p =
    let ea = start-prev t new a b x news sn fn in
    rw (is_empty so, not_empty sn)
      (set_links_at t _ _ _ _ a x b (last_of x news) ab ea sn.ends.0
        (end-next_after t new _ _ a b x news sn fn an ea) sn.ends.1)
span_swap-Relinked t old new a b (x ∷ olds) [] so sn ab ao an io fn n p =
    let ea = start-prev t old a b x olds so io in
    rw (not_empty so, is_empty sn)
      (set_links_at t _ _ _ _ a b b a ab ea (end-next t old a b x olds so io)
        (end-next_after t old _ _ a b x olds so io ao ea) (set_next-prev t _ _ old.start ∙ ea))
span_swap-Relinked t old new a b (x ∷ olds) (y ∷ news) so sn ab ao an io fn n p =
    let ea = start-prev t old a b x olds so io in
    rw (not_empty so, not_empty sn)
      (set_links_at t _ _ _ _ a y b (last_of y news) ab ea sn.ends.0
        (end-next_after t old _ _ a b x olds so io ao ea) sn.ends.1)

-- Nothing but the pieces and the size changes.
pub size-span_swap :
    (t : Text) (old new : Span) (olds news : List Ptr)
    → SpanIs t.piece old olds
    → SpanIs t.piece new news
    → (span_swap t old new).size ≡ t.size - total t.piece olds + total t.piece news
unfolding span_swap
size-span_swap t old new olds news so sn = ground (arith, so.counted, sn.counted)
