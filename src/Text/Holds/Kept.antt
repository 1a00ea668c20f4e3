-- ===== src/Text/Holds/Kept.antt =====
-- The invariant after the swap of a prepared change.
use vis.Prelude.{
  All, All-left, All-right, All-append, All-map, ℕ, ◌≤◌, ◌<◌, ◌≡◌, ◌≢◌, refl, sym, ap, subst, ◌∙◌,
  List, [], ◌∷◌, ◌++◌, append_assoc, append-nil, arith,
}
use vis.Text.State.{Ptr, null, begin, end, Text, Span}
use vis.Text.Spans.{span_swap}
use vis.Text.Chain.{Store, Linked, Distinct, first_of, last_of, total, total-append}
use vis.Text.Chain.Relink.{Relinked}
use vis.Text.Chain.Apart.{
  Below, AgreeBelow, total-agree, Distinct-Avoids, Distinct-without, Distinct-Fresh,
}
use vis.Text.Chain.Swap.{size-span_swap}
use vis.Text.Chain.Splice.{swap-Relinked, Linked-swap, total-Relinked}
use vis.Text.Content.{
  Blocks, AllPlaced, Placed, Extends, Placed-Extends, content, slice-Extends, content-append,
}
use vis.Text.Content.Lookup.{NonNull}
use vis.Text.Holds.Defs.{Holds, text_of}
use vis.Text.Holds.Prepared.{
  Prepared, full_chain, tail_view, snoc_split, StartsAt-same, block-span_swap, count-span_swap,
  next_piece-span_swap, prepared-Splice,
}

module _ {block block' : Blocks} {count count' : ℕ} (x : Extends block count block' count') {n : ℕ}
    {h g : Store} (agree : AgreeBelow n h g) where
  -- Pieces that were there before keep their place and their bytes.
  pub placed-agree :
      (l : List Ptr) → Below n l → AllPlaced block count h l → AllPlaced block' count' g l
  placed-agree [] b k = tt
  placed-agree (p ∷ l) b k =
      (rw (agree p b.0) (Placed-Extends x (h p).source (h p).len k.0), placed-agree l b.1 k.1)

  pub content-agree :
      (l : List Ptr)
      → Below n l
      → AllPlaced block count h l
      → content block' g l ≡ content block h l
  unfolding content
  content-agree [] b k = refl
  content-agree (p ∷ l) b k =
      rw (agree p b.0, slice-Extends x (h p).source (h p).len k.0, content-agree l b.1 k.1)

module _ {h g : Store} {a s b e : Ptr} (r : Relinked h g a s b e) where
  placed-links :
      (block : Blocks) (count : ℕ) (l : List Ptr)
      → AllPlaced block count h l
      → AllPlaced block count g l
  placed-links block count [] k = tt
  placed-links block count (p ∷ l) k =
      (rw (r.source_same p, r.len_same p) k.0, placed-links block count l k.1)

  content-links : (block : Blocks) (l : List Ptr) → content block g l ≡ content block h l
  unfolding content
  content-links block [] = refl
  content-links block (p ∷ l) = rw (r.source_same p, r.len_same p, content-links block l)

module _ (t u : Text) (xs : List Ptr) (a : Ptr) (olds news behind : List Ptr) (old new : Span)
    (h : Holds t (xs ++ a ∷ (olds ++ behind)))
    (r : Prepared t u xs a olds news behind old new) where
  n : ℕ
  n = t.next_piece

  -- The text after the swap.
  abbrev v : Text
  v = span_swap u old new

  links :
      Relinked u.piece v.piece a
        (first_of news (first_of behind end))
        (first_of behind end)
        (last_of a news)
  links = swap-Relinked u (prepared-Splice t u xs a olds news behind old new h r)

  Below-old : Below t.next_piece (xs ++ a ∷ (olds ++ behind))
  Below-old = All-left (λ q. q < t.next_piece) (xs ++ a ∷ (olds ++ behind)) (end ∷ []) h.below

  end_below : end < t.next_piece
  end_below = (All-right (λ q. q < t.next_piece) (xs ++ a ∷ (olds ++ behind)) (end ∷ []) h.below).0

  -- A predicate of the old chain and of the new pieces holds of the new chain.
  assemble :
      (P : Ptr → Type 0)
      → All P (xs ++ a ∷ (olds ++ behind))
      → All P news
      → All P (xs ++ a ∷ (news ++ behind))
  assemble P o m =
      let rest = All-right P xs (a ∷ (olds ++ behind)) o in
      All-append P xs (a ∷ (news ++ behind)) (All-left P xs (a ∷ (olds ++ behind)) o)
        (rest.0, All-append P news behind m (All-right P olds behind rest.1))

  linked' : Linked v.piece ((xs ++ a ∷ (news ++ behind)) ++ end ∷ [])
  linked' =
      subst (Linked v.piece)
        (sym (full_chain xs a news behind ∙ ap (λ z. xs ++ a ∷ (news ++ z)) (tail_view behind).1))
        (Linked-swap u (prepared-Splice t u xs a olds news behind old new h r))

  end-ne : end ≢ a
  end-ne =
      let d =
        Distinct-Avoids xs a (olds ++ (behind ++ end ∷ []))
          (subst Distinct (full_chain xs a olds behind) h.distinct) in
      (All-right (λ q. q ≢ a) behind (end ∷ [])
        (All-right (λ q. q ≢ a) olds (behind ++ end ∷ []) d.1)).0

  distinct' : Distinct ((xs ++ a ∷ (news ++ behind)) ++ end ∷ [])
  distinct' =
      let zs = behind ++ end ∷ [] in
      let all_old =
        subst Distinct (full_chain xs a olds behind ∙ sym (snoc_split xs a (olds ++ zs)))
          h.distinct in
      let low =
        subst (Below t.next_piece)
          (full_chain xs a olds behind ∙ sym (snoc_split xs a (olds ++ zs))) h.below in
      subst Distinct (snoc_split xs a (news ++ zs) ∙ sym (full_chain xs a news behind)) (
        Distinct-Fresh t.next_piece u.next_piece (xs ++ a ∷ []) news zs r.fresh r.distinct_news
          (All-append (λ q. q < t.next_piece) (xs ++ a ∷ []) zs
            (All-left (λ q. q < t.next_piece) (xs ++ a ∷ []) (olds ++ zs) low)
            (All-right (λ q. q < t.next_piece) olds zs
              (All-right (λ q. q < t.next_piece) (xs ++ a ∷ []) (olds ++ zs) low)))
          (Distinct-without (xs ++ a ∷ []) olds zs all_old))

  nonnull' : NonNull (xs ++ a ∷ (news ++ behind))
  nonnull' =
      assemble (λ q. q ≢ null) h.nonnull
        (All-map (λ q. (t.next_piece ≤ q) × (q < u.next_piece)) (λ q. q ≢ null) news
          (λ q f. omega (arith, end_below)) r.fresh)

  below' : Below v.next_piece ((xs ++ a ∷ (news ++ behind)) ++ end ∷ [])
  below' = rw (next_piece-span_swap u old new) (
      All-append (λ q. q < u.next_piece) (xs ++ a ∷ (news ++ behind)) (end ∷ [])
        (assemble (λ q. q < u.next_piece)
          (All-map (λ q. q < t.next_piece) (λ q. q < u.next_piece) (xs ++ a ∷ (olds ++ behind))
            (λ q k. omega (arith, r.counter)) Below-old)
          (All-map (λ q. (t.next_piece ≤ q) × (q < u.next_piece)) (λ q. q < u.next_piece) news
            (λ q f. f.1) r.fresh))
        (omega (arith, r.counter, end_below), tt))

  -- A piece of the old chain refers to the same bytes as before.
  placed_old : AllPlaced u.block u.count u.piece (xs ++ a ∷ (olds ++ behind))
  placed_old = placed-agree r.extends r.agree (xs ++ a ∷ (olds ++ behind)) Below-old h.placed

  placed' : AllPlaced v.block v.count v.piece (xs ++ a ∷ (news ++ behind))
  placed' =
      rw (block-span_swap u old new, count-span_swap u old new)
        (placed-links links u.block u.count (xs ++ a ∷ (news ++ behind)) (
          assemble (λ p. Placed u.block u.count (u.piece p).source (u.piece p).len) placed_old
            r.placed_news))

  sized' : v.size ≡ total v.piece (xs ++ a ∷ (news ++ behind))
  sized' = omega (
    arith,
    size-span_swap u old new olds news r.old_span r.new_span,
    r.same_size,
    h.sized,
    total-agree r.agree (xs ++ a ∷ (olds ++ behind)) Below-old,
    total-Relinked links (xs ++ a ∷ (news ++ behind)),
    total-append u.piece xs (a ∷ (olds ++ behind)),
    total-append u.piece olds behind,
    total-append u.piece xs (a ∷ (news ++ behind)),
    total-append u.piece news behind,
  )

  -- The swap of a prepared change keeps the invariant, for the chain with the new pieces.
  pub prepared-Holds : Holds (span_swap u old new) (xs ++ a ∷ (news ++ behind))
  prepared-Holds = record {
    starts = StartsAt-same xs a (olds ++ behind) (news ++ behind) h.starts;
    linked = linked';
    end_next = links.next_same end end-ne ∙ ap (λ c. c.next) (r.agree end end_below) ∙ h.end_next;
    distinct = distinct';
    nonnull = nonnull';
    below = below';
    begin_len =
        links.len_same begin
        ∙ ap (λ c. c.len) (r.agree begin (omega (arith, end_below)))
        ∙ h.begin_len;
    placed = placed';
    sized = sized';
    fuel = omega (arith, r.fuel, next_piece-span_swap u old new);
  }

  content' : (l : List Ptr) → content v.block v.piece l ≡ content u.block u.piece l
  content' l = rw (block-span_swap u old new) (content-links links u.block l)

  content_old :
      (l : List Ptr) (m : List Ptr) (k : List Ptr)
      → xs ++ a ∷ (olds ++ behind) ≡ m ++ (l ++ k)
      → content u.block u.piece l ≡ text_of t l
  content_old l m k e =
      content-agree r.extends r.agree l
        (All-left (λ q. q < t.next_piece) l k
          (All-right (λ q. q < t.next_piece) m (l ++ k) (subst (Below t.next_piece) e Below-old)))
        (All-left (λ p. Placed t.block t.count (t.piece p).source (t.piece p).len) l k
          (All-right (λ p. Placed t.block t.count (t.piece p).source (t.piece p).len) m (l ++ k)
            (subst (AllPlaced t.block t.count t.piece) e h.placed)))

  regroup : (A B C : List ℕ) → A ++ (B ++ C) ≡ A ++ B ++ C
  regroup A B C = sym (append_assoc A B C)

  -- The new text: the bytes before the change, the new ones, and those behind.
  pub prepared-text :
      text_of (span_swap u old new) (xs ++ a ∷ (news ++ behind))
      ≡ text_of t (xs ++ a ∷ []) ++ content u.block u.piece news ++ text_of t behind
  prepared-text =
      content' (xs ++ a ∷ (news ++ behind))
      ∙ ap (content u.block u.piece) (sym (snoc_split xs a (news ++ behind)))
      ∙ content-append u.block u.piece (xs ++ a ∷ []) (news ++ behind)
      ∙ ap (λ z. content u.block u.piece (xs ++ a ∷ []) ++ z)
          (content-append u.block u.piece news behind)
      ∙ regroup (content u.block u.piece (xs ++ a ∷ [])) (content u.block u.piece news)
          (content u.block u.piece behind)
      ∙ ap (λ z. z ++ content u.block u.piece news ++ content u.block u.piece behind)
          (content_old (xs ++ a ∷ []) [] (olds ++ behind) (sym (snoc_split xs a (olds ++ behind))))
      ∙ ap (λ z. text_of t (xs ++ a ∷ []) ++ content u.block u.piece news ++ z)
          (content_old behind (xs ++ a ∷ olds) []
            (rw append-nil (sym (append_assoc xs (a ∷ olds) behind))))
