-- ===== src/Text/Holds/Split.antt =====
-- `insert_middle`: the change that splits a piece (`text_insert` of text.c).
use vis.Prelude.{
  All-right, subst, ℕ, ◌+◌, ◌-◌, ◌<◌, ◌≡◌, ◌≢◌, refl, sym, ap, ◌∙◌, List, [], ◌∷◌, ◌++◌,
  append_assoc, arith, length-append, true, append-nil,
}
use vis.Text.State.{Ptr, null, end, Text, Data, slice, Env, advance}
use vis.Text.Spans.{piece_alloc, span_init, span_swap}
use vis.Text.Revisions.{edit_change}
use vis.Text.Cache.{cache_piece}
use vis.Text.Insert.{finish_insert, insert_middle, split_piece}
use vis.Text.Chain.{Linked, Inside, first_of, Linked-back}
use vis.Text.Content.{AllPlaced, Placed, content}
use vis.Text.Content.Storing.{Extends-refl}
use vis.Text.Holds.Defs.{Holds, text_of}
use vis.Text.Holds.Prepared.{Prepared, full_chain}
use vis.Text.Holds.Kept.{prepared-Holds, prepared-text}
use vis.Text.Holds.Between.{
  Changed, span_init-one, Prepared-SamePieces, SamePieces-finish, next-chain, chain-below,
}
use vis.Text.Holds.Middle.{
  with_three, Three, with_three-Three, three, span_init-three, Placed-front, Placed-advance,
}

module _ (t u : Text) (xs : List Ptr) (a p : Ptr) (behind : List Ptr) (off : ℕ) (source : Data)
    (n : ℕ) (h : Holds t (xs ++ a ∷ (p ∷ behind))) (inside : off < (t.piece p).len)
    (placed : Placed t.block t.count source n) (some_bytes : 0 < n)
    (k : Three t u p off source n) where
  chain_p : Holds t ((xs ++ a ∷ []) ++ p ∷ behind)
  chain_p = subst (Holds t) (sym (append_assoc xs (a ∷ []) (p ∷ behind))) h

  lows : (p < t.next_piece) × (end < t.next_piece)
  lows = chain-below t (xs ++ a ∷ []) p behind chain_p

  p-ne-null : p ≢ null
  p-ne-null = (All-right (λ q. q ≢ null) xs (a ∷ (p ∷ behind)) h.nonnull).1.0

  prev_p : (t.piece p).prev ≡ a
  prev_p =
      (Linked-back t.piece xs a (p ∷ (behind ++ end ∷ []))
        (subst (Linked t.piece) (full_chain xs a (p ∷ []) behind) h.linked)).1

  Placed-p : Placed t.block t.count (t.piece p).source (t.piece p).len
  Placed-p =
      (All-right (λ q. Placed t.block t.count (t.piece q).source (t.piece q).len) xs
        (a ∷ (p ∷ behind)) h.placed).1.0

  same_p : (u.piece p).len ≡ (t.piece p).len
  same_p = ap (λ c. c.len) (k.agree p lows.0)

  fits_three : Inside u.piece a (three t.next_piece) (first_of behind end)
  fits_three = (
    ap (λ c. c.prev) k.before ∙ prev_p,
    (
      ap (λ c. c.next) k.before,
      ap (λ c. c.prev) k.middle,
      (
        ap (λ c. c.next) k.middle,
        ap (λ c. c.prev) k.after,
        ap (λ c. c.next) k.after ∙ next-chain t (xs ++ a ∷ []) p behind chain_p,
      ),
    ),
  )

  placed_three : AllPlaced u.block u.count u.piece (three t.next_piece)
  placed_three =
      rw (k.block, k.count)
        (
          subst (λ c. Placed t.block t.count c.source c.len) (sym k.before)
              (Placed-front t.block t.count (t.piece p).source off (t.piece p).len inside Placed-p),
          (
            subst (λ c. Placed t.block t.count c.source c.len) (sym k.middle) placed,
            (
              subst (λ c. Placed t.block t.count c.source c.len) (sym k.after)
                  (Placed-advance t.block t.count (t.piece p).source off (t.piece p).len inside
                    Placed-p),
              tt,
            ),
          ),
        )

  middle-Prepared :
      Prepared t u xs a
        (p ∷ [])
        (three t.next_piece)
        behind
        (span_init u p p)
        (span_init u t.next_piece (t.next_piece + 1 + 1))
  middle-Prepared = record {
    agree = k.agree;
    extends = rw (k.block, k.count) (Extends-refl t.block t.count);
    same_size = k.size;
    counter = omega (arith, k.next_piece);
    fresh = (
      (omega arith, omega (arith, k.next_piece)),
      (
        (omega arith, omega (arith, k.next_piece)),
        ((omega arith, omega (arith, k.next_piece)), tt),
      ),
    );
    distinct_news = ((omega arith, (omega arith, tt)), ((omega arith, tt), (tt, tt)));
    fits = fits_three;
    old_span = span_init-one u p p-ne-null (omega (arith, same_p, inside));
    new_span =
        span_init-three u t.next_piece (t.next_piece + 1) (t.next_piece + 1 + 1) (t.next_piece + 1)
          (omega (arith, k.next_piece)) (omega (arith, lows.1)) (omega arith) (omega arith)
          (omega arith) (omega arith) (ap (λ c. c.next) k.before) (ap (λ c. c.next) k.middle)
          (omega (arith, ap (λ c. c.len) k.middle));
    placed_news = placed_three;
    fuel = omega (
      arith,
      h.fuel,
      k.next_piece,
      length-append xs (a ∷ (p ∷ behind)),
      length-append xs (a ∷ (three t.next_piece ++ behind)),
    );
  }

  -- The three pieces hold the two parts of the old one with the new bytes between them.
  content-three :
      content u.block u.piece (three t.next_piece)
      ≡ slice (t.piece p).source off t.block
        ++ (slice source n t.block
            ++ slice (advance (t.piece p).source off) ((t.piece p).len - off) t.block)
  unfolding content
  content-three = rw (k.block, k.before, k.middle, k.after, append-nil)

  -- What the three pieces make of the text, as the bytes around the place of the insertion.
  split_text :
      text_of t (xs ++ a ∷ []) ++ content u.block u.piece (three t.next_piece) ++ text_of t behind
      ≡ (text_of t (xs ++ a ∷ []) ++ slice (t.piece p).source off t.block)
        ++ slice source n t.block
        ++ (slice (advance (t.piece p).source off) ((t.piece p).len - off) t.block
            ++ text_of t behind)
  split_text = rw content-three (simp append_assoc)

-- The insertion of a stored chunk within the piece `p`, behind the piece `a`, cuts the bytes of `p`
-- at `off` and puts the new ones there.
pub insert_middle-Changed :
    (env : Env) (t : Text) (r : Ptr) (xs : List Ptr) (a p : Ptr) (behind : List Ptr) (off : ℕ)
    (source : Data) (n : ℕ)
    → ((v : Text) → env.calloc v ≡ true)
    → Holds t (xs ++ a ∷ (p ∷ behind))
    → off < (t.piece p).len
    → Placed t.block t.count source n
    → 0 < n
    → Changed (insert_middle env t r p off source n) (
        (text_of t (xs ++ a ∷ []) ++ slice (t.piece p).source off t.block)
        ++ slice source n t.block
        ++ (slice (advance (t.piece p).source off) ((t.piece p).len - off) t.block
            ++ text_of t behind))
unfolding insert_middle split_piece finish_insert piece_alloc with_three content
insert_middle-Changed env t r xs a p behind off source n ok_all h inside placed some_bytes =
    let u = with_three t p off source n in
    let low =
      (chain-below t (xs ++ a ∷ []) p behind
        (subst (Holds t) (sym (append_assoc xs (a ∷ []) (p ∷ behind))) h)).0 in
    let k = with_three-Three t p off source n low in
    let old = span_init u p p in
    let new = span_init u t.next_piece (t.next_piece + 1 + 1) in
    let s = SamePieces-finish u r (t.next_piece + 1) old new in
    let w =
      cache_piece (edit_change u r λ c. record c { old = old; new = new }) (t.next_piece + 1) in
    let ready =
      Prepared-SamePieces s
        (middle-Prepared t u xs a p behind off source n h inside placed some_bytes k) in
    rw (ok_all t, ok_all _, ok_all _)
      (record {
        after = span_swap w old new;
        chain = xs ++ a ∷ (three t.next_piece ++ behind);
        result = refl;
        holds = prepared-Holds t w xs a (p ∷ []) (three t.next_piece) behind old new h ready;
        text =
            prepared-text t w xs a (p ∷ []) (three t.next_piece) behind old new h ready
            ∙ ap (λ z. text_of t (xs ++ a ∷ []) ++ z ++ text_of t behind)
                (ap (λ b. content b w.piece (three t.next_piece)) s.block
                  ∙ ap (λ g. content u.block g (three t.next_piece)) s.piece)
            ∙ split_text t u xs a p behind off source n h inside placed some_bytes k;
      })
