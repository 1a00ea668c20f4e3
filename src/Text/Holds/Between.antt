-- ===== src/Text/Holds/Between.antt =====
-- `insert_between`: a new piece between two pieces of the chain.
use vis.Prelude.{
  All-left, All-right, subst, ℕ, ◌+◌, ◌<◌, ◌≡◌, ◌≢◌, refl, sym, ap, ◌∙◌, List, [], ◌∷◌, ◌++◌, arith,
  ==_refl, ne→==_false, length-append, true, append-nil,
}
use native.Mathlib.Numerals.{add-one}
use vis.Text.State.{
  Ptr, null, end, Text, Data, Span, update, new_piece, empty_span, slice, Env, Run, ok,
}
use vis.Text.Spans.{piece_alloc, piece_init, span_init, span_swap, span_length}
use vis.Text.Revisions.{edit_change}
use vis.Text.Cache.{cache_piece}
use vis.Text.Insert.{finish_insert, insert_between}
use vis.Text.Chain.{Linked, first_of, Linked-back}
use vis.Text.Chain.Apart.{AgreeBelow}
use vis.Text.Chain.Swap.{SpanIs}
use vis.Text.Chain.Splice.{first-next}
use vis.Text.Content.{Placed, content}
use vis.Text.Content.Storing.{Extends-refl}
use vis.Text.Holds.Defs.{Holds, text_of}
use vis.Text.Holds.Frame.{SamePieces, SamePieces-cache_piece, SamePieces-trans}
use vis.Text.Holds.Prepared.{Prepared, full_chain, tail_view}
use vis.Text.Holds.Kept.{prepared-Holds, prepared-text}

-- The text after `piece_alloc` and `piece_init` of the new piece.
abbrev pub with_piece : Text → Ptr → Data → ℕ → Text
with_piece t p source n =
    let t1 : Text = record t {
      piece = update t.piece t.next_piece new_piece;
      next_piece = t.next_piece + 1;
    } in
    piece_init t1 t.next_piece p (t1.piece p).next source n

with_piece-agree :
    (t : Text) (p : Ptr) (source : Data) (n : ℕ)
    → AgreeBelow t.next_piece t.piece (with_piece t p source n).piece
unfolding piece_init
with_piece-agree t p source n q h = rw (ne→==_false q t.next_piece (omega arith))

with_piece-new :
    (t : Text) (p : Ptr) (source : Data) (n : ℕ)
    → p < t.next_piece
    → (with_piece t p source n).piece t.next_piece
      ≡ record { text = true; prev = p; next = (t.piece p).next; source = source; len = n }
unfolding piece_init
with_piece-new t p source n h = rw (==_refl t.next_piece, ne→==_false p t.next_piece (omega arith))

-- A successful change: the text holds a new chain with the bytes `c`.
pub record Changed (r : Run (Unit {0})) (c : List ℕ) : Type 0 where
  pub after : Text
  pub chain : List Ptr
  pub result : r ≡ ok (tt, after)
  pub holds : Holds after chain
  pub text : text_of after chain ≡ c

-- The span of one piece.
pub span_init-one :
    (t : Text) (p : Ptr)
    → p ≢ null
    → 0 < (t.piece p).len
    → SpanIs t.piece (span_init t p p) (p ∷ [])
unfolding span_init span_length
span_init-one t p ne h =
    rw (add-one, ne→==_false p null ne, ==_refl p)
      (record { counted = omega arith; ends = (refl, refl, h) })

-- A prepared change stays prepared under steps that leave the pieces alone.
pub Prepared-SamePieces :
    {t u w : Text} {xs : List Ptr} {a : Ptr} {olds news behind : List Ptr} {old new : Span}
    → SamePieces u w
    → Prepared t u xs a olds news behind old new
    → Prepared t w xs a olds news behind old new
Prepared-SamePieces s r = record {
  agree = rw s.piece r.agree;
  extends = rw (s.block, s.count) r.extends;
  same_size = s.size ∙ r.same_size;
  counter = rw s.next_piece r.counter;
  fresh = rw s.next_piece r.fresh;
  distinct_news = r.distinct_news;
  fits = rw s.piece r.fits;
  old_span = rw s.piece r.old_span;
  new_span = rw s.piece r.new_span;
  placed_news = rw (s.block, s.count, s.piece) r.placed_news;
  fuel = rw s.next_piece r.fuel;
}

pub SamePieces-finish :
    (t : Text) (r p : Ptr) (old new : Span)
    → SamePieces t (cache_piece (edit_change t r λ c. record c { old = old; new = new }) p)
SamePieces-finish t r p old new =
    SamePieces-trans {u = edit_change t r λ c. record c { old = old; new = new }}
      (record { block = refl; count = refl; piece = refl; next_piece = refl; size = refl })
      (SamePieces-cache_piece _ p)

-- The chain's piece `p` and the piece behind it.
pub next-chain :
    (t : Text) (xs : List Ptr) (p : Ptr) (behind : List Ptr)
    → Holds t (xs ++ p ∷ behind)
    → (t.piece p).next ≡ first_of behind end
next-chain t xs p behind h =
    let whole = subst (Linked t.piece) (full_chain xs p [] behind) h.linked in
    first-next t.piece p [] (first_of behind end) (tail_view behind).0 (
      subst (λ z. Linked t.piece (p ∷ z)) (tail_view behind).1
        (Linked-back t.piece xs p (behind ++ end ∷ []) whole))

pub chain-below :
    (t : Text) (xs : List Ptr) (p : Ptr) (behind : List Ptr)
    → Holds t (xs ++ p ∷ behind)
    → (p < t.next_piece) × (end < t.next_piece)
chain-below t xs p behind h =
    let low = All-left (λ q. q < t.next_piece) (xs ++ p ∷ behind) (end ∷ []) h.below in
    (
      (All-right (λ q. q < t.next_piece) xs (p ∷ behind) low).0,
      (All-right (λ q. q < t.next_piece) (xs ++ p ∷ behind) (end ∷ []) h.below).0,
    )

module _ (t : Text) (xs : List Ptr) (p : Ptr) (behind : List Ptr) (source : Data) (n : ℕ)
    (h : Holds t (xs ++ p ∷ behind)) (placed : Placed t.block t.count source n)
    (some_bytes : 0 < n) where
  cell :
      (with_piece t p source n).piece t.next_piece
      ≡ record { text = true; prev = p; next = (t.piece p).next; source = source; len = n }
  cell = with_piece-new t p source n (chain-below t xs p behind h).0

  between-Prepared :
      Prepared t
        (with_piece t p source n)
        xs
        p
        []
        (t.next_piece ∷ [])
        behind
        empty_span
        (span_init (with_piece t p source n) t.next_piece t.next_piece)
  unfolding piece_init
  between-Prepared = record {
    agree = with_piece-agree t p source n;
    extends = Extends-refl t.block t.count;
    same_size = refl;
    counter = omega arith;
    fresh = ((omega arith, omega arith), tt);
    distinct_news = (tt, tt);
    fits = (ap (λ c. c.prev) cell, ap (λ c. c.next) cell ∙ next-chain t xs p behind h);
    old_span = record { counted = refl; ends = tt };
    new_span =
        span_init-one (with_piece t p source n) t.next_piece
          (omega (arith, (chain-below t xs p behind h).1)) (omega (arith, ap (λ c. c.len) cell));
    placed_news = (subst (λ c. Placed t.block t.count c.source c.len) (sym cell) placed, tt);
    fuel = omega (
      arith,
      h.fuel,
      length-append xs (p ∷ behind),
      length-append xs (p ∷ t.next_piece ∷ behind),
    );
  }

  slice-cell :
      content t.block (with_piece t p source n).piece (t.next_piece ∷ []) ≡ slice source n t.block
  unfolding content
  slice-cell = append-nil _ ∙ ap (λ c. slice c.source c.len t.block) cell

  -- The insertion of a stored chunk behind `p` adds its bytes there.
  pub insert_between-Changed :
      (env : Env) (r : Ptr)
      → ((v : Text) → env.calloc v ≡ true)
      → Changed
          (insert_between env t r p source n)
          (text_of t (xs ++ p ∷ []) ++ slice source n t.block ++ text_of t behind)
  unfolding insert_between finish_insert piece_alloc content piece_init
  insert_between-Changed env r a =
      let u = with_piece t p source n in
      let new = span_init u t.next_piece t.next_piece in
      let s = SamePieces-finish u r t.next_piece empty_span new in
      let w =
        cache_piece (edit_change u r λ c. record c { old = empty_span; new = new }) t.next_piece in
      let ready = Prepared-SamePieces s between-Prepared in
      rw (a t) (record {
        after = span_swap w empty_span new;
        chain = xs ++ p ∷ (t.next_piece ∷ behind);
        result = refl;
        holds = prepared-Holds t w xs p [] (t.next_piece ∷ []) behind empty_span new h ready;
        text =
            prepared-text t w xs p [] (t.next_piece ∷ []) behind empty_span new h ready
            ∙ ap (λ z. text_of t (xs ++ p ∷ []) ++ z ++ text_of t behind)
                (ap (λ b. content b w.piece (t.next_piece ∷ [])) s.block
                  ∙ ap (λ g. content t.block g (t.next_piece ∷ [])) s.piece
                  ∙ slice-cell);
      })
