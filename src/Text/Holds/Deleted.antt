-- ===== src/Text/Holds/Deleted.antt =====
-- `delete_span`: the change that a deletion makes to the chain (`text_delete` of text.c).
use vis.Prelude.{
  All, All-left, All-right, subst, ℕ, ◌+◌, ◌-◌, ◌≤◌, ◌<◌, ◌≡◌, refl, sym, ap, ◌∙◌, List, [], ◌∷◌,
  ◌++◌, append_assoc, length, arith, true, ==_refl, ne→==_false,
}
use vis.Prelude.Slices.{removed}
use vis.Text.State.{Piece, Ptr, end, Text, Span, ok, advance, update, new_piece}
use vis.Text.Spans.{piece_init, span_swap}
use vis.Text.Revisions.{edit_change}
use vis.Text.Chain.{first_of, last_of, total}
use vis.Text.Chain.Swap.{next-last_of}
use vis.Text.Content.{AllPlaced, Placed, content, content-append, length-content}
use vis.Text.Holds.Defs.{Holds, text_of}
use vis.Text.Holds.Frame.{SamePieces}
use vis.Text.Holds.Prepared.{Prepared}
use vis.Text.Holds.Kept.{prepared-Holds, prepared-text}
use vis.Text.Holds.Between.{Changed, Prepared-SamePieces}
use vis.Text.Holds.Middle.{Placed-advance}
use vis.Text.Holds.Insertion.{text_of-split}
use vis.Text.Holds.Cut.{removed_between, Tail, content-Tail}
use vis.Text.Holds.Removal
use vis.Text.Holds.Removal.{Made, Filled, none-Prepared, one-Prepared, two-Prepared}

-- How a deletion cuts the bytes `c` of the pieces that it replaces: `kept` are those before the place
-- where it begins and `rest` those behind the place where it ends.
pub record Cuts (c : List ℕ) (lead pos n : ℕ) (kept rest : List ℕ) : Type 0 where
  pub behind : List ℕ
  pub before : List ℕ
  pub at_start : c ≡ kept ++ behind
  pub at_end : c ≡ before ++ rest
  pub start : pos ≡ lead + length kept
  pub stop : pos + n ≡ lead + length before

module _ (t : Text) (xs : List Ptr) (a : Ptr) (olds behind : List Ptr)
    (h : Holds t (xs ++ a ∷ (olds ++ behind))) where
  bytes_of :
      text_of t (xs ++ a ∷ (olds ++ behind))
      ≡ text_of t (xs ++ a ∷ []) ++ content t.block t.piece olds ++ text_of t behind
  bytes_of =
      text_of-split t (xs ++ a ∷ (olds ++ behind)) xs (olds ++ behind) a refl
      ∙ ap (λ z. text_of t (xs ++ a ∷ []) ++ z) (content-append t.block t.piece olds behind)
      ∙ sym (
          append_assoc (text_of t (xs ++ a ∷ [])) (content t.block t.piece olds) (text_of t behind))

  -- The swap of a prepared change whose new pieces hold what is left of the old ones.
  pub swap-Changed :
      (u : Text) (r : Ptr) (news : List Ptr) (old new : Span) (pos n : ℕ) (kept rest : List ℕ)
      → Prepared t u xs a olds news behind old new
      → content u.block u.piece news ≡ kept ++ rest
      → Cuts (content t.block t.piece olds) (length (text_of t (xs ++ a ∷ []))) pos n kept rest
      → Changed
          (ok (tt, span_swap (edit_change u r λ c. record c { old = old; new = new }) old new))
          (removed (text_of t (xs ++ a ∷ (olds ++ behind))) pos n)
  swap-Changed u r news old new pos n kept rest ready e cut =
      let w = edit_change u r λ c. record c { old = old; new = new } in
      let s : SamePieces u w = record {
        block = refl;
        count = refl;
        piece = refl;
        next_piece = refl;
        size = refl;
      } in
      let prepared = Prepared-SamePieces s ready in
      record {
        after = span_swap w old new;
        chain = xs ++ a ∷ (news ++ behind);
        result = refl;
        holds = prepared-Holds t w xs a olds news behind old new h prepared;
        text =
            prepared-text t w xs a olds news behind old new h prepared
            ∙ ap (λ z. text_of t (xs ++ a ∷ []) ++ z ++ text_of t behind) e
            ∙ sym (
                ap (λ z. removed z pos n) bytes_of
                ∙ removed_between (text_of t (xs ++ a ∷ [])) (content t.block t.piece olds)
                    (text_of t behind) kept cut.behind cut.before rest pos n cut.at_start cut.at_end
                    cut.start cut.stop);
      }

pub All-last_of :
    (P : Ptr → Type 0) (p : Ptr) (r behind : List Ptr) → All P ((p ∷ r) ++ behind) → P (last_of p r)
All-last_of P p [] behind h = h.0
All-last_of P p (q ∷ r) behind h = All-last_of P q r behind h.1

abbrev pub alloc : Text → Text
alloc t = record t { piece = update t.piece t.next_piece new_piece; next_piece = t.next_piece + 1 }

-- The last `m` bytes of the piece `q` as a new piece behind `before`.
abbrev pub with_after : Text → (before q : Ptr) → ℕ → Text
with_after t before q m =
    piece_init (alloc t) t.next_piece before ((alloc t).piece q).next
      (advance ((alloc t).piece q).source (((alloc t).piece q).len - m)) m

abbrev pub after_piece : Text → (before q : Ptr) → ℕ → Piece
after_piece t before q m = record {
  text = true;
  prev = before;
  next = (t.piece q).next;
  source = advance (t.piece q).source ((t.piece q).len - m);
  len = m;
}

pub with_after-Made :
    (t : Text) (before q : Ptr) (m : ℕ)
    → q < t.next_piece
    → Made t (with_after t before q m) (after_piece t before q m ∷ [])
unfolding piece_init
with_after-Made t before q m h = record {
  agree = λ j l. rw (ne→==_false j t.next_piece (omega arith));
  block = refl;
  count = refl;
  size = refl;
  next_piece = omega arith;
  filled = (rw (==_refl t.next_piece, ne→==_false q t.next_piece (omega arith)), tt);
}

pub unchanged-Made : (t : Text) → Made t t []
unchanged-Made t = record {
  agree = λ j l. refl;
  block = refl;
  count = refl;
  size = refl;
  next_piece = omega arith;
  filled = tt;
}

-- What the chain says of the last piece that a deletion meets.
module _ (t : Text) (xs : List Ptr) (a p : Ptr) (r behind : List Ptr)
    (h : Holds t (xs ++ a ∷ ((p ∷ r) ++ behind))) (more : 0 < total t.piece (p ∷ r)) where
  pub last_below : last_of p r < t.next_piece
  last_below =
      All-last_of (λ q. q < t.next_piece) p r (behind ++ end ∷ [])
        (Removal.span-Below t t xs a p r behind h more)

  pub last_next : (t.piece (last_of p r)).next ≡ first_of behind end
  last_next =
      next-last_of t.piece p r (first_of behind end)
        (Removal.Follows-span t t xs a p r behind h more)

  pub span-Placed : AllPlaced t.block t.count t.piece ((p ∷ r) ++ behind)
  span-Placed =
      (All-right (λ q. Placed t.block t.count (t.piece q).source (t.piece q).len) xs
        (a ∷ ((p ∷ r) ++ behind)) h.placed).1

  pub after-Filled :
      (before : Ptr) (m : ℕ)
      → 0 < m
      → m ≤ (t.piece (last_of p r)).len
      → Filled t (after_piece t before (last_of p r) m)
  after-Filled before m some le =
      let q = t.piece (last_of p r) in
      let rest : q.len - (q.len - m) ≡ m = omega arith in
      record {
        placed =
            subst (λ z. Placed t.block t.count (advance q.source (q.len - m)) z) rest
              (Placed-advance t.block t.count q.source (q.len - m) q.len (omega arith) (
                All-last_of (λ j. Placed t.block t.count (t.piece j).source (t.piece j).len) p r
                  behind span-Placed));
        some_bytes = some;
      }

  pub length_span : length (content t.block t.piece (p ∷ r)) ≡ total t.piece (p ∷ r)
  length_span = length-content t.block t.count t.piece (p ∷ r) (
      All-left (λ q. Placed t.block t.count (t.piece q).source (t.piece q).len) (p ∷ r) behind
        span-Placed)

  pub span_Tail : (m : ℕ) → 0 < m → m ≤ (t.piece (last_of p r)).len → Tail t.block t.piece p r m
  span_Tail m some le =
      content-Tail t.block t.count t.piece p r m
        (All-left (λ q. Placed t.block t.count (t.piece q).source (t.piece q).len) (p ∷ r) behind
          span-Placed)
        some le
