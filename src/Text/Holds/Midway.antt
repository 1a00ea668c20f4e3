-- ===== src/Text/Holds/Midway.antt =====
-- A deletion that begins within a piece (`text_delete` of text.c).
use vis.Prelude.{
  ℕ, ◌+◌, ◌-◌, ◌≤◌, ◌<◌, ◌≡◌, refl, sym, ap, ◌∙◌, List, [], ◌∷◌, ◌++◌, append_assoc, append-nil,
  length, arith, true, false, ◌==◌, ==_refl, ne→==_false,
}
use vis.Prelude.Slices.{removed}
use vis.Text.State.{Piece, Ptr, Text, Env, slice, advance}
use vis.Text.Spans.{piece_alloc, piece_init, span_init}
use vis.Text.Delete.{
  delete_start, delete_stop, finish_delete, delete_span, new_start, new_end, skip_pieces,
}
use vis.Text.Chain.{last_of, total}
use vis.Text.Content.{Placed, content, length-slice}
use vis.Text.Holds.Defs.{Holds, text_of}
use vis.Text.Holds.Between.{Changed}
use vis.Text.Holds.Middle.{Placed-front, slice-cut}
use vis.Text.Holds.Removal
use vis.Text.Holds.Removal.{Made, Filled, none-Prepared, one-Prepared, two-Prepared}
use vis.Text.Holds.Deleted.{
  swap-Changed, alloc, with_after, after_piece, last_below, last_next, span-Placed, after-Filled,
  length_span, span_Tail,
}

-- The first `off` bytes of the piece `p` as a new piece.
abbrev before_piece : Text → (p next : Ptr) → ℕ → Piece
before_piece t p next off = record {
  text = true;
  prev = (t.piece p).prev;
  next = next;
  source = (t.piece p).source;
  len = off;
}

abbrev with_before : Text → (n p next : Ptr) → ℕ → Text
with_before t n p next off = piece_init t n (t.piece p).prev next (t.piece p).source off

before-Made :
    (t : Text) (p q : Ptr) (off : ℕ)
    → p < t.next_piece
    → q < t.next_piece
    → Made t
        (with_before (alloc t) t.next_piece p ((alloc t).piece q).next off)
        (before_piece t p (t.piece q).next off ∷ [])
unfolding piece_init
before-Made t p q off h k = record {
  agree = λ j l. rw (ne→==_false j t.next_piece (omega arith));
  block = refl;
  count = refl;
  size = refl;
  next_piece = omega arith;
  filled = (ground arith, tt);
}

both-Made :
    (t : Text) (p q : Ptr) (off m : ℕ)
    → p < t.next_piece
    → q < t.next_piece
    → Made t
        (with_before (with_after (alloc t) t.next_piece q m) t.next_piece p (t.next_piece + 1) off)
        (before_piece t p (t.next_piece + 1) off ∷ after_piece t t.next_piece q m ∷ [])
unfolding piece_init
both-Made t p q off m h k = record {
  agree = λ j l.
      rw (ne→==_false j (t.next_piece + 1) (omega arith), ne→==_false j t.next_piece (omega arith));
  block = refl;
  count = refl;
  size = refl;
  next_piece = omega arith;
  filled = (ground arith, (ground arith, tt));
}

-- The piece `p`, which is cut at `off`, and the pieces `ds` behind it are replaced.
module _ (env : Env) (t : Text) (r : Ptr) (xs : List Ptr) (a p : Ptr) (ds behind : List Ptr)
    (off cur n pos : ℕ) (h : Holds t (xs ++ a ∷ ((p ∷ ds) ++ behind))) (some_bytes : 0 < off)
    (inside : off < (t.piece p).len)
    (walked : skip_pieces (t.next_piece + 1 + 1) (alloc t).piece n p ((t.piece p).len - off)
      ≡ (last_of p ds, cur))
    (sum : cur ≡ ((t.piece p).len - off) + total t.piece ds) (enough : n ≤ cur)
    (tight : cur ≤ n + (t.piece (last_of p ds)).len)
    (place : pos ≡ length (text_of t (xs ++ a ∷ [])) + off)
    (ok_all : (v : Text) → env.calloc v ≡ true) where
  more : 0 < total t.piece (p ∷ ds)
  more = omega (arith, inside)

  p_below : p < t.next_piece
  p_below = (Removal.span-Below t t xs a p ds behind h more).0

  prev_p : (t.piece p).prev ≡ a
  prev_p = (Removal.from_before t t xs a p ds behind h more).1

  p-Placed : Placed t.block t.count (t.piece p).source (t.piece p).len
  p-Placed = (span-Placed t xs a p ds behind h more).0

  front-Placed : Placed t.block t.count (t.piece p).source off
  front-Placed = Placed-front t.block t.count (t.piece p).source off (t.piece p).len inside p-Placed

  before-Filled : (next : Ptr) → Filled t (before_piece t p next off)
  before-Filled next = record { placed = front-Placed; some_bytes = some_bytes }

  kept : List ℕ
  kept = slice (t.piece p).source off t.block

  length_kept : length kept ≡ off
  unfolding kept
  length_kept = length-slice t.block t.count (t.piece p).source off front-Placed

  starts_kept :
      content t.block t.piece (p ∷ ds)
      ≡ kept
        ++ (slice (advance (t.piece p).source off) ((t.piece p).len - off) t.block
            ++ content t.block t.piece ds)
  unfolding content kept
  starts_kept =
      ap (λ z. z ++ content t.block t.piece ds)
        (slice-cut t.block (t.piece p).source off (t.piece p).len (omega (arith, inside)))
      ∙ append_assoc (slice (t.piece p).source off t.block)
          (slice (advance (t.piece p).source off) ((t.piece p).len - off) t.block)
          (content t.block t.piece ds)

  pub midway_whole :
      cur ≡ n
      → Changed
          (delete_span env t r p off n)
          (removed (text_of t (xs ++ a ∷ ((p ∷ ds) ++ behind))) pos n)
  unfolding delete_span delete_start delete_stop finish_delete new_start new_end piece_alloc
  midway_whole e =
      let q = last_of p ds in
      let u = with_before (alloc t) t.next_piece p ((alloc t).piece q).next off in
      let made = before-Made t p q off p_below (last_below t xs a p ds behind h more) in
      rw (ne→==_false off (t.piece p).len (omega (arith, inside)), ok_all t, walked, e, ==_refl n)
        (swap-Changed t xs a (p ∷ ds) behind h u r (t.next_piece ∷ []) (span_init u p q)
          (span_init u t.next_piece t.next_piece) pos n kept []
          (one-Prepared t u xs a p ds behind h more (before_piece t p (t.piece q).next off) made
            prev_p (last_next t xs a p ds behind h more) (before-Filled _))
          (unfold content kept in rw (made.block, made.filled.0))
          (record {
            behind = _;
            before = content t.block t.piece (p ∷ ds);
            at_start = starts_kept;
            at_end = sym (append-nil (content t.block t.piece (p ∷ ds)));
            start = omega (arith, place, length_kept);
            stop = omega (arith, place, sum, e, inside, length_span t xs a p ds behind h more);
          }))

  pub midway_cut :
      (cur == n) ≡ false
      → Changed
          (delete_span env t r p off n)
          (removed (text_of t (xs ++ a ∷ ((p ∷ ds) ++ behind))) pos n)
  unfolding delete_span delete_start delete_stop finish_delete new_start new_end piece_alloc
  midway_cut e =
      let q = last_of p ds in
      let some_left : 0 < cur - n = ground (arith, e, enough) in
      let le : cur - n ≤ (t.piece q).len = omega (arith, tight) in
      let u =
        with_before (with_after (alloc t) t.next_piece q (cur - n)) t.next_piece p
          (t.next_piece + 1) off in
      let made = both-Made t p q off (cur - n) p_below (last_below t xs a p ds behind h more) in
      let tail = span_Tail t xs a p ds behind h more (cur - n) some_left le in
      let d = after_piece t t.next_piece q (cur - n) in
      rw (ne→==_false off (t.piece p).len (omega (arith, inside)), ok_all t, walked, e, ok_all _)
        (swap-Changed t xs a (p ∷ ds) behind h u r (t.next_piece ∷ (t.next_piece + 1) ∷ [])
          (span_init u p q) (span_init u t.next_piece (t.next_piece + 1)) pos n kept
          (slice d.source d.len t.block)
          (two-Prepared t u xs a p ds behind h more (before_piece t p (t.next_piece + 1) off) d made
            prev_p refl refl (last_next t xs a p ds behind h more) (before-Filled _)
            (after-Filled t xs a p ds behind h more t.next_piece (cur - n) some_left le))
          (unfold content kept in rw (made.block, made.filled.0, made.filled.1.0, append-nil))
          (record {
            behind = _;
            before = tail.before;
            at_start = starts_kept;
            at_end = tail.bytes;
            start = omega (arith, place, length_kept);
            stop = omega (arith, place, sum, tail.counted, enough, inside);
          }))
