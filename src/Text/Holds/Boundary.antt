-- ===== src/Text/Holds/Boundary.antt =====
-- A deletion that begins at the end of a piece (`text_delete` of text.c).
use vis.Prelude.{
  ℕ, ◌+◌, ◌-◌, ◌≤◌, ◌<◌, ◌≡◌, refl, sym, List, [], ◌∷◌, ◌++◌, append-nil, length, arith, true,
  false, ◌==◌, ==_refl,
}
use vis.Prelude.Slices.{removed}
use vis.Text.State.{Ptr, null, end, Text, Env, slice}
use vis.Text.Spans.{piece_alloc, span_init}
use vis.Text.Delete.{
  delete_start, delete_stop, finish_delete, delete_span, new_start, new_end, skip_pieces,
}
use vis.Text.Chain.{Linked, last_of, total}
use vis.Text.Content.{content}
use vis.Text.Holds.Defs.{Holds, text_of}
use vis.Text.Holds.Between.{Changed}
use vis.Text.Holds.Removal
use vis.Text.Holds.Removal.{Made, Filled, none-Prepared, one-Prepared, two-Prepared}
use vis.Text.Holds.Deleted.{
  swap-Changed, with_after, after_piece, with_after-Made, unchanged-Made, last_below, last_next,
  after-Filled, length_span, span_Tail,
}

-- The pieces `s ∷ ds` behind `p` are replaced.
module _ (env : Env) (t : Text) (r : Ptr) (xs : List Ptr) (p s : Ptr) (ds behind : List Ptr)
    (cur n pos : ℕ) (h : Holds t (xs ++ p ∷ ((s ∷ ds) ++ behind))) (some_bytes : 0 < n)
    (walked : skip_pieces (t.next_piece + 1) t.piece n p 0 ≡ (last_of s ds, cur))
    (sum : cur ≡ total t.piece (s ∷ ds)) (enough : n ≤ cur)
    (tight : cur ≤ n + (t.piece (last_of s ds)).len)
    (place : pos ≡ length (text_of t (xs ++ p ∷ []))) where
  more : 0 < total t.piece (s ∷ ds)
  more = omega (arith, sum, enough)

  Linked-p : Linked t.piece (p ∷ ((s ∷ ds) ++ (behind ++ end ∷ [])))
  Linked-p = Removal.from_before t t xs p s ds behind h more

  pub boundary_whole :
      cur ≡ n
      → Changed
          (delete_span env t r p (t.piece p).len n)
          (removed (text_of t (xs ++ p ∷ ((s ∷ ds) ++ behind))) pos n)
  unfolding delete_span delete_start delete_stop finish_delete new_start new_end
  boundary_whole e =
      rw (==_refl (t.piece p).len, walked, e, ==_refl n, Linked-p.0)
        (swap-Changed t xs p (s ∷ ds) behind h t r [] (span_init t s (last_of s ds))
          (span_init t null null) pos n [] []
          (none-Prepared t t xs p s ds behind h more (unchanged-Made t)) (unfold content in refl)
          (record {
            behind = content t.block t.piece (s ∷ ds);
            before = content t.block t.piece (s ∷ ds);
            at_start = refl;
            at_end = sym (append-nil (content t.block t.piece (s ∷ ds)));
            start = omega (arith, place);
            stop = omega (arith, place, sum, e, length_span t xs p s ds behind h more);
          }))

  m : ℕ
  m = cur - n

  pub boundary_cut :
      (cur == n) ≡ false
      → env.calloc t ≡ true
      → Changed
          (delete_span env t r p (t.piece p).len n)
          (removed (text_of t (xs ++ p ∷ ((s ∷ ds) ++ behind))) pos n)
  unfolding delete_span delete_start delete_stop finish_delete new_start new_end piece_alloc m
  boundary_cut e a =
      let some_left : 0 < cur - n = ground (arith, e, enough) in
      let le : cur - n ≤ (t.piece (last_of s ds)).len = omega (arith, tight) in
      let u = with_after t p (last_of s ds) m in
      let made = with_after-Made t p (last_of s ds) m (last_below t xs p s ds behind h more) in
      let tail = span_Tail t xs p s ds behind h more m some_left le in
      let c = after_piece t p (last_of s ds) m in
      rw (==_refl (t.piece p).len, walked, e, a, Linked-p.0)
        (swap-Changed t xs p (s ∷ ds) behind h u r (t.next_piece ∷ [])
          (span_init u s (last_of s ds)) (span_init u t.next_piece t.next_piece) pos n []
          (slice c.source c.len t.block)
          (one-Prepared t u xs p s ds behind h more c made refl
            (last_next t xs p s ds behind h more)
            (after-Filled t xs p s ds behind h more p m some_left le))
          (unfold content in rw (made.block, made.filled.0, append-nil))
          (record {
            behind = content t.block t.piece (s ∷ ds);
            before = tail.before;
            at_start = refl;
            at_end = tail.bytes;
            start = omega (arith, place);
            stop = omega (arith, place, sum, tail.counted, enough);
          }))
