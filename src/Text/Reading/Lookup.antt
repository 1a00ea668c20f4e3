-- ===== src/Text/Reading/Lookup.antt =====
-- What `piece_get_extern` of text.c finds at the position of a byte.
use vis.Prelude.{
  ℕ, zero, suc, ◌+◌, ◌≤◌, ◌<◌, ◌≡◌, refl, ap, List, [], ◌∷◌, ◌++◌, length, arith, Bool-cases, inl,
  inr, ltb, ne→==_false, le→leb, lt→ltb,
}
use native.Mathlib.Numerals.{add-one}
use vis.Text.State.{Ptr, null, end, begin, Location, Text}
use vis.Text.Spans.{get_extern, piece_get_extern}
use vis.Text.Chain.{Store, Linked, total}
use vis.Text.Content.Lookup.{NonNull, next-ne-null}
use vis.Text.Holds.Defs.{Holds}

-- The piece of `l` that holds the byte at `pos`, if the first one begins at `cur`.
pub record Reached (h : Store) (l : List Ptr) (cur pos : ℕ) (loc : Location) : Type 0 where
  pub front : List Ptr
  pub behind : List Ptr
  pub split : l ≡ front ++ loc.piece ∷ behind
  pub place : pos ≡ cur + total h front + loc.off
  pub within : loc.off < (h loc.piece).len

get_extern-Reached :
    (k : ℕ) (h : Store) (pos : ℕ) (p : Ptr) (l : List Ptr) (cur : ℕ)
    → Linked h (p ∷ (l ++ end ∷ []))
    → NonNull l
    → cur ≤ pos
    → pos < cur + total h (p ∷ l)
    → length l < k
    → Reached h (p ∷ l) cur pos (get_extern k h pos p cur)
unfolding get_extern
get_extern-Reached zero h pos p l cur c n lo hi f = absurd (omega arith)
get_extern-Reached (suc k) h pos p [] cur c n lo hi f =
    rw
      (
        ne→==_false _ null (next-ne-null h p [] c n),
        le→leb cur pos lo,
        lt→ltb pos (cur + (h p).len) (omega arith),
      )
      (record { front = []; behind = []; split = refl; place = omega arith; within = omega arith })
get_extern-Reached (suc k) h pos p (q ∷ l) cur c n lo hi f =
    elim (Bool-cases (ltb pos (cur + (h p).len))) [
      | inl here ↦
          rw (ne→==_false _ null (next-ne-null h p (q ∷ l) c n), le→leb cur pos lo, here)
            (record {
              front = [];
              behind = q ∷ l;
              split = refl;
              place = omega arith;
              within = ground (arith, here);
            })
      | inr later ↦
          let past : cur + (h p).len ≤ pos = ground (arith, later) in
          let r =
            get_extern-Reached k h pos q l (cur + (h p).len) c.2 n.1 past (omega arith)
              (omega arith) in
          rw (ne→==_false _ null (next-ne-null h p (q ∷ l) c n), le→leb cur pos lo, later, c.0)
            (record {
              front = p ∷ r.front;
              behind = r.behind;
              split = ap (λ s. p ∷ s) r.split;
              place = omega (arith, r.place);
              within = r.within;
            })
    ]

-- In a text that satisfies the invariant, every byte is found in a piece behind the first sentinel;
-- the lengths of the pieces before it and the offset add up to the position.
pub piece_get_extern-Reached :
    (t : Text) (ps : List Ptr) (pos : ℕ)
    → Holds t (begin ∷ ps)
    → pos < t.size
    → Reached t.piece ps 0 pos (piece_get_extern t pos)
unfolding piece_get_extern
piece_get_extern-Reached t [] pos h k = absurd (omega (arith, h.sized, h.begin_len))
piece_get_extern-Reached t (p ∷ ps) pos h k =
    rw (add-one, h.linked.0)
      (get_extern-Reached (suc t.next_piece) t.piece pos p ps 0 h.linked.2 h.nonnull.1.1
        (omega arith) (omega (arith, h.sized, h.begin_len)) (omega (arith, h.fuel)))
