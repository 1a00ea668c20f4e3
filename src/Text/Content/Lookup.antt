-- ===== src/Text/Content/Lookup.antt =====
-- What `piece_get_intern` of text.c finds at a position.
use vis.Prelude.{All, ne→==_false, le→leb, leb→le, leb_false→lt}
use vis.Prelude.{
  ℕ, zero, suc, ◌+◌, ◌-◌, ◌≤◌, ◌<◌, ◌≡◌, ◌≢◌, refl, ap, sym, ◌∙◌, List, [], ◌∷◌, ◌++◌, length,
  arith, Bool-cases, inl, inr, leb,
}
use native.Mathlib.Numerals.{add-one}
use vis.Text.State.{Ptr, null, end, begin, Location, Text}
use vis.Text.Spans.{get_intern, piece_get_intern}
use vis.Text.Chain.{Store, Linked, total}

-- The piece of `l` that holds position `pos`, if the first one begins at `cur`.
pub record Found (h : Store) (l : List Ptr) (cur pos : ℕ) (loc : Location) : Type 0 where
  pub front : List Ptr
  pub behind : List Ptr
  pub split : l ≡ front ++ loc.piece ∷ behind
  pub place : pos ≡ cur + total h front + loc.off
  pub within : loc.off ≤ (h loc.piece).len
  pub positive : cur < pos → 0 < loc.off

-- No piece of the list is `NULL`.
abbrev pub NonNull : List Ptr → Type 0
NonNull l = All (λ p. p ≢ null) l

pub next-ne-null :
    (h : Store) (p : Ptr) (l : List Ptr)
    → Linked h (p ∷ (l ++ end ∷ []))
    → NonNull l
    → (h p).next ≢ null
next-ne-null h p [] k n e = absurd (omega (arith, k.0, e))
next-ne-null h p (q ∷ l) k n e = n.0 (sym k.0 ∙ e)

-- The piece is `p` itself.
Found-here :
    (h : Store) (p : Ptr) (l : List Ptr) (cur pos : ℕ)
    → cur ≤ pos
    → pos ≤ cur + (h p).len
    → Found h (p ∷ l) cur pos (record { piece = p; off = pos - cur })
Found-here h p l cur pos lo hi = record {
  front = [];
  behind = l;
  split = refl;
  place = omega arith;
  within = omega arith;
  positive = λ m. omega arith;
}

-- It lies further on.
Found-later :
    {h : Store} {l : List Ptr} {cur pos : ℕ} {loc : Location} (p : Ptr)
    → cur + (h p).len < pos
    → Found h l (cur + (h p).len) pos loc
    → Found h (p ∷ l) cur pos loc
Found-later p lo f = record {
  front = p ∷ f.front;
  behind = f.behind;
  split = ap (λ r. p ∷ r) f.split;
  place = omega (arith, f.place);
  within = f.within;
  positive = λ m. f.positive lo;
}

get_intern-Found :
    (k : ℕ) (h : Store) (pos : ℕ) (p : Ptr) (l : List Ptr) (cur : ℕ)
    → Linked h (p ∷ (l ++ end ∷ []))
    → NonNull l
    → cur ≤ pos
    → pos ≤ cur + total h (p ∷ l)
    → length l < k
    → Found h (p ∷ l) cur pos (get_intern k h pos p cur)
unfolding get_intern
get_intern-Found zero h pos p l cur c n lo hi f = absurd (omega arith)
get_intern-Found (suc k) h pos p [] cur c n lo hi f =
    rw
      (
        ne→==_false _ null (next-ne-null h p [] c n),
        le→leb cur pos lo,
        le→leb pos (cur + (h p).len) (omega arith),
      )
      (Found-here h p [] cur pos lo (omega arith))
get_intern-Found (suc k) h pos p (q ∷ l) cur c n lo hi f =
    elim (Bool-cases (leb pos (cur + (h p).len))) [
      | inl here ↦
          rw (ne→==_false _ null (next-ne-null h p (q ∷ l) c n), le→leb cur pos lo, here)
            (Found-here h p (q ∷ l) cur pos lo (leb→le _ _ here))
      | inr later ↦
          let past = leb_false→lt pos (cur + (h p).len) later in
          rw (ne→==_false _ null (next-ne-null h p (q ∷ l) c n), le→leb cur pos lo, later, c.0)
            (Found-later p past (
              get_intern-Found k h pos q l (cur + (h p).len) c.2 n.1 (omega arith) (omega arith)
                (omega arith)))
    ]

-- A position within the text is found in the chain, at the end of a piece rather than at the
-- beginning of the next one.
pub piece_get_intern-Found :
    (t : Text) (ps : List Ptr) (pos : ℕ)
    → Linked t.piece (begin ∷ (ps ++ end ∷ []))
    → NonNull ps
    → pos ≤ total t.piece (begin ∷ ps)
    → length ps ≤ t.next_piece
    → Found t.piece (begin ∷ ps) 0 pos (piece_get_intern t pos)
unfolding piece_get_intern
piece_get_intern-Found t ps pos c n hi f = rw add-one (
    get_intern-Found (suc t.next_piece) t.piece pos begin ps 0 c n (omega arith) (omega arith)
      (omega arith))
