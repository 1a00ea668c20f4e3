-- ===== src/Text/Holds/Defs.antt =====
-- The invariant of the piece table: which chain of pieces a text holds.
use vis.Prelude.{ℕ, ◌≤◌, ◌≡◌, List, [], ◌∷◌, ◌++◌, length}
use vis.Text.State.{Ptr, null, begin, end, Text}
use vis.Text.Chain.{Linked, Distinct, total}
use vis.Text.Chain.Apart.{Below}
use vis.Text.Content.{AllPlaced, content}
use vis.Text.Content.Lookup.{NonNull}

abbrev pub StartsAt : Ptr → List Ptr → Type 0
StartsAt p [] = ⊥
StartsAt p (q ∷ l) = q ≡ p

-- `l` is the chain from `begin` up to, and without, `end`. Its pieces are distinct, allocated, and
-- refer to bytes within the blocks; `size` is the sum of their lengths.
pub record Holds (t : Text) (l : List Ptr) : Type 0 where
  pub starts : StartsAt begin l
  pub linked : Linked t.piece (l ++ end ∷ [])
  pub end_next : (t.piece end).next ≡ null
  pub distinct : Distinct (l ++ end ∷ [])
  pub nonnull : NonNull l
  pub below : Below t.next_piece (l ++ end ∷ [])
  pub begin_len : (t.piece begin).len ≡ 0
  pub placed : AllPlaced t.block t.count t.piece l
  pub sized : t.size ≡ total t.piece l
  pub fuel : length l ≤ t.next_piece

-- The bytes of the text.
abbrev pub text_of : Text → List Ptr → List ℕ
text_of t l = content t.block t.piece l
