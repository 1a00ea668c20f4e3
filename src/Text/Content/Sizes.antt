-- ===== src/Text/Content/Sizes.antt =====
-- `block_store` of text.c and the memory of the blocks.
use vis.Prelude.{ℕ, ◌≤◌, ◌<◌, Option, none, some, List, length}
use vis.Text.State.{Run, ok, failed, Data, Block, Text}
use vis.Text.Content.Storing.{Stored}

-- The bytes in use lie within the memory of the block.
abbrev pub FitsSize : Option Block → Type 0
FitsSize none = Unit
FitsSize (some b) = length b.bytes ≤ b.size

abbrev pub AllFit : Text → Type 0
AllFit t = (i : ℕ) → i < t.count → FitsSize (t.block i)

abbrev RunFits : Run Data → Type 0
RunFits (ok (d, t)) = AllFit t
RunFits (failed t) = AllFit t

-- The bytes are stored, and every block has the memory for the bytes that it holds.
pub record StoredWithin (t : Text) (s : List ℕ) (r : Run Data) : Type 0 where
  pub stored : Stored t s r
  pub within : AllFit (record t { block = stored.block; count = stored.count })
