-- ===== src/Text/Content.antt =====
-- The bytes that a chain of pieces stands for, and what keeps them: blocks only grow.
pub mod Storing
pub mod Sizes
pub mod Lookup
use vis.Prelude.{
  All, ℕ, ◌+◌, ◌-◌, ◌≤◌, ◌<◌, ◌≡◌, refl, ap, ◌∙◌, Option, none, some, List, [], ◌∷◌, ◌++◌,
  append_assoc, length, take, drop, length-append, length-take, length-drop, drop-append_left,
  take-append_left, arith,
}
use vis.Text.State.{Ptr, Data, no_data, literal, in_block, Piece, Block, block_bytes, slice}
use vis.Text.Chain.{Store, total}

abbrev pub Blocks : Type 0
Blocks = ℕ → Option Block

-- `n` bytes at `d` lie within a block below `count`; where there is no block there are none.
abbrev pub Placed : Blocks → ℕ → Data → ℕ → Type 0
Placed block count no_data n = n ≡ 0
Placed block count literal n = n ≡ 0
Placed block count (in_block i off) n = (i < count) × (off + n ≤ length (block_bytes (block i)))

abbrev pub AllPlaced : Blocks → ℕ → Store → List Ptr → Type 0
AllPlaced block count h l = All (λ p. Placed block count (h p).source (h p).len) l

-- The bytes of the pieces, in order.
unfoldable pub content : Blocks → Store → List Ptr → List ℕ
content block h [] = []
content block h (p ∷ l) = slice (h p).source (h p).len block ++ content block h l

-- The blocks of `block` are there in `block'`, with bytes added behind their own.
pub record Extends (block : Blocks) (count : ℕ) (block' : Blocks) (count' : ℕ) : Type 0 where
  pub counts : count ≤ count'
  pub added :
      (i : ℕ) → i < count → (s : List ℕ) × (block_bytes (block' i) ≡ block_bytes (block i) ++ s)

pub length-slice :
    (block : Blocks) (count : ℕ) (d : Data) (n : ℕ)
    → Placed block count d n
    → length (slice d n block) ≡ n
length-slice block count no_data n h = omega arith
length-slice block count literal n h = omega arith
length-slice block count (in_block i off) n h = rw (length-take, length-drop) (omega arith)

pub length-content :
    (block : Blocks) (count : ℕ) (h : Store) (l : List Ptr)
    → AllPlaced block count h l
    → length (content block h l) ≡ total h l
unfolding content
length-content block count h [] a = refl
length-content block count h (p ∷ l) a = rw (
  length-append,
  length-slice block count (h p).source (h p).len a.0,
  length-content block count h l a.1,
)

pub content-append :
    (block : Blocks) (h : Store) (xs ys : List Ptr)
    → content block h (xs ++ ys) ≡ content block h xs ++ content block h ys
unfolding content
content-append block h [] ys = refl
content-append block h (x ∷ xs) ys = rw (content-append block h xs ys, append_assoc)

-- The first `n` bytes behind `off` do not see what is added behind them.
take-drop-append :
    (off n : ℕ) (xs s : List ℕ)
    → off + n ≤ length xs
    → take n (drop off (xs ++ s)) ≡ take n (drop off xs)
take-drop-append off n xs s h =
    rw (drop-append_left off xs s (omega arith))
      (take-append_left n (drop off xs) s (rw length-drop (omega arith)))

module _ {block block' : Blocks} {count count' : ℕ} (x : Extends block count block' count') where
  pub Placed-Extends : (d : Data) (n : ℕ) → Placed block count d n → Placed block' count' d n
  Placed-Extends no_data n h = h
  Placed-Extends literal n h = h
  Placed-Extends (in_block i off) n h =
      let (s, e) = x.added i h.0 in
      (omega (arith, x.counts, h.0), rw (e, length-append) (omega (arith, h.1)))

  pub slice-Extends :
      (d : Data) (n : ℕ) → Placed block count d n → slice d n block' ≡ slice d n block
  slice-Extends no_data n h = refl
  slice-Extends literal n h = refl
  slice-Extends (in_block i off) n h =
      let (s, e) = x.added i h.0 in rw e (take-drop-append off n (block_bytes (block i)) s h.1)

  pub AllPlaced-Extends :
      (h : Store) (l : List Ptr) → AllPlaced block count h l → AllPlaced block' count' h l
  AllPlaced-Extends h [] a = tt
  AllPlaced-Extends h (p ∷ l) a =
      (Placed-Extends (h p).source (h p).len a.0, AllPlaced-Extends h l a.1)

  pub content-Extends :
      (h : Store) (l : List Ptr)
      → AllPlaced block count h l
      → content block' h l ≡ content block h l
  unfolding content
  content-Extends h [] a = refl
  content-Extends h (p ∷ l) a =
      rw (slice-Extends (h p).source (h p).len a.0, content-Extends h l a.1)
