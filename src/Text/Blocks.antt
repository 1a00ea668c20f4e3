-- ===== src/Text/Blocks.antt =====
-- Blocks of bytes (text-io.c, `block_*`) and `block_store` of text.c.
use vis.Prelude.{
  ℕ, ◌+◌, ◌-◌, ◌^◌, Bool, Option, none, some, List, ◌++◌, length, take, drop, leb, ltb, ◌==◌,
  if◌then◌else◌, ◌||◌, not, [],
}
use vis.Text.State.{Run, ok, failed, Text, Block, malloc, Env, Data, in_block, set_block, update}

abbrev pub size_mod : ℕ
size_mod = 2 ^ 64

-- `addu`: the sum, if it fits a `size_t`.
unfoldable pub addu : ℕ → ℕ → Option ℕ
addu a b = if ltb (size_mod - 1 - a) b then none else some (a + b)

abbrev pub block_size : ℕ
block_size = 2 ^ 20

unfoldable pub block_alloc : Env → Text → ℕ → Option Block
block_alloc env t size =
    if env.calloc t
    then some (record {
      size = if ltb size block_size then block_size else size;
      bytes = [];
      type = malloc;
    })
    else none

unfoldable pub block_capacity : Block → ℕ → Bool
block_capacity b n = leb n (b.size - length b.bytes)

-- As in the source, the size of the block is not looked at here.
unfoldable pub block_append : Block → List ℕ → Block
block_append b s = record b { bytes = b.bytes ++ s }

unfoldable pub block_insert : Block → ℕ → List ℕ → Option Block
unfolding block_capacity block_append
block_insert b pos s =
    if ltb (length b.bytes) pos || not (block_capacity b (length s))
    then none
    else if length b.bytes == pos
    then some (block_append b s)
    else some (record b { bytes = take pos b.bytes ++ s ++ drop pos b.bytes })

-- The bytes from `end` on moved down to `pos`.
unfoldable pub block_cut : Block → ℕ → ℕ → Option ℕ → Option Block
block_cut b pos n none = none
block_cut b pos n (some e) =
    if ltb (length b.bytes) e
    then none
    else if length b.bytes == pos
    then some (record b { bytes = take (length b.bytes - n) b.bytes })
    else some (record b { bytes = take pos b.bytes ++ drop (pos + n) b.bytes })

unfoldable pub block_delete : Block → ℕ → ℕ → Option Block
unfolding block_cut addu
block_delete b pos n = block_cut b pos n (addu pos n)

-- `txt->count > 0 ? txt->data[txt->count - 1] : 0`.
abbrev pub last_block : Text → Option Block
last_block t = if t.count == 0 then none else t.block (t.count - 1)

-- A stored chunk: its address and the text after it. `store_in b` appends to block `b`, the last.
unfoldable pub store_in : Text → Block → List ℕ → Data × Text
unfolding block_append
store_in t b s =
    (in_block (t.count - 1) (length b.bytes), set_block t (t.count - 1) (block_append b s))

unfoldable pub store_new : Text → Option Block → List ℕ → Run Data
unfolding store_in
store_new t none s = failed t
store_new t (some b) s =
    ok (store_in (record t { block = update t.block t.count (some b); count = t.count + 1 }) b s)

unfoldable pub store_fit : Env → Text → Option Block → List ℕ → Run Data
unfolding store_new store_in block_alloc block_capacity
store_fit env t none s = store_new t (block_alloc env t (length s)) s
store_fit env t (some b) s =
    if block_capacity b (length s)
    then ok (store_in t b s)
    else store_new t (block_alloc env t (length s)) s

unfoldable pub block_store : Env → Text → List ℕ → Run Data
unfolding store_fit
block_store env t s = store_fit env t (last_block t) s
