-- ===== src/Text/Cache.antt =====
-- The cache layer of text.c: edits of the most recently changed piece in place.
use vis.Prelude.{
  ℕ, zero, suc, ◌+◌, ◌-◌, Bool, true, false, Option, none, some, List, [], ◌∷◌, length, leb, ◌==◌,
  if◌then◌else◌, ◌&&◌, ◌||◌, not,
}
use vis.Text.State.{
  Ptr, null, Data, no_data, literal, in_block, Piece, Block, TextChange, Text, set_piece, set_block,
  block_bytes,
}
use vis.Text.Blocks.{addu, block_insert, block_delete, last_block}
use vis.Text.Revisions.{edit_change}

-- `p->data + p->len == blk->data + blk->len`, for the last block.
abbrev pub ends_block : Text → Data → ℕ → Bool
ends_block t no_data n = false
ends_block t literal n = false
ends_block t (in_block i off) n = i == t.count - 1 && off + n == length (block_bytes (last_block t))

abbrev pub is_none {ℓ} : {A : Type ℓ} → Option A → Bool
is_none none = true
is_none (some a) = false

unfoldable pub cache_piece : Text → Ptr → Text
cache_piece t p =
    if not (is_none (last_block t)) && ends_block t (t.piece p).source (t.piece p).len
    then record t { cache = p }
    else t

-- The walk of `cache_contains` from `cur` up to `last`, in search of `p`.
unfoldable pub span_has : ℕ → (ℕ → Piece) → (p cur last : Ptr) → Bool
span_has zero piece p cur last = false
span_has (suc k) piece p cur last =
    let rest = span_has k piece p (piece cur).next last in
    if cur == p then true else if cur == last then false else rest

unfoldable pub in_change : Text → Ptr → List TextChange → Bool
unfolding span_has
in_change t p [] = false
in_change t p (c ∷ cs) =
    span_has (t.next_piece + 1) t.piece p c.new.start c.new.end
    && ends_block t (t.piece p).source (t.piece p).len

unfoldable pub cache_contains : Text → Ptr → Bool
unfolding in_change
cache_contains t p =
    if t.count == 0 || t.cache == null || not (t.cache == p) || t.current_revision == null
    then false
    else in_change t p (t.revision t.current_revision).change

-- The new lengths of the piece, of the span that holds it and of the text.
abbrev pub grow_cached : Text → Ptr → ℕ → Text
grow_cached t p n =
    let t1 = set_piece t p (record (t.piece p) { len = (t.piece p).len + n }) in
    let t2 =
      edit_change t1 t1.current_revision
        λ c. record c { new = record (c.new) { len = c.new.len + n } } in
    record t2 { size = t.size + n }

abbrev pub shrink_cached : Text → Ptr → ℕ → Text
shrink_cached t p n =
    let t1 = set_piece t p (record (t.piece p) { len = (t.piece p).len - n }) in
    let t2 =
      edit_change t1 t1.current_revision
        λ c. record c { new = record (c.new) { len = c.new.len - n } } in
    record t2 { size = t.size - n }

-- `p->data + off - blk->data`.
abbrev pub buffer_pos : Data → ℕ → ℕ
buffer_pos no_data off = off
buffer_pos literal off = off
buffer_pos (in_block i o) off = o + off

abbrev pub bind_block : Option Block → (Block → Option Block) → Option Block
bind_block none f = none
bind_block (some b) f = f b

unfoldable pub stored_insert : Text → Ptr → ℕ → Option Block → Option Text
stored_insert t p n none = none
stored_insert t p n (some b) = some (grow_cached (set_block t (t.count - 1) b) p n)

-- `none` is the result `false`, with nothing changed.
unfoldable pub cache_insert : Text → Ptr → ℕ → List ℕ → Option Text
unfolding stored_insert
cache_insert t p off s =
    if not (cache_contains t p)
    then none
    else stored_insert t p (length s)
        (bind_block (last_block t) λ b. block_insert b (buffer_pos (t.piece p).source off) s)

unfoldable pub stored_delete : Text → Ptr → ℕ → Option Block → Option Text
stored_delete t p n none = none
stored_delete t p n (some b) = some (shrink_cached (set_block t (t.count - 1) b) p n)

-- Whether `addu(off, len, &end)` succeeds with `end` within the piece.
abbrev pub within_piece : Option ℕ → ℕ → Bool
within_piece none n = false
within_piece (some e) n = leb e n

unfoldable pub cache_delete : Text → Ptr → ℕ → ℕ → Option Text
unfolding stored_delete
cache_delete t p off n =
    if not (cache_contains t p) || not (within_piece (addu off n) (t.piece p).len)
    then none
    else stored_delete t p n
        (bind_block (last_block t) λ b. block_delete b (buffer_pos (t.piece p).source off) n)
