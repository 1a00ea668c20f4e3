-- ===== src/Text/State.antt =====
-- The structures of text.c. `Text` is a store: pieces, blocks and revisions live at numbered
-- addresses, with 0 for `NULL`, and a counter for each kind gives the next fresh address.
use vis.Prelude.{ℕ, ◌+◌, Bool, Option, none, some, List, [], ◌==◌, if◌then◌else◌, take, drop}

abbrev pub Ptr : Type 0
Ptr = ℕ

abbrev pub null : Ptr
null = 0

-- `&txt->begin` and `&txt->end`.
abbrev pub begin : Ptr
begin = 1

abbrev pub end : Ptr
end = 2

-- Where `data` points: nowhere, to the literal "\0", or into a block of the text.
pub data Data : Type 0 where
  no_data : Data
  literal : Data
  in_block : ℕ → ℕ → Data

-- `text` tells whether the field `text` is set: it is `NULL` in the two sentinels.
pub record Piece : Type 0 where
  pub text : Bool
  pub prev : Ptr
  pub next : Ptr
  pub source : Data
  pub len : ℕ

pub record Location : Type 0 where
  pub piece : Ptr
  pub off : ℕ

pub record Span : Type 0 where
  pub start : Ptr
  pub end : Ptr
  pub len : ℕ

pub record TextChange : Type 0 where
  pub old : Span
  pub new : Span
  pub pos : ℕ

-- `change` lists the changes from the most recent one on, along `next`.
pub record Revision : Type 0 where
  pub change : List TextChange
  pub next : Ptr
  pub prev : Ptr
  pub earlier : Ptr
  pub later : Ptr
  pub time : ℕ
  pub seq : ℕ

pub record LineCache : Type 0 where
  pub pos : ℕ
  pub lineno : ℕ

pub data BlockType : Type 0 where
  mmap_orig mmap malloc : BlockType

-- `bytes` is the used part of the block, the first `len` bytes of its memory.
pub record Block : Type 0 where
  pub size : ℕ
  pub bytes : List ℕ
  pub type : BlockType

-- The blocks stand at the indices below `count`; `none` is a `NULL` that was pushed.
pub record Text : Type 0 where
  pub block : ℕ → Option Block
  pub count : ℕ
  pub piece : Ptr → Piece
  pub next_piece : Ptr
  pub cache : Ptr
  pub revision : Ptr → Revision
  pub next_revision : Ptr
  pub history : Ptr
  pub current_revision : Ptr
  pub last_revision : Ptr
  pub saved_revision : Ptr
  pub size : ℕ
  pub lines : LineCache

-- The C library: whether the next allocation succeeds, and the clock.
pub record Env : Type 0 where
  pub calloc : Text → Bool
  pub time : Text → ℕ

-- The outcome of an operation that can fail: a result and the text after it, or only the text that
-- a failure leaves behind.
pub data Run (A : Type 0) : Type 0 where
  ok : A × Text → Run A
  failed : Text → Run A

infixl 5 ◌>>=◌
abbrev pub ◌>>=◌ : {A B : Type 0} → Run A → (A × Text → Run B) → Run B
(ok r) >>= f = f r
(failed t) >>= f = failed t

-- A store with one cell replaced.
abbrev pub update {ℓ} : {A : Type ℓ} → (ℕ → A) → ℕ → A → ℕ → A
update f p a q = if q == p then a else f q

abbrev pub set_piece : Text → Ptr → Piece → Text
set_piece t p c = record t { piece = update t.piece p c }

abbrev pub set_revision : Text → Ptr → Revision → Text
set_revision t r c = record t { revision = update t.revision r c }

abbrev pub set_block : Text → ℕ → Block → Text
set_block t i b = record t { block = update t.block i (some b) }

abbrev pub empty_span : Span
empty_span = record { start = null; end = null; len = 0 }

-- `calloc`: every field is zero.
abbrev pub new_piece : Piece
new_piece = record { text = Bool.true; prev = null; next = null; source = no_data; len = 0 }

abbrev pub new_change : ℕ → TextChange
new_change pos = record { old = empty_span; new = empty_span; pos = pos }

abbrev pub new_revision : ℕ → Revision
new_revision now = record {
  change = [];
  next = null;
  prev = null;
  earlier = null;
  later = null;
  time = now;
  seq = 0;
}

abbrev pub block_bytes : Option Block → List ℕ
block_bytes none = []
block_bytes (some b) = b.bytes

-- The bytes that a piece refers to.
abbrev pub slice : Data → ℕ → (ℕ → Option Block) → List ℕ
slice no_data n block = []
slice literal n block = []
slice (in_block i off) n block = take n (drop off (block_bytes (block i)))

-- `p->data + off`.
abbrev pub advance : Data → ℕ → Data
advance no_data off = no_data
advance literal off = literal
advance (in_block i o) off = in_block i (o + off)
