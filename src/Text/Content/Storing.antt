-- ===== src/Text/Content/Storing.antt =====
-- What `block_store` of text.c does to the blocks.
use vis.Prelude.{
  ℕ, ◌+◌, ◌-◌, ◌<◌, ◌≡◌, refl, sym, ap, ◌∙◌, append_assoc, true, false, Option, none, some, List,
  [], ◌++◌, append-nil, length, take, drop, length-append, take_all, drop-append_length, arith,
  Bool-cases, inl, inr, ◌==◌, ==_iff, ==_refl,
}
use vis.Text.State.{Run, ok, Data, in_block, Block, Text, Env, slice, update}
use vis.Text.Blocks.{
  block_append, block_alloc, block_capacity, store_in, store_new, store_fit, block_store,
  last_block,
}
use vis.Text.Content.{Blocks, Placed, Extends}

-- The bytes `s` are stored at `source`, and nothing but the blocks has changed.
pub record Stored (t : Text) (s : List ℕ) (r : Run Data) : Type 0 where
  pub block : Blocks
  pub count : ℕ
  pub source : Data
  pub result : r ≡ ok (source, record t { block = block; count = count })
  pub extends : Extends t.block t.count block count
  pub placed : Placed block count source (length s)
  pub holds : slice source (length s) block ≡ s

append_slice : (xs s : List ℕ) → take (length s) (drop (length xs) (xs ++ s)) ≡ s
append_slice xs s = rw (drop-append_length, take_all (length s) s (omega arith))

pub Extends-trans :
    {b1 b2 b3 : Blocks} {c1 c2 c3 : ℕ}
    → Extends b1 c1 b2 c2
    → Extends b2 c2 b3 c3
    → Extends b1 c1 b3 c3
Extends-trans x y = record {
  counts = omega (arith, x.counts, y.counts);
  added = λ i h.
      let (s, e) = x.added i h in
      let (s', e') = y.added i (omega (arith, x.counts)) in
      (s ++ s', e' ∙ ap (λ l. l ++ s') e ∙ append_assoc _ s s');
}

pub Extends-refl : (b : Blocks) (c : ℕ) → Extends b c b c
Extends-refl b c = record { counts = omega arith; added = λ i h. ([], sym (append-nil _)) }

-- The last block, `b`, with `s` behind its bytes.
grown-Extends :
    (block : Blocks) (count last : ℕ) (b : Block) (s : List ℕ)
    → block last ≡ some b
    → Extends block count (update block last (some (record b { bytes = b.bytes ++ s }))) count
grown-Extends block count last b s e = record {
  counts = omega arith;
  added = λ i h. elim (Bool-cases (i == last)) [
    | inl k ↦ (s, rw (k, ap block ((==_iff i last).0 k) ∙ e))
    | inr k ↦ ([], rw k (sym (append-nil _)))
  ];
}

-- In the last block, which is `b`.
pub store_in-Stored :
    (t : Text) (b : Block) (s : List ℕ)
    → 0 < t.count
    → t.block (t.count - 1) ≡ some b
    → Stored t s (ok (store_in t b s))
unfolding store_in block_append
store_in-Stored t b s h e = record {
  block = update t.block (t.count - 1) (some (record b { bytes = b.bytes ++ s }));
  count = t.count;
  source = in_block (t.count - 1) (length b.bytes);
  result = refl;
  extends = grown-Extends t.block t.count (t.count - 1) b s e;
  placed = (omega arith, rw (==_refl (t.count - 1), length-append) (omega arith));
  holds = rw (==_refl (t.count - 1)) (append_slice b.bytes s);
}

-- A block pushed behind the others.
pushed-Extends :
    (block : Blocks) (count : ℕ) (b : Block)
    → Extends block count (update block count (some b)) (count + 1)
pushed-Extends block count b = record {
  counts = omega arith;
  added = λ i h. let ne : (i == count) ≡ false = ground arith in ([], rw ne (sym (append-nil _)));
}

pub store_new-Stored : (t : Text) (b : Block) (s : List ℕ) → Stored t s (store_new t (some b) s)
unfolding store_new
store_new-Stored t b s =
    let t1 : Text = record t { block = update t.block t.count (some b); count = t.count + 1 } in
    let last : t1.count - 1 ≡ t.count = omega arith in
    let r = store_in-Stored t1 b s (omega arith) (rw (last, ==_refl t.count)) in
    record {
      block = r.block;
      count = r.count;
      source = r.source;
      result = r.result;
      extends = Extends-trans (pushed-Extends t.block t.count b) r.extends;
      placed = r.placed;
      holds = r.holds;
    }

-- What a fresh allocation gives, when it succeeds.
fresh-Stored :
    (env : Env) (t : Text) (s : List ℕ)
    → env.calloc t ≡ true
    → Stored t s (store_new t (block_alloc env t (length s)) s)
unfolding block_alloc
fresh-Stored env t s a = rw a (store_new-Stored t _ s)

pub last_block-some :
    (t : Text) (b : Block)
    → last_block t ≡ some b
    → (0 < t.count) × (t.block (t.count - 1) ≡ some b)
last_block-some t b e = ground (arith, e)

store_fit-Stored :
    (env : Env) (t : Text) (s : List ℕ) (o : Option Block)
    → env.calloc t ≡ true
    → last_block t ≡ o
    → Stored t s (store_fit env t o s)
unfolding store_fit
store_fit-Stored env t s none a e = fresh-Stored env t s a
store_fit-Stored env t s (some b) a e = elim (Bool-cases (block_capacity b (length s))) [
  | inl fits ↦ let at = last_block-some t b e in rw fits (store_in-Stored t b s at.0 at.1)
  | inr full ↦ rw full (fresh-Stored env t s a)
]

-- Wherever the bytes go, nothing else changes.
pub block_store-Stored :
    (env : Env) (t : Text) (s : List ℕ) → env.calloc t ≡ true → Stored t s (block_store env t s)
unfolding block_store
block_store-Stored env t s a = store_fit-Stored env t s (last_block t) a refl
