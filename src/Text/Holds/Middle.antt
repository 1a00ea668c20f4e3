-- ===== src/Text/Holds/Middle.antt =====
-- `insert_middle`: three new pieces in place of one.
use vis.Prelude.{
  ℕ, suc, ◌+◌, ◌-◌, ◌≤◌, ◌<◌, ◌≡◌, ◌≢◌, refl, ap, ◌∙◌, List, [], ◌∷◌, ◌++◌, arith, ==_refl,
  ne→==_false, true, take, drop, take_split, drop-drop,
}
use native.Mathlib.Numerals.{add-one}
use vis.Text.State.{
  Ptr, null, Text, Data, no_data, literal, in_block, update, new_piece, block_bytes, slice, advance,
}
use vis.Text.Spans.{piece_init, span_init, span_length}
use vis.Text.Chain.{Store, total}
use vis.Text.Chain.Apart.{AgreeBelow}
use vis.Text.Chain.Swap.{SpanIs}
use vis.Text.Content.{Placed, Blocks}

-- The text after the three allocations.
abbrev pub alloc_three : Text → Text
alloc_three t = record t {
  piece =
      update (update (update t.piece t.next_piece new_piece) (t.next_piece + 1) new_piece)
        (t.next_piece + 1 + 1) new_piece;
  next_piece = t.next_piece + 1 + 1 + 1;
}

-- The same with the three pieces initialised.
unfoldable pub with_three : Text → Ptr → ℕ → Data → ℕ → Text
with_three t p off source n =
    let t0 : Text = alloc_three t in
    let t1 =
      piece_init t0 t.next_piece (t0.piece p).prev (t.next_piece + 1) (t0.piece p).source off in
    let t2 = piece_init t1 (t.next_piece + 1) t.next_piece (t.next_piece + 1 + 1) source n in
    piece_init t2 (t.next_piece + 1 + 1) (t.next_piece + 1) (t2.piece p).next
      (advance (t2.piece p).source off) ((t2.piece p).len - off)

span_length-three :
    (k : ℕ) (g : Store) (b m c : Ptr)
    → b ≢ null
    → m ≢ null
    → c ≢ null
    → b ≢ c
    → m ≢ c
    → (g b).next ≡ m
    → (g m).next ≡ c
    → span_length (suc (suc (suc k))) g b c ≡ total g (b ∷ m ∷ c ∷ [])
unfolding span_length
span_length-three k g b m c nb nm nc bc mc e1 e2 =
    rw
      (
        ne→==_false b null nb,
        ne→==_false b c bc,
        e1,
        ne→==_false m null nm,
        ne→==_false m c mc,
        e2,
        ne→==_false c null nc,
        ==_refl c,
      )
      (omega arith)

-- The span of three pieces.
pub span_init-three :
    (u : Text) (b m c : Ptr) (k : ℕ)
    → u.next_piece ≡ suc (suc k)
    → b ≢ null
    → m ≢ null
    → c ≢ null
    → b ≢ c
    → m ≢ c
    → (u.piece b).next ≡ m
    → (u.piece m).next ≡ c
    → 0 < total u.piece (b ∷ m ∷ c ∷ [])
    → SpanIs u.piece (span_init u b c) (b ∷ m ∷ c ∷ [])
unfolding span_init
span_init-three u b m c k e nb nm nc bc mc e1 e2 h =
    let counted =
      ap (λ z. span_length z u.piece b c) (add-one u.next_piece ∙ ap suc e)
      ∙ span_length-three k u.piece b m c nb nm nc bc mc e1 e2 in
    record { counted = counted; ends = (refl, refl, omega (arith, counted)) }

-- A place and the place `off` bytes further on.
pub Placed-front :
    (block : Blocks) (count : ℕ) (d : Data) (off n : ℕ)
    → off < n
    → Placed block count d n
    → Placed block count d off
Placed-front block count no_data off n h k = omega arith
Placed-front block count literal off n h k = omega arith
Placed-front block count (in_block i o) off n h k = (k.0, omega (arith, k.1))

pub Placed-advance :
    (block : Blocks) (count : ℕ) (d : Data) (off n : ℕ)
    → off < n
    → Placed block count d n
    → Placed block count (advance d off) (n - off)
Placed-advance block count no_data off n h k = omega arith
Placed-advance block count literal off n h k = omega arith
Placed-advance block count (in_block i o) off n h k = (k.0, omega (arith, k.1))

-- The bytes of a piece, cut at `off`.
pub slice-cut :
    (block : Blocks) (d : Data) (off n : ℕ)
    → off ≤ n
    → slice d n block ≡ slice d off block ++ slice (advance d off) (n - off) block
slice-cut block no_data off n h = refl
slice-cut block literal off n h = refl
slice-cut block (in_block i o) off n h =
    take_split off n (drop o (block_bytes (block i))) h
    ∙ ap (λ z. take off (drop o (block_bytes (block i))) ++ take (n - off) z)
        (drop-drop off o (block_bytes (block i)))

module _ (t : Text) (p : Ptr) (off : ℕ) (source : Data) (n : ℕ) where
  three-agree : AgreeBelow t.next_piece t.piece (with_three t p off source n).piece
  unfolding with_three piece_init
  three-agree q h = rw (
    ne→==_false q (t.next_piece + 1 + 1) (omega arith),
    ne→==_false q (t.next_piece + 1) (omega arith),
    ne→==_false q t.next_piece (omega arith),
  )

  module _ (h : p < t.next_piece) where
    cell_before : (with_three t p off source n).piece t.next_piece ≡ record {
      text = true;
      prev = (t.piece p).prev;
      next = t.next_piece + 1;
      source = (t.piece p).source;
      len = off;
    }
    unfolding with_three piece_init
    cell_before = ground arith

    cell_new : (with_three t p off source n).piece (t.next_piece + 1) ≡ record {
      text = true;
      prev = t.next_piece;
      next = t.next_piece + 1 + 1;
      source = source;
      len = n;
    }
    unfolding with_three piece_init
    cell_new = ground arith

    cell_after : (with_three t p off source n).piece (t.next_piece + 1 + 1) ≡ record {
      text = true;
      prev = t.next_piece + 1;
      next = (t.piece p).next;
      source = advance (t.piece p).source off;
      len = (t.piece p).len - off;
    }
    unfolding with_three piece_init
    cell_after = ground arith

-- `u` is the text `t` with the three pieces that replace `p` made ready.
pub record Three (t u : Text) (p : Ptr) (off : ℕ) (source : Data) (n : ℕ) : Type 0 where
  pub agree : AgreeBelow t.next_piece t.piece u.piece
  pub block : u.block ≡ t.block
  pub count : u.count ≡ t.count
  pub size : u.size ≡ t.size
  pub next_piece : u.next_piece ≡ t.next_piece + 1 + 1 + 1
  pub before : u.piece t.next_piece ≡ record {
    text = true;
    prev = (t.piece p).prev;
    next = t.next_piece + 1;
    source = (t.piece p).source;
    len = off;
  }
  pub middle : u.piece (t.next_piece + 1) ≡ record {
    text = true;
    prev = t.next_piece;
    next = t.next_piece + 1 + 1;
    source = source;
    len = n;
  }
  pub after : u.piece (t.next_piece + 1 + 1) ≡ record {
    text = true;
    prev = t.next_piece + 1;
    next = (t.piece p).next;
    source = advance (t.piece p).source off;
    len = (t.piece p).len - off;
  }

pub with_three-Three :
    (t : Text) (p : Ptr) (off : ℕ) (source : Data) (n : ℕ)
    → p < t.next_piece
    → Three t (with_three t p off source n) p off source n
unfolding with_three piece_init
with_three-Three t p off source n h = record {
  agree = three-agree t p off source n;
  block = refl;
  count = refl;
  size = refl;
  next_piece = refl;
  before = cell_before t p off source n h;
  middle = cell_new t p off source n h;
  after = cell_after t p off source n h;
}

abbrev pub three : ℕ → List Ptr
three m = m ∷ (m + 1) ∷ (m + 1 + 1) ∷ []
