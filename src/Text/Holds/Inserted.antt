-- ===== src/Text/Holds/Inserted.antt =====
-- `text_insert` on a text without a cached piece, from the arguments to the new content.
use vis.Prelude.{
  subst, ℕ, ◌+◌, ◌≤◌, ◌<◌, ◌≡◌, ◌≢◌, refl, sym, ap, ◌∙◌, List, [], ◌∷◌, ◌++◌, length, arith,
  ne→==_false, true, All-right, none, le→ltb_false, append-nil, take-append-drop,
}
use vis.Prelude.Slices.{inserted}
use vis.Text.State.{Ptr, null, end, Text, Env}
use vis.Text.Spans.{piece_get_intern}
use vis.Text.Cache.{cache_insert, cache_contains}
use vis.Text.Insert.{insert_change, insert_uncached, insert_at, text_insert, invalidate_before}
use vis.Text.Chain.{total, Linked}
use vis.Text.Content.{Blocks, Extends, AllPlaced-Extends, content-Extends}
use vis.Text.Content.Storing.{block_store-Stored}
use vis.Text.Content.Lookup.{Found, piece_get_intern-Found, NonNull}
use vis.Text.Holds.Defs.{Holds, text_of}
use vis.Text.Holds.Frame.{
  Holds-SamePieces, text_of-SamePieces, text_change_alloc-Allocated, SamePieces-invalidate_before,
}
use vis.Text.Holds.Between.{Changed}
use vis.Text.Holds.Insertion.{insert_stored-Changed, Changed-text}

-- Blocks that only grow keep the invariant and the content.
Holds-Extends :
    (t : Text) (l : List Ptr) (block : Blocks) (count : ℕ)
    → Extends t.block t.count block count
    → Holds t l
    → Holds (record t { block = block; count = count }) l
Holds-Extends t l block count x h = record {
  starts = h.starts;
  linked = h.linked;
  end_next = h.end_next;
  distinct = h.distinct;
  nonnull = h.nonnull;
  below = h.below;
  begin_len = h.begin_len;
  placed = AllPlaced-Extends x t.piece l h.placed;
  sized = h.sized;
  fuel = h.fuel;
}

-- In a text that satisfies the invariant, every position within the text, its end included, is found
-- in a piece of the chain; the lengths of the pieces before it and the offset add up to the
-- position, and the offset is positive unless the position is 0.
pub lookup-Found :
    (t : Text) (l : List Ptr) (pos : ℕ)
    → Holds t l
    → pos ≤ t.size
    → Found t.piece l 0 pos (piece_get_intern t pos)
lookup-Found t [] pos h k = absurd h.starts
lookup-Found t (p ∷ ps) pos h k =
    subst (λ q. Found t.piece (q ∷ ps) 0 pos (piece_get_intern t pos)) (sym h.starts)
      (piece_get_intern-Found t ps pos
        (subst (λ q. Linked t.piece (q ∷ (ps ++ end ∷ []))) h.starts h.linked) h.nonnull.1
        (subst (λ q. pos ≤ total t.piece (q ∷ ps)) h.starts (omega (arith, h.sized)))
        (omega (arith, h.fuel)))

-- What follows the allocation of the change and the storing of the bytes.
insert_change-Changed :
    (env : Env) (t : Text) (l front behind : List Ptr) (p : Ptr) (off pos : ℕ) (s : List ℕ)
    → ((v : Text) → env.calloc v ≡ true)
    → Holds t l
    → l ≡ front ++ p ∷ behind
    → pos ≡ total t.piece front + off
    → off ≤ (t.piece p).len
    → 0 < length s
    → Changed (insert_change env t pos p off s) (inserted (text_of t l) pos s)
unfolding insert_change
insert_change-Changed env t l front behind p off pos s a h split place within more =
    let c = text_change_alloc-Allocated env t pos a in
    let t1 = c.after in
    let d = block_store-Stored env t1 s (a t1) in
    let t2 : Text = record t1 { block = d.block; count = d.count } in
    let h1 = Holds-SamePieces c.same l h in
    rw (c.result, d.result)
      (Changed-text
        (ap (λ z. inserted z pos s)
          (content-Extends d.extends t1.piece l h1.placed ∙ text_of-SamePieces c.same l))
        (insert_stored-Changed env t2 c.address l front behind p off d.source s pos a
          (Holds-Extends t1 l d.block d.count d.extends h1) split
          (place ∙ ap (λ g. total g front + off) (sym c.same.piece))
          (subst (λ g. off ≤ (g p).len) (sym c.same.piece) within) d.placed d.holds more))

cache_insert-none :
    (t : Text) (p off : ℕ) (s : List ℕ) → t.cache ≡ null → cache_insert t p off s ≡ none
unfolding cache_insert cache_contains
cache_insert-none t p off s e = ground (arith, e)

pub cache-invalidate_before : (t : Text) (pos : ℕ) → (invalidate_before t pos).cache ≡ t.cache
cache-invalidate_before t pos = ground arith

insert_at-Changed :
    (env : Env) (t : Text) (l : List Ptr) (pos : ℕ) (s : List ℕ)
    → ((v : Text) → env.calloc v ≡ true)
    → Holds t l
    → t.cache ≡ null
    → pos ≤ t.size
    → 0 < length s
    → Changed (insert_at env t pos (piece_get_intern t pos) s) (inserted (text_of t l) pos s)
unfolding insert_at insert_uncached
insert_at-Changed env t l pos s a h e k more =
    let loc = piece_get_intern t pos in
    let f = lookup-Found t l pos h k in
    let ne =
      (All-right (λ q. q ≢ null) f.front (loc.piece ∷ f.behind)
        (subst NonNull f.split h.nonnull)).0 in
    rw (ne→==_false loc.piece null ne, cache_insert-none t loc.piece loc.off s e)
      (insert_change-Changed env t l f.front f.behind loc.piece loc.off pos s a h f.split
        (omega (arith, f.place)) f.within more)

-- Inserting into a text that has no cached piece, with allocations that succeed: at a position
-- within the text the result is `true`, the invariant holds for a new chain, and the bytes of the
-- text are the old ones with the new ones at the position.
pub text_insert-Changed :
    (env : Env) (t : Text) (l : List Ptr) (pos : ℕ) (s : List ℕ)
    → ((v : Text) → env.calloc v ≡ true)
    → Holds t l
    → t.cache ≡ null
    → pos ≤ t.size
    → Changed (text_insert env t pos s) (inserted (text_of t l) pos s)
unfolding text_insert
text_insert-Changed env t l pos [] a h e k = record {
  after = t;
  chain = l;
  result = refl;
  holds = h;
  text = rw append-nil (sym (take-append-drop pos (text_of t l)));
}
text_insert-Changed env t l pos (x ∷ s) a h e k =
    let same = SamePieces-invalidate_before t pos in
    rw (ne→==_false (length (x ∷ s)) 0 (omega arith), le→ltb_false t.size pos k)
      (Changed-text (ap (λ z. inserted z pos (x ∷ s)) (text_of-SamePieces same l)) (
        insert_at-Changed env (invalidate_before t pos) l pos (x ∷ s) a (Holds-SamePieces same l h)
          (cache-invalidate_before t pos ∙ e) (omega (arith, same.size)) (omega arith)))
