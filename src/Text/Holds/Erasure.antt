-- ===== src/Text/Holds/Erasure.antt =====
-- `text_delete` on a text without a cached piece, from the arguments to the new content.
use vis.Prelude.{
  subst, ℕ, zero, suc, ◌+◌, ◌-◌, ◌≤◌, ◌<◌, ◌≡◌, ◌≢◌, refl, sym, ap, ◌∙◌, List, [], ◌∷◌, ◌++◌, arith,
  ne→==_false, true, All-right, none, some, le→ltb_false, take-append-drop, inl, inr, ◌⊎◌, ◌^◌,
  le→leb,
}
use vis.Prelude.Slices.{removed}
use native.Mathlib.Nat.{add-zero}
use native.Mathlib.Numerals.{add-one}
use vis.Text.State.{Ptr, null, begin, end, Text, Env}
use vis.Text.Spans.{piece_get_intern, get_intern}
use vis.Text.Blocks.{addu}
use vis.Text.Cache.{cache_delete, cache_contains}
use vis.Text.Insert.{invalidate_before}
use vis.Text.Delete.{delete_change, delete_uncached, delete_at, text_delete, in_text}
use vis.Text.Chain.{total, Linked}
use vis.Text.Content.Lookup.{NonNull, next-ne-null}
use vis.Text.Holds.Defs.{Holds, text_of}
use vis.Text.Holds.Frame.{
  Holds-SamePieces, text_of-SamePieces, text_change_alloc-Allocated, SamePieces-invalidate_before,
}
use vis.Text.Holds.Between.{Changed}
use vis.Text.Holds.Insertion.{Changed-text}
use vis.Text.Holds.Inserted.{lookup-Found, cache-invalidate_before}
use vis.Text.Holds.Deletion.{delete_span-Changed}

-- Position 0 is found in `begin`, which holds no bytes.
begin-zero :
    (t : Text) (l : List Ptr) → Holds t l → piece_get_intern t 0 ≡ record { piece = begin; off = 0 }
unfolding piece_get_intern get_intern
begin-zero t [] h = absurd h.starts
begin-zero t (p ∷ ps) h =
    let next : (t.piece begin).next ≢ null =
      next-ne-null t.piece begin ps
        (subst (λ q. Linked t.piece (q ∷ (ps ++ end ∷ []))) h.starts h.linked) h.nonnull.1 in
    rw
      (
        add-one t.next_piece,
        ne→==_false (t.piece begin).next null next,
        le→leb 0 (0 + (t.piece begin).len) (omega arith),
      )
      refl

-- A position is found at the end of a piece or behind its first byte.
lookup-edge :
    (t : Text) (l : List Ptr) (pos : ℕ)
    → Holds t l
    → pos ≤ t.size
    → ((piece_get_intern t pos).off ≡ (t.piece (piece_get_intern t pos).piece).len)
      ⊎ (0 < (piece_get_intern t pos).off)
lookup-edge t l zero h k = inl (rw (begin-zero t l h) (sym h.begin_len))
lookup-edge t l (suc pos) h k = inr ((lookup-Found t l (suc pos) h k).positive (omega arith))

-- What follows the lookup of the position.
delete_change-Changed :
    (env : Env) (t : Text) (l front behind : List Ptr) (p : Ptr) (off n pos : ℕ)
    → ((v : Text) → env.calloc v ≡ true)
    → Holds t l
    → l ≡ front ++ p ∷ behind
    → pos ≡ total t.piece front + off
    → off ≤ (t.piece p).len
    → (off ≡ (t.piece p).len) ⊎ (0 < off)
    → 0 < n
    → pos + n ≤ t.size
    → Changed (delete_change env t pos p off n) (removed (text_of t l) pos n)
unfolding delete_change
delete_change-Changed env t l front behind p off n pos a h split place le edge some_bytes within =
    let c = text_change_alloc-Allocated env t pos a in
    let same = sym c.same.piece in
    rw c.result (
      Changed-text (ap (λ z. removed z pos n) (text_of-SamePieces c.same l)) (
        delete_span-Changed env c.after c.address l front behind p off n pos a
          (Holds-SamePieces c.same l h) split (place ∙ ap (λ g. total g front + off) same)
          (subst (λ g. off ≤ (g p).len) same le)
          (subst (λ g. (off ≡ (g p).len) ⊎ (0 < off)) same edge) some_bytes
          (omega (arith, within, c.same.size))))

cache_delete-none : (t : Text) (p off n : ℕ) → t.cache ≡ null → cache_delete t p off n ≡ none
unfolding cache_delete cache_contains
cache_delete-none t p off n e = ground (arith, e)

delete_at-Changed :
    (env : Env) (t : Text) (l : List Ptr) (pos n : ℕ)
    → ((v : Text) → env.calloc v ≡ true)
    → Holds t l
    → t.cache ≡ null
    → 0 < n
    → pos + n ≤ t.size
    → Changed (delete_at env t pos (piece_get_intern t pos) n) (removed (text_of t l) pos n)
unfolding delete_at delete_uncached
delete_at-Changed env t l pos n a h e some_bytes within =
    let loc = piece_get_intern t pos in
    let k : pos ≤ t.size = omega (arith, within) in
    let f = lookup-Found t l pos h k in
    let ne =
      (All-right (λ q. q ≢ null) f.front (loc.piece ∷ f.behind)
        (subst NonNull f.split h.nonnull)).0 in
    rw (ne→==_false loc.piece null ne, cache_delete-none t loc.piece loc.off n e)
      (delete_change-Changed env t l f.front f.behind loc.piece loc.off n pos a h f.split
        (omega (arith, f.place)) f.within (lookup-edge t l pos h k) some_bytes within)

addu-fits : (a b : ℕ) → a + b < 2 ^ 64 → addu a b ≡ some (a + b)
unfolding addu
addu-fits a b k = rw (le→ltb_false (2 ^ 64 - 1 - a) b (omega (arith, k))) refl

-- Deleting from a text that has no cached piece, with allocations that succeed: for a range within
-- the text whose end fits a `size_t` the result is `true`, the invariant holds for a new chain, and
-- the bytes of the text are the old ones without the range.
pub text_delete-Changed :
    (env : Env) (t : Text) (l : List Ptr) (pos n : ℕ)
    → ((v : Text) → env.calloc v ≡ true)
    → Holds t l
    → t.cache ≡ null
    → pos + n ≤ t.size
    → pos + n < 2 ^ 64
    → Changed (text_delete env t pos n) (removed (text_of t l) pos n)
unfolding text_delete in_text
text_delete-Changed env t l pos zero a h e within fits = record {
  after = t;
  chain = l;
  result = refl;
  holds = h;
  text = rw (add-zero pos) (sym (take-append-drop pos (text_of t l)));
}
text_delete-Changed env t l pos (suc n) a h e within fits =
    let same = SamePieces-invalidate_before t pos in
    rw
      (
        ne→==_false (suc n) 0 (omega arith),
        addu-fits pos (suc n) fits,
        le→ltb_false t.size (pos + suc n) within,
      )
      (Changed-text (ap (λ z. removed z pos (suc n)) (text_of-SamePieces same l)) (
        delete_at-Changed env (invalidate_before t pos) l pos (suc n) a (Holds-SamePieces same l h)
          (cache-invalidate_before t pos ∙ e) (omega arith) (omega (arith, within, same.size))))
