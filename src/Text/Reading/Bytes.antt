-- ===== src/Text/Reading/Bytes.antt =====
-- What `text_bytes_get` of text-common.c reads.
use vis.Prelude.{
  ℕ, zero, suc, ◌+◌, ◌-◌, ◌<◌, ◌≡◌, ◌≢◌, refl, ap, sym, subst, ◌∙◌, List, [], ◌∷◌, ◌++◌, length,
  take, drop, arith, All, All-left, All-right, Bool-cases, inl, inr, ◌==◌, true, false, not,
  ne→==_false, ◌&&◌, append_assoc, take-nil, length-append, drop-append_left, drop-append_right,
  if◌then◌else◌,
}
use vis.Text.State.{Ptr, null, end, begin, Text, Data, no_data, literal, in_block, slice}
use vis.Text.Spans.{piece_get_extern}
use vis.Text.Chain.{Linked, total, Linked-back}
use vis.Text.Content.{
  Blocks, Placed, AllPlaced, content, length-slice, length-content, content-append,
}
use vis.Text.Content.Lookup.{NonNull}
use vis.Text.Holds.Defs.{Holds, text_of}
use vis.Text.Iterator.{
  Iterator, iterator_init, text_iterator_get, text_iterator_valid, text_iterator_next, has_data,
}
use vis.Text.Iterator.Bytes.{bytes_get, text_bytes_get}
use vis.Text.Reading.Lookup.{piece_get_extern-Reached}

-- The field `text` is set in the pieces of a list and not in the last sentinel.
abbrev pub Readable : Text → List Ptr → Type 0
Readable t l = ((t.piece end).text ≡ false) × All (λ p. (t.piece p).text ≡ true) l

-- The first bytes of two lists, the rest taken from the second one.
take_across :
    (n : ℕ) (xs ys : List ℕ) → take n xs ++ take (n - length (take n xs)) ys ≡ take n (xs ++ ys)
take_across zero xs ys = refl
take_across (suc n) [] ys = let e : suc n - 0 ≡ suc n = omega arith in ap (λ m. take m ys) e
take_across (suc n) (x ∷ xs) ys =
    ap (λ s. x ∷ s) (ap (λ m. take n xs ++ take m ys) (omega arith) ∙ take_across n xs ys)

-- One round of the loop: the bytes of a piece, then the rest.
round :
    (rem : ℕ) (xs ys rest : List ℕ)
    → rest ≡ take (rem - length (take rem xs)) ys
    → (if rem == 0 then [] else take rem xs ++ rest) ≡ take rem (xs ++ ys)
round zero xs ys rest e = refl
round (suc n) xs ys rest e =
    rw (ne→==_false (suc n) 0 (omega arith))
      (ap (λ s. take (suc n) xs ++ s) e ∙ take_across (suc n) xs ys)

-- The next iterator stands at the beginning of the next piece.
module _ (t : Text) (it : Iterator) (ne : it.piece ≢ null) where
  piece-text_iterator_next : (text_iterator_next t it).piece ≡ (t.piece it.piece).next
  unfolding text_iterator_next iterator_init
  piece-text_iterator_next =
      rw (ne→==_false it.piece null ne)
        elim (Bool-cases (
          not ((t.piece it.piece).next == null)
          && has_data (t.piece (t.piece it.piece).next).source)) [ inl e ↦ rw e | inr e ↦ rw e ]

  off-text_iterator_next : (text_iterator_next t it).off ≡ 0
  unfolding text_iterator_next iterator_init
  off-text_iterator_next =
      rw (ne→==_false it.piece null ne)
        elim (Bool-cases (
          not ((t.piece it.piece).next == null)
          && has_data (t.piece (t.piece it.piece).next).source)) [ inl e ↦ rw e | inr e ↦ rw e ]

invalid-bytes_get :
    (k : ℕ) (t : Text) (rem : ℕ) (it : Iterator)
    → text_iterator_valid t it ≡ false
    → bytes_get k t rem it ≡ []
unfolding bytes_get
invalid-bytes_get zero t rem it e = refl
invalid-bytes_get (suc k) t rem it e = rw e

end-invalid :
    (t : Text) (it : Iterator)
    → (t.piece end).text ≡ false
    → it.piece ≡ end
    → text_iterator_valid t it ≡ false
unfolding text_iterator_valid
end-invalid t it f e = rw (e, f)

piece-valid :
    (t : Text) (it : Iterator)
    → it.piece ≢ null
    → (t.piece it.piece).text ≡ true
    → text_iterator_valid t it ≡ true
unfolding text_iterator_valid
piece-valid t it ne e = rw (ne→==_false it.piece null ne, e)

-- From a piece of the chain on.
bytes_get-content :
    (k : ℕ) (t : Text) (rem : ℕ) (it : Iterator) (p : Ptr) (l : List Ptr)
    → it.piece ≡ p
    → Linked t.piece (p ∷ (l ++ end ∷ []))
    → NonNull (p ∷ l)
    → Readable t (p ∷ l)
    → length l < k
    → bytes_get k t rem it
      ≡ take rem (
          drop it.off (slice (t.piece p).source (t.piece p).len t.block)
          ++ content t.block t.piece l)
unfolding bytes_get content
bytes_get-content zero t rem it p l e c n r f = absurd (omega arith)
bytes_get-content (suc k) t rem it p [] e c n r f =
    let ne : it.piece ≢ null = subst (λ q. q ≢ null) (sym e) n.0 in
    let there = piece-text_iterator_next t it ne ∙ ap (λ q. (t.piece q).next) e ∙ c.0 in
    rw (piece-valid t it ne (ap (λ q. (t.piece q).text) e ∙ r.1.0), sym e)
      (round rem _ [] _ (
        invalid-bytes_get k t _ (text_iterator_next t it)
          (end-invalid t (text_iterator_next t it) r.0 there)
        ∙ take-nil _))
bytes_get-content (suc k) t rem it p (q ∷ l) e c n r f =
    let ne : it.piece ≢ null = subst (λ q. q ≢ null) (sym e) n.0 in
    let there = piece-text_iterator_next t it ne ∙ ap (λ q. (t.piece q).next) e ∙ c.0 in
    let next = text_iterator_next t it in
    let rest = λ (rem' : ℕ).
      bytes_get-content k t rem' next q l there c.2 n.1 (r.0, r.1.1) (omega arith)
      ∙ ap
          (λ o. take rem' (
            drop o (slice (t.piece q).source (t.piece q).len t.block) ++ content t.block t.piece l))
          (off-text_iterator_next t it ne) in
    rw (piece-valid t it ne (ap (λ q. (t.piece q).text) e ∙ r.1.0), sym e)
      (round rem _ _ _ (rest _))

has_data-Placed :
    (block : Blocks) (count : ℕ) (d : Data) (n : ℕ)
    → Placed block count d n
    → 0 < n
    → has_data d ≡ true
has_data-Placed block count no_data n h k = absurd (omega (arith, h))
has_data-Placed block count literal n h k = refl
has_data-Placed block count (in_block i off) n h k = refl

-- An iterator on a byte of a piece.
iterator_init-piece :
    (t : Text) (pos : ℕ) (p : Ptr) (off : ℕ)
    → p ≢ null
    → has_data (t.piece p).source ≡ true
    → ((iterator_init t pos p off).piece ≡ p) × ((iterator_init t pos p off).off ≡ off)
unfolding iterator_init
iterator_init-piece t pos p off ne e = rw (ne→==_false p null ne, e) (refl, refl)

module _ (t : Text) (front : List Ptr) (p : Ptr) (behind : List Ptr) (off : ℕ)
    (h : Holds t (begin ∷ (front ++ p ∷ behind))) (w : off < (t.piece p).len) where
  placed_all : AllPlaced t.block t.count t.piece (front ++ p ∷ behind)
  placed_all = h.placed.1

  -- The bytes of the text from the one at `off` in `p` on.
  drop-text_of :
      drop (total t.piece front + off) (text_of t (begin ∷ (front ++ p ∷ behind)))
      ≡ drop off (slice (t.piece p).source (t.piece p).len t.block)
        ++ content t.block t.piece behind
  unfolding content
  drop-text_of =
      let held = λ (q : Ptr). Placed t.block t.count (t.piece q).source (t.piece q).len in
      let front_placed = All-left held front (p ∷ behind) placed_all in
      let here = All-right held front (p ∷ behind) placed_all in
      let xs = content t.block t.piece (begin ∷ front) in
      let ys = content t.block t.piece (p ∷ behind) in
      let long : length xs ≡ total t.piece front = omega (
        arith,
        length-content t.block t.count t.piece (begin ∷ front) (h.placed.0, front_placed),
        h.begin_len,
      ) in
      ap (λ z. drop (total t.piece front + off) z)
        (content-append t.block t.piece (begin ∷ front) (p ∷ behind))
      ∙ ap (λ m. drop (m + off) (xs ++ ys)) (sym long)
      ∙ drop-append_right xs ys off
      ∙ drop-append_left off (slice (t.piece p).source (t.piece p).len t.block)
          (content t.block t.piece behind)
          (omega (arith, w, length-slice t.block t.count (t.piece p).source (t.piece p).len here.0))

  bytes_get-piece :
      (n pos : ℕ)
      → Readable t (front ++ p ∷ behind)
      → bytes_get (t.next_piece + 1) t n (iterator_init t pos p off)
        ≡ take n (drop (total t.piece front + off) (text_of t (begin ∷ (front ++ p ∷ behind))))
  bytes_get-piece n pos r =
      let here = All-right (λ q. q ≢ null) front (p ∷ behind) h.nonnull.1 in
      let set = All-right (λ q. (t.piece q).text ≡ true) front (p ∷ behind) r.1 in
      let at = iterator_init-piece t pos p off here.0 (
        has_data-Placed t.block t.count (t.piece p).source (t.piece p).len
          (All-right (λ q. Placed t.block t.count (t.piece q).source (t.piece q).len) front
            (p ∷ behind) placed_all).0
          (omega (arith, w))) in
      bytes_get-content (t.next_piece + 1) t n (iterator_init t pos p off) p behind at.0
        (Linked-back t.piece (begin ∷ front) p (behind ++ end ∷ []) (
          subst (λ z. Linked t.piece (begin ∷ z)) (append_assoc front (p ∷ behind) (end ∷ []))
            h.linked))
        here (r.0, set) (omega (arith, h.fuel, length-append front (p ∷ behind)))
      ∙ ap
          (λ o. take n (
            drop o (slice (t.piece p).source (t.piece p).len t.block)
            ++ content t.block t.piece behind))
          at.1
      ∙ ap (λ z. take n z) (sym drop-text_of)

-- Reading `n` bytes at a position within the text, in a text that satisfies the invariant and whose
-- pieces have their field `text` set but for the last sentinel, yields the bytes of the text from
-- that position on, up to `n` of them.
pub text_bytes_get-text_of :
    (t : Text) (ps : List Ptr) (pos n : ℕ)
    → Holds t (begin ∷ ps)
    → Readable t ps
    → pos < t.size
    → text_bytes_get t pos n ≡ take n (drop pos (text_of t (begin ∷ ps)))
unfolding text_bytes_get text_iterator_get
text_bytes_get-text_of t ps pos n h r k =
    let f = piece_get_extern-Reached t ps pos h k in
    let p = (piece_get_extern t pos).piece in
    let off = (piece_get_extern t pos).off in
    let place : pos ≡ total t.piece f.front + off = omega (arith, f.place) in
    bytes_get-piece t f.front p f.behind off (subst (λ z. Holds t (begin ∷ z)) f.split h) f.within n
      pos (subst (Readable t) f.split r)
    ∙ ap (λ m. take n (drop m (text_of t (begin ∷ (f.front ++ p ∷ f.behind))))) (sym place)
    ∙ ap (λ z. take n (drop pos (text_of t (begin ∷ z)))) (sym f.split)
