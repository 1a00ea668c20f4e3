-- ===== src/Text/Holds/Gone.antt =====
-- Spans of any number of pieces, and the walk over the pieces that `text_delete` removes (text.c).
use vis.Prelude.{
  ℕ, zero, suc, ◌+◌, ◌≤◌, ◌<◌, ◌≡◌, ◌≢◌, ◌⊎◌, refl, sym, ap, ◌∙◌, List, [], ◌∷◌, ◌++◌, length, ltb,
  ltb→lt, le→ltb_false, ==_refl, ne→==_false, Bool-cases, inl, inr, arith,
}
use vis.Text.State.{Ptr, null, end, Text}
use vis.Text.Spans.{span_init, span_length}
use vis.Text.Delete.{skip_pieces}
use vis.Text.Chain.{Store, Linked, Follows, Avoids, Distinct, last_of, total}
use vis.Text.Chain.Swap.{SpanIs}
use vis.Text.Content.Lookup.{NonNull}

last_of-avoided : (a p : Ptr) (l : List Ptr) → Avoids a (p ∷ l) → last_of p l ≢ a
last_of-avoided a p [] av = av.0
last_of-avoided a p (q ∷ l) av = last_of-avoided a q l av.1

span_length-total :
    (k : ℕ) (h : Store) (p : Ptr) (r : List Ptr) (b : Ptr)
    → length r < k
    → NonNull (p ∷ r)
    → Distinct (p ∷ r)
    → Follows h p r b
    → span_length k h p (last_of p r) ≡ total h (p ∷ r)
unfolding span_length
span_length-total zero h p r b l n d f = absurd (omega arith)
span_length-total (suc k) h p [] b l n d f = rw (ne→==_false p null n.0, ==_refl p) (omega arith)
span_length-total (suc k) h p (q ∷ r) b l n d f =
    rw
      (
        ne→==_false p null n.0,
        ne→==_false p (last_of q r) (λ e. last_of-avoided p q r d.0 (sym e)),
        f.0,
      )
      (ap (λ z. (h p).len + z) (span_length-total k h q r b (omega arith) n.1 d.1 f.2))

pub span_init-SpanIs :
    (u : Text) (p : Ptr) (r : List Ptr) (b : Ptr)
    → length r ≤ u.next_piece
    → NonNull (p ∷ r)
    → Distinct (p ∷ r)
    → Follows u.piece p r b
    → 0 < total u.piece (p ∷ r)
    → SpanIs u.piece (span_init u p (last_of p r)) (p ∷ r)
unfolding span_init
span_init-SpanIs u p r b l n d f more =
    let counted = span_length-total (u.next_piece + 1) u.piece p r b (omega arith) n d f in
    record { counted = counted; ends = (refl, refl, omega (arith, counted)) }

-- Where the walk from `p` ends, with `rest` behind `p` in the chain: at the last one of the pieces
-- `gone`, with the sum of their lengths, which is enough, and was not before the last one.
pub record Skipped (h : Store) (n : ℕ) (p : Ptr) (rest : List Ptr) (cur : ℕ) (r : Ptr × ℕ)
    : Type 0 where
  pub gone : List Ptr
  pub behind : List Ptr
  pub split : rest ≡ gone ++ behind
  pub last : r.0 ≡ last_of p gone
  pub sum : r.1 ≡ cur + total h gone
  pub enough : n ≤ r.1
  pub tight : (gone ≡ []) ⊎ (r.1 < n + (h r.0).len)

Skipped-next :
    {h : Store} {n : ℕ} {q : Ptr} {rest : List Ptr} {cur : ℕ} {r : Ptr × ℕ} (p : Ptr)
    → cur < n
    → Skipped h n q rest (cur + (h q).len) r
    → Skipped h n p (q ∷ rest) cur r
Skipped-next {h = h} {n = n} {q = q} {cur = cur} {r = r} p less s = record {
  gone = q ∷ s.gone;
  behind = s.behind;
  split = ap (λ l. q ∷ l) s.split;
  last = s.last;
  sum = omega (arith, s.sum);
  enough = s.enough;
  tight = inr (elim s.tight [
    | inl e ↦
        let here : r.0 ≡ q = s.last ∙ ap (last_of q) e in
        let none_more : total h s.gone ≡ 0 = ap (total h) e in
        rw here (omega (arith, s.sum, less, none_more))
    | inr l ↦ l
  ]);
}

stopped :
    (h : Store) (n : ℕ) (p : Ptr) (rest : List Ptr) (cur : ℕ)
    → n ≤ cur
    → Skipped h n p rest cur (p, cur)
stopped h n p rest cur e = record {
  gone = [];
  behind = rest;
  split = refl;
  last = refl;
  sum = omega arith;
  enough = e;
  tight = inl refl;
}

pub skip_pieces-Skipped :
    (k : ℕ) (h : Store) (n : ℕ) (p : Ptr) (rest : List Ptr) (cur : ℕ)
    → length rest < k
    → Linked h (p ∷ (rest ++ end ∷ []))
    → n ≤ cur + total h rest
    → Skipped h n p rest cur (skip_pieces k h n p cur)
unfolding skip_pieces
skip_pieces-Skipped zero h n p rest cur l c e = absurd (omega arith)
skip_pieces-Skipped (suc k) h n p [] cur l c e =
    rw (le→ltb_false cur n (omega arith)) (stopped h n p [] cur (omega arith))
skip_pieces-Skipped (suc k) h n p (q ∷ rest) cur l c e = elim (Bool-cases (ltb cur n)) [
  | inl g ↦
      rw (g, c.0)
        (Skipped-next p (ltb→lt _ _ g)
          (skip_pieces-Skipped k h n q rest (cur + (h q).len) (omega arith) c.2 (omega arith)))
  | inr g ↦ rw g (stopped h n p (q ∷ rest) cur (ground (arith, g)))
]
