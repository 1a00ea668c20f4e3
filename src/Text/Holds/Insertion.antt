-- ===== src/Text/Holds/Insertion.antt =====
-- `text_insert` on a text without a cached piece.
use vis.Prelude.{
  subst, ℕ, ◌+◌, ◌-◌, ◌≤◌, ◌<◌, ◌≡◌, sym, ap, ◌∙◌, List, [], ◌∷◌, ◌++◌, append_assoc, length, arith,
  ==_refl, length-append, true, ◌==◌, All-right, All-left, Bool-cases, inl, inr, ==_iff, snoc_view,
}
use vis.Prelude.Slices.{inserted, inserted_between}
use vis.Text.State.{Ptr, begin, Text, Data, Env, Run, slice, advance}
use vis.Text.Insert.{insert_between, insert_middle, insert_stored}
use native.Mathlib.Nat.{add-zero}
use vis.Text.Chain.{total, total-append}
use vis.Text.Content.{Placed, content, AllPlaced, length-content, content-append, length-slice}
use vis.Text.Holds.Defs.{Holds, StartsAt, text_of}
use vis.Text.Holds.Prepared.{snoc_split}
use vis.Text.Holds.Between.{Changed, insert_between-Changed}
use vis.Text.Holds.Middle.{slice-cut, Placed-front}
use vis.Text.Holds.Split.{insert_middle-Changed}

pub Changed-text : {r : Run (Unit {0})} {c d : List ℕ} → c ≡ d → Changed r c → Changed r d
Changed-text e k = record {
  after = k.after;
  chain = k.chain;
  result = k.result;
  holds = k.holds;
  text = k.text ∙ e;
}

-- The bytes of a first part of the chain, counted.
pub length-text_of :
    (t : Text) (l m k : List Ptr) → Holds t l → l ≡ m ++ k → length (text_of t m) ≡ total t.piece m
length-text_of t l m k h e = length-content t.block t.count t.piece m (
    All-left (λ p. Placed t.block t.count (t.piece p).source (t.piece p).len) m k
      (subst (AllPlaced t.block t.count t.piece) e h.placed))

pub text_of-split :
    (t : Text) (l front behind : List Ptr) (p : Ptr)
    → l ≡ front ++ p ∷ behind
    → text_of t l ≡ text_of t (front ++ p ∷ []) ++ text_of t behind
text_of-split t l front behind p split =
    ap (text_of t) (split ∙ sym (snoc_split front p behind))
    ∙ content-append t.block t.piece (front ++ p ∷ []) behind

pub length-front :
    (t : Text) (l front behind : List Ptr) (p : Ptr)
    → Holds t l
    → l ≡ front ++ p ∷ behind
    → length (text_of t (front ++ p ∷ [])) ≡ total t.piece front + (t.piece p).len
length-front t l front behind p h split =
    length-text_of t l (front ++ p ∷ []) behind h (split ∙ sym (snoc_split front p behind))
    ∙ total-append t.piece front (p ∷ [])
    ∙ ap (λ z. total t.piece front + z) (add-zero (t.piece p).len)

-- Between two pieces.
insert_stored-end :
    (env : Env) (t : Text) (r : Ptr) (l front behind : List Ptr) (p : Ptr) (off : ℕ) (source : Data)
    (s : List ℕ) (pos : ℕ)
    → ((v : Text) → env.calloc v ≡ true)
    → Holds t l
    → l ≡ front ++ p ∷ behind
    → pos ≡ total t.piece front + off
    → off ≡ (t.piece p).len
    → Placed t.block t.count source (length s)
    → slice source (length s) t.block ≡ s
    → 0 < length s
    → Changed (insert_between env t r p source (length s)) (inserted (text_of t l) pos s)
insert_stored-end env t r l front behind p off source s pos a h split place e placed holds more =
    Changed-text
      (ap (λ z. text_of t (front ++ p ∷ []) ++ z ++ text_of t behind) holds
        ∙ sym (
            inserted_between (text_of t (front ++ p ∷ [])) (text_of t behind) s pos
              (omega (arith, length-front t l front behind p h split)))
        ∙ ap (λ c. inserted c pos s) (sym (text_of-split t l front behind p split)))
      (insert_between-Changed t front p behind source (length s) (subst (Holds t) split h) placed
        more env r a)

-- The bytes of the chain around a place within `p`, which `a` precedes.
text_of-cut :
    (t : Text) (l xs behind : List Ptr) (a p : Ptr) (off : ℕ)
    → l ≡ xs ++ a ∷ (p ∷ behind)
    → off ≤ (t.piece p).len
    → text_of t l
      ≡ (text_of t (xs ++ a ∷ []) ++ slice (t.piece p).source off t.block)
        ++ (slice (advance (t.piece p).source off) ((t.piece p).len - off) t.block
            ++ text_of t behind)
unfolding content
text_of-cut t l xs behind a p off split h =
    text_of-split t l xs (p ∷ behind) a split
    ∙ ap (λ z. text_of t (xs ++ a ∷ []) ++ (z ++ text_of t behind))
        (slice-cut t.block (t.piece p).source off (t.piece p).len h)
    ∙ simp append_assoc

-- Within a piece.
insert_stored-within :
    (env : Env) (t : Text) (r : Ptr) (l xs behind : List Ptr) (a p : Ptr) (off : ℕ) (source : Data)
    (s : List ℕ) (pos : ℕ)
    → ((v : Text) → env.calloc v ≡ true)
    → Holds t l
    → l ≡ xs ++ a ∷ (p ∷ behind)
    → pos ≡ total t.piece (xs ++ a ∷ []) + off
    → off < (t.piece p).len
    → Placed t.block t.count source (length s)
    → slice source (length s) t.block ≡ s
    → 0 < length s
    → Changed (insert_middle env t r p off source (length s)) (inserted (text_of t l) pos s)
insert_stored-within env t r l xs behind a p off source s pos ok_all h split place inside placed
      holds more =
    Changed-text
      (ap (λ z. A ++ z ++ B) holds
        ∙ sym (
            inserted_between A B s pos (rw length-append (omega (arith, front_length, cut_length))))
        ∙ ap (λ c. inserted c pos s) (sym (text_of-cut t l xs behind a p off split (omega arith))))
      (insert_middle-Changed env t r xs a p behind off source (length s) ok_all
        (subst (Holds t) split h) inside placed more)
  where
    A : List ℕ
    A = text_of t (xs ++ a ∷ []) ++ slice (t.piece p).source off t.block

    B : List ℕ
    B = slice (advance (t.piece p).source off) ((t.piece p).len - off) t.block ++ text_of t behind

    front_length : length (text_of t (xs ++ a ∷ [])) ≡ total t.piece (xs ++ a ∷ [])
    front_length =
        length-text_of t l (xs ++ a ∷ []) (p ∷ behind) h
          (split ∙ sym (snoc_split xs a (p ∷ behind)))

    Placed-p : Placed t.block t.count (t.piece p).source (t.piece p).len
    Placed-p =
        (All-right (λ q. Placed t.block t.count (t.piece q).source (t.piece q).len) xs
          (a ∷ (p ∷ behind)) (subst (AllPlaced t.block t.count t.piece) split h.placed)).1.0

    cut_length : length (slice (t.piece p).source off t.block) ≡ off
    cut_length =
        length-slice t.block t.count (t.piece p).source off
          (Placed-front t.block t.count (t.piece p).source off (t.piece p).len inside Placed-p)

-- The first piece of the chain is `begin`, which holds no bytes.
pub first-len :
    (t : Text) (l behind : List Ptr) (p : Ptr) → Holds t l → l ≡ p ∷ behind → (t.piece p).len ≡ 0
first-len t l behind p h split =
    ap (λ q. (t.piece q).len) (subst (StartsAt begin) split h.starts) ∙ h.begin_len

-- The chunk goes to its place whether that is an end of a piece or not.
pub insert_stored-Changed :
    (env : Env) (t : Text) (r : Ptr) (l front behind : List Ptr) (p : Ptr) (off : ℕ) (source : Data)
    (s : List ℕ) (pos : ℕ)
    → ((v : Text) → env.calloc v ≡ true)
    → Holds t l
    → l ≡ front ++ p ∷ behind
    → pos ≡ total t.piece front + off
    → off ≤ (t.piece p).len
    → Placed t.block t.count source (length s)
    → slice source (length s) t.block ≡ s
    → 0 < length s
    → Changed (insert_stored env t r p off source (length s)) (inserted (text_of t l) pos s)
unfolding insert_stored
insert_stored-Changed env t r l [] behind p off source s pos a h split place within placed holds
      more =
    let e : off ≡ (t.piece p).len = omega (arith, first-len t l behind p h split) in
    rw (e, ==_refl (t.piece p).len)
      (insert_stored-end env t r l [] behind p off source s pos a h split place e placed holds more)
insert_stored-Changed env t r l (x ∷ front) behind p off source s pos a h split place within placed
      holds more =
    elim (Bool-cases (off == (t.piece p).len)) [
      | inl e ↦ rw e (
          insert_stored-end env t r l (x ∷ front) behind p off source s pos a h split place
            ((==_iff off (t.piece p).len).0 e) placed holds more)
      | inr e ↦
          let (xs, b, eq) = snoc_view x front in
          rw e (
            insert_stored-within env t r l xs behind b p off source s pos a h
              (split ∙ ap (λ z. z ++ p ∷ behind) eq ∙ snoc_split xs b (p ∷ behind))
              (place ∙ ap (λ z. total t.piece z + off) eq) (ground (arith, e, within)) placed holds
              more)
    ]
