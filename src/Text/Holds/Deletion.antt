-- ===== src/Text/Holds/Deletion.antt =====
-- The change that a deletion makes, wherever it begins and ends (`text_delete` of text.c).
use vis.Prelude.{
  All-left, All-right, subst, ℕ, ◌+◌, ◌-◌, ◌≤◌, ◌<◌, ◌≡◌, refl, sym, ap, ◌∙◌, List, [], ◌∷◌, ◌++◌,
  length, arith, true, ◌==◌, ==_iff, ne→==_false, Bool-cases, inl, inr, ◌⊎◌, snoc_view,
  length-append, append_assoc,
}
use vis.Prelude.Slices.{removed}
use vis.Text.State.{Ptr, end, Text, Env}
use vis.Text.Delete.{delete_span, skip_pieces}
use vis.Text.Chain.{Linked, last_of, total, total-append, Linked-back}
use vis.Text.Chain.Apart.{AgreeBelow, Below, Linked-agree, total-agree}
use vis.Text.Holds.Defs.{Holds, text_of}
use vis.Text.Holds.Prepared.{snoc_split}
use vis.Text.Holds.Between.{Changed}
use vis.Text.Holds.Insertion.{length-text_of, length-front, first-len, Changed-text}
use vis.Text.Holds.Gone.{skip_pieces-Skipped}
use vis.Text.Holds.Deleted.{alloc, All-last_of}
use vis.Text.Holds.Boundary.{boundary_whole, boundary_cut}
use vis.Text.Holds.Midway.{midway_whole, midway_cut}

-- From a piece of the chain on.
chain_after :
    (t : Text) (l front rest : List Ptr) (p : Ptr)
    → Holds t l
    → l ≡ front ++ p ∷ rest
    → Linked t.piece (p ∷ (rest ++ end ∷ [])) × Below t.next_piece (p ∷ (rest ++ end ∷ []))
chain_after t l front rest p h e =
    let whole = ap (λ z. z ++ end ∷ []) e ∙ append_assoc front (p ∷ rest) (end ∷ []) in
    (
      Linked-back t.piece front p (rest ++ end ∷ []) (subst (Linked t.piece) whole h.linked),
      All-right (λ q. q < t.next_piece) front (p ∷ (rest ++ end ∷ []))
          (subst (Below t.next_piece) whole h.below),
    )

length_after :
    (t : Text) (l front rest : List Ptr) (p : Ptr)
    → Holds t l
    → l ≡ front ++ p ∷ rest
    → length rest < t.next_piece + 1
length_after t l front rest p h e =
    omega (arith, h.fuel, ap length e, length-append front (p ∷ rest))

size_after :
    (t : Text) (l front rest : List Ptr) (p : Ptr)
    → Holds t l
    → l ≡ front ++ p ∷ rest
    → t.size ≡ total t.piece front + (t.piece p).len + total t.piece rest
size_after t l front rest p h e =
    omega (arith, h.sized, ap (total t.piece) e, total-append t.piece front (p ∷ rest))

-- The deletion begins behind `p`.
boundary_split :
    (env : Env) (t : Text) (r : Ptr) (xs : List Ptr) (p : Ptr) (gone behind : List Ptr) (n pos : ℕ)
    → ((v : Text) → env.calloc v ≡ true)
    → Holds t (xs ++ p ∷ (gone ++ behind))
    → 0 < n
    → pos ≡ length (text_of t (xs ++ p ∷ []))
    → (walk : Ptr × ℕ) → skip_pieces (t.next_piece + 1) t.piece n p 0 ≡ walk
    → walk.0 ≡ last_of p gone
    → walk.1 ≡ total t.piece gone
    → n ≤ walk.1
    → (gone ≡ []) ⊎ (walk.1 < n + (t.piece walk.0).len)
    → Changed
        (delete_span env t r p (t.piece p).len n)
        (removed (text_of t (xs ++ p ∷ (gone ++ behind))) pos n)
boundary_split env t r xs p [] behind n pos a h some place walk e last sum enough tight =
    absurd (omega (arith, sum))
boundary_split env t r xs p (s ∷ ds) behind n pos a h some place walk e last sum enough tight =
    let walked = e ∙ ap (λ z. (z, walk.1)) last in
    let close : walk.1 ≤ n + (t.piece (last_of s ds)).len = elim tight [
      | inl none_gone ↦ absurd (omega (arith, ap length none_gone))
      | inr l ↦ omega (arith, ap (λ z. (t.piece z).len) last)
    ] in
    elim (Bool-cases (walk.1 == n)) [
      | inl g ↦
          boundary_whole env t r xs p s ds behind walk.1 n pos h some walked sum enough close place
            ((==_iff walk.1 n).0 g)
      | inr g ↦
          boundary_cut env t r xs p s ds behind walk.1 n pos h some walked sum enough close place g
            (a t)
    ]

-- It begins within `p`, behind its first `off` bytes.
midway_split :
    (env : Env) (t : Text) (r : Ptr) (xs : List Ptr) (b p : Ptr) (gone behind : List Ptr)
    (off n pos : ℕ)
    → ((v : Text) → env.calloc v ≡ true)
    → Holds t (xs ++ b ∷ ((p ∷ gone) ++ behind))
    → 0 < off
    → off < (t.piece p).len
    → pos ≡ length (text_of t (xs ++ b ∷ [])) + off
    → (walk : Ptr × ℕ)
    → skip_pieces (t.next_piece + 1 + 1) (alloc t).piece n p ((t.piece p).len - off) ≡ walk
    → walk.0 ≡ last_of p gone
    → walk.1 ≡ ((t.piece p).len - off) + total t.piece gone
    → n ≤ walk.1
    → (gone ≡ []) ⊎ (walk.1 < n + (t.piece (last_of p gone)).len)
    → Changed
        (delete_span env t r p off n)
        (removed (text_of t (xs ++ b ∷ ((p ∷ gone) ++ behind))) pos n)
midway_split env t r xs b p gone behind off n pos a h some inside place walk e last sum enough
      tight =
    let walked = e ∙ ap (λ z. (z, walk.1)) last in
    let close : walk.1 ≤ n + (t.piece (last_of p gone)).len = elim tight [
      | inl none_gone ↦
          let alone : (t.piece (last_of p gone)).len ≡ (t.piece p).len =
            ap (λ g. (t.piece (last_of p g)).len) none_gone in
          omega (arith, sum, alone, ap (total t.piece) none_gone)
      | inr l ↦ omega (arith, l)
    ] in
    elim (Bool-cases (walk.1 == n)) [
      | inl g ↦
          midway_whole env t r xs b p gone behind off walk.1 n pos h some inside walked sum enough
            close place a ((==_iff walk.1 n).0 g)
      | inr g ↦
          midway_cut env t r xs b p gone behind off walk.1 n pos h some inside walked sum enough
            close place a g
    ]

agree-alloc : (t : Text) → AgreeBelow t.next_piece t.piece (alloc t).piece
agree-alloc t j l = rw (ne→==_false j t.next_piece (omega arith)) refl

boundary-Changed :
    (env : Env) (t : Text) (r : Ptr) (l front behind : List Ptr) (p : Ptr) (n pos : ℕ)
    → ((v : Text) → env.calloc v ≡ true)
    → Holds t l
    → l ≡ front ++ p ∷ behind
    → pos ≡ total t.piece front + (t.piece p).len
    → 0 < n
    → pos + n ≤ t.size
    → Changed (delete_span env t r p (t.piece p).len n) (removed (text_of t l) pos n)
boundary-Changed env t r l front behind p n pos a h e place some within =
    let s =
      skip_pieces-Skipped (t.next_piece + 1) t.piece n p behind 0
        (length_after t l front behind p h e) (chain_after t l front behind p h e).0
        (omega (arith, size_after t l front behind p h e)) in
    let whole = e ∙ ap (λ z. front ++ p ∷ z) s.split in
    Changed-text (ap (λ z. removed (text_of t z) pos n) (sym whole)) (
      boundary_split env t r front p s.gone s.behind n pos a (subst (Holds t) whole h) some
        (place ∙ sym (length-front t l front behind p h e))
        (skip_pieces (t.next_piece + 1) t.piece n p 0) refl s.last (omega (arith, s.sum)) s.enough
        s.tight)

midway-Changed :
    (env : Env) (t : Text) (r : Ptr) (l xs behind : List Ptr) (b p : Ptr) (off n pos : ℕ)
    → ((v : Text) → env.calloc v ≡ true)
    → Holds t l
    → l ≡ (xs ++ b ∷ []) ++ p ∷ behind
    → pos ≡ total t.piece (xs ++ b ∷ []) + off
    → 0 < off
    → off < (t.piece p).len
    → pos + n ≤ t.size
    → Changed (delete_span env t r p off n) (removed (text_of t l) pos n)
midway-Changed env t r l xs behind b p off n pos a h e place some inside within =
    let (linked, below) = chain_after t l (xs ++ b ∷ []) behind p h e in
    let agree = agree-alloc t in
    let same =
      total-agree agree behind (All-left (λ q. q < t.next_piece) behind (end ∷ []) below.1) in
    let s =
      skip_pieces-Skipped (t.next_piece + 1 + 1) (alloc t).piece n p behind ((t.piece p).len - off)
        (omega (arith, length_after t l (xs ++ b ∷ []) behind p h e))
        (Linked-agree agree (p ∷ (behind ++ end ∷ [])) below linked)
        (omega (arith, same, size_after t l (xs ++ b ∷ []) behind p h e)) in
    let whole = e ∙ snoc_split xs b (p ∷ behind) ∙ ap (λ z. xs ++ b ∷ p ∷ z) s.split in
    let last_agrees = agree (last_of p s.gone) (
      All-last_of (λ q. q < t.next_piece) p s.gone (s.behind ++ end ∷ [])
        (subst (λ z. Below t.next_piece (p ∷ z))
          (ap (λ z. z ++ end ∷ []) s.split ∙ append_assoc s.gone s.behind (end ∷ [])) below)) in
    let gone_agrees : total (alloc t).piece s.gone ≡ total t.piece s.gone =
      total-agree agree s.gone (
        All-left (λ q. q < t.next_piece) s.gone s.behind
          (subst (Below t.next_piece) s.split
            (All-left (λ q. q < t.next_piece) behind (end ∷ []) below.1))) in
    Changed-text (ap (λ z. removed (text_of t z) pos n) (sym whole)) (
      midway_split env t r xs b p s.gone s.behind off n pos a (subst (Holds t) whole h) some inside
        (place ∙ ap (λ z. z + off) (sym (length-text_of t l (xs ++ b ∷ []) (p ∷ behind) h e)))
        (skip_pieces (t.next_piece + 1 + 1) (alloc t).piece n p ((t.piece p).len - off)) refl s.last
        (omega (arith, s.sum, gone_agrees)) s.enough
        (elim s.tight [
          | inl none_gone ↦ inl none_gone
          | inr k ↦ inr (
              omega
                (arith, k, ap (λ z. ((alloc t).piece z).len) s.last, ap (λ c. c.len) last_agrees))
        ]))

-- The bytes go whether the deletion begins at the end of a piece or not.
pub delete_span-Changed :
    (env : Env) (t : Text) (r : Ptr) (l front behind : List Ptr) (p : Ptr) (off n pos : ℕ)
    → ((v : Text) → env.calloc v ≡ true)
    → Holds t l
    → l ≡ front ++ p ∷ behind
    → pos ≡ total t.piece front + off
    → off ≤ (t.piece p).len
    → (off ≡ (t.piece p).len) ⊎ (0 < off)
    → 0 < n
    → pos + n ≤ t.size
    → Changed (delete_span env t r p off n) (removed (text_of t l) pos n)
delete_span-Changed env t r l [] behind p off n pos a h e place le edge some within =
    let full : off ≡ (t.piece p).len = omega (arith, first-len t l behind p h e) in
    subst (λ o. Changed (delete_span env t r p o n) (removed (text_of t l) pos n)) (sym full)
      (boundary-Changed env t r l [] behind p n pos a h e (omega (arith, place, full)) some within)
delete_span-Changed env t r l (x ∷ front) behind p off n pos a h e place le edge some within =
    elim (Bool-cases (off == (t.piece p).len)) [
      | inl g ↦
          let full = (==_iff off (t.piece p).len).0 g in
          subst (λ o. Changed (delete_span env t r p o n) (removed (text_of t l) pos n)) (sym full)
            (boundary-Changed env t r l (x ∷ front) behind p n pos a h e
              (omega (arith, place, full)) some within)
      | inr g ↦
          let (xs, b, eq) = snoc_view x front in
          let positive : 0 < off = elim edge [
            | inl full ↦ absurd (ground (arith, g, full))
            | inr k ↦ k
          ] in
          midway-Changed env t r l xs behind b p off n pos a h (e ∙ ap (λ z. z ++ p ∷ behind) eq)
            (place ∙ ap (λ z. total t.piece z + off) eq) positive (ground (arith, g, le)) within
    ]
