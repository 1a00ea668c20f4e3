-- ===== src/Text/Chain.antt =====
-- Doubly linked chains of pieces in a store, and what a change of two links does to them.
pub mod Relink
pub mod Swap
pub mod Splice
pub mod Apart
pub mod Undo
pub mod Examples
use vis.Prelude.{All, ℕ, ◌+◌, ◌≡◌, ◌≢◌, List, [], ◌∷◌, ◌++◌, arith}
use vis.Text.State.{Ptr, Piece}

abbrev pub Store : Type 0
Store = Ptr → Piece

-- Neighbours in the list point at one another.
abbrev pub Linked : Store → List Ptr → Type 0
Linked h [] = Unit
Linked h (p ∷ []) = Unit
Linked h (p ∷ q ∷ r) = ((h p).next ≡ q) × ((h q).prev ≡ p) × Linked h (q ∷ r)

-- From `s` on, `next` and `prev` lead through `r`, and the last `next` to `b`.
abbrev pub Follows : Store → Ptr → List Ptr → Ptr → Type 0
Follows h s [] b = (h s).next ≡ b
Follows h s (q ∷ r) b = ((h s).next ≡ q) × ((h q).prev ≡ s) × Follows h q r b

-- The pieces of a span that fits between `a` and `b`, whether or not these point into it.
abbrev pub Inside : Store → Ptr → List Ptr → Ptr → Type 0
Inside h a [] b = Unit
Inside h a (s ∷ r) b = ((h s).prev ≡ a) × Follows h s r b

abbrev pub Avoids : Ptr → List Ptr → Type 0
Avoids p l = All (λ q. q ≢ p) l

abbrev pub Distinct : List Ptr → Type 0
Distinct [] = Unit
Distinct (p ∷ r) = Avoids p r × Distinct r

-- The piece that `a` is followed by, and the one that `b` follows, with `l` between them.
abbrev pub first_of : List Ptr → Ptr → Ptr
first_of [] b = b
first_of (p ∷ r) b = p

abbrev pub last_of : Ptr → List Ptr → Ptr
last_of a [] = a
last_of a (p ∷ r) = last_of p r

-- The bytes that the pieces of a list refer to, counted.
abbrev pub total : Store → List Ptr → ℕ
total h [] = 0
total h (p ∷ r) = (h p).len + total h r

module _ (h : Store) where
  pub Linked-glue :
      (xs : List Ptr) (a : Ptr) (ys : List Ptr)
      → Linked h (xs ++ a ∷ [])
      → Linked h (a ∷ ys)
      → Linked h (xs ++ a ∷ ys)
  Linked-glue [] a ys l m = m
  Linked-glue (x ∷ []) a ys l m = (l.0, l.1, m)
  Linked-glue (x ∷ y ∷ xs) a ys l m = (l.0, l.1, Linked-glue (y ∷ xs) a ys l.2 m)

  pub Linked-front :
      (xs : List Ptr) (a : Ptr) (ys : List Ptr) → Linked h (xs ++ a ∷ ys) → Linked h (xs ++ a ∷ [])
  Linked-front [] a ys l = tt
  Linked-front (x ∷ []) a ys l = (l.0, l.1, tt)
  Linked-front (x ∷ y ∷ xs) a ys l = (l.0, l.1, Linked-front (y ∷ xs) a ys l.2)

  pub Linked-back :
      (xs : List Ptr) (a : Ptr) (ys : List Ptr) → Linked h (xs ++ a ∷ ys) → Linked h (a ∷ ys)
  Linked-back [] a ys l = l
  Linked-back (x ∷ []) a ys l = l.2
  Linked-back (x ∷ y ∷ xs) a ys l = Linked-back (y ∷ xs) a ys l.2

  -- What stands between two pieces of a chain fits between them.
  pub Follows-of_Linked :
      (a : Ptr) (l : List Ptr) (b : Ptr) (ys : List Ptr)
      → Linked h (a ∷ (l ++ b ∷ ys))
      → Follows h a l b
  Follows-of_Linked a [] b ys l = l.0
  Follows-of_Linked a (p ∷ r) b ys l = (l.0, l.1, Follows-of_Linked p r b ys l.2)

  pub Inside-of_Linked :
      (a : Ptr) (l : List Ptr) (b : Ptr) (ys : List Ptr)
      → Linked h (a ∷ (l ++ b ∷ ys))
      → Inside h a l b
  Inside-of_Linked a [] b ys l = tt
  Inside-of_Linked a (p ∷ r) b ys l = (l.1, Follows-of_Linked p r b ys l.2)

pub total-append : (h : Store) (xs ys : List Ptr) → total h (xs ++ ys) ≡ total h xs + total h ys
total-append h [] ys = omega arith
total-append h (x ∷ xs) ys = omega (arith, total-append h xs ys)
