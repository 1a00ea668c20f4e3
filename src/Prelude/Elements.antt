-- ===== src/Prelude/Elements.antt =====
-- Single elements of a list: reading and replacing them, and what holds of them all.
use Prim.Native.Nat.{ℕ, zero, suc, ◌<◌}
use mathlib.Core.Path.{◌≡◌, refl, ap, subst}
use mathlib.Core.Logic.{◌≢◌}
use mathlib.Core.Option.{some}
use mathlib.Core.List.{List, [], ◌∷◌, ◌++◌}
use native.Mathlib.Omega.{arith}
use vis.Prelude.Lists.{All, length, get_elem?, set}

module _ {ℓ} {A : Type ℓ} where
  pub get_elem?-append_left :
      (xs ys : List A) (i : ℕ) → i < length xs → get_elem? (xs ++ ys) i ≡ get_elem? xs i
  get_elem?-append_left [] ys i h = absurd (omega arith)
  get_elem?-append_left (x ∷ xs) ys zero h = refl
  get_elem?-append_left (x ∷ xs) ys (suc i) h = get_elem?-append_left xs ys i (omega arith)

  pub get_elem?-some : (xs : List A) (i : ℕ) → i < length xs → (x : A) × (get_elem? xs i ≡ some x)
  get_elem?-some [] i h = absurd (omega arith)
  get_elem?-some (x ∷ xs) zero h = (x, refl)
  get_elem?-some (x ∷ xs) (suc i) h = get_elem?-some xs i (omega arith)

  pub get_elem?-set :
      (xs : List A) (i : ℕ) (x : A) → i < length xs → get_elem? (set xs i x) i ≡ some x
  get_elem?-set [] i x h = absurd (omega arith)
  get_elem?-set (y ∷ xs) zero x h = refl
  get_elem?-set (y ∷ xs) (suc i) x h = get_elem?-set xs i x (omega arith)

  pub get_elem?-set_other :
      (xs : List A) (i j : ℕ) (x : A) → j ≢ i → get_elem? (set xs i x) j ≡ get_elem? xs j
  get_elem?-set_other [] i j x h = refl
  get_elem?-set_other (y ∷ xs) zero zero x h = absurd (h refl)
  get_elem?-set_other (y ∷ xs) zero (suc j) x h = refl
  get_elem?-set_other (y ∷ xs) (suc i) zero x h = refl
  get_elem?-set_other (y ∷ xs) (suc i) (suc j) x h =
      get_elem?-set_other xs i j x (λ e. h (ap suc e))

  pub length-set : (xs : List A) (i : ℕ) (x : A) → length (set xs i x) ≡ length xs
  length-set [] i x = refl
  length-set (y ∷ xs) zero x = refl
  length-set (y ∷ xs) (suc i) x = ap suc (length-set xs i x)

  pub All-set : (P : A → Type 0) (xs : List A) (i : ℕ) (x : A) → P x → All P xs → All P (set xs i x)
  All-set P [] i x p h = tt
  All-set P (y ∷ xs) zero x p h = (p, h.1)
  All-set P (y ∷ xs) (suc i) x p h = (h.0, All-set P xs i x p h.1)

  pub All-get_elem? :
      (P : A → Type 0) (xs : List A) (i : ℕ) (x : A) → get_elem? xs i ≡ some x → All P xs → P x
  All-get_elem? P [] i x e h = cc
  All-get_elem? P (y ∷ xs) zero x e h = let q : y ≡ x = cc in subst P q h.0
  All-get_elem? P (y ∷ xs) (suc i) x e h = All-get_elem? P xs i x e h.1
