-- ===== src/Map/Lookup.antt =====
-- What a look-up finds after insertion and deletion in a well-formed tree (map.c).
pub mod Insert
pub mod Delete
use vis.Prelude.{
  ℕ, ◌≡◌, ◌≢◌, refl, sym, ap, ◌∙◌, Bool, true, false, not, Option, none, some, if◌then◌else◌,
  Bool-cases, inl, inr, arith,
}
use vis.Map.{Key, Tree, leaf, node, direction, str_eq, closest, tree_get}
use vis.Map.Bits.{str_eq→eq}
use vis.Map.WellFormed.{AllKeys, AllKeys-closest}

-- Keys on different sides of a place are different.
pub other_side :
    (j k : Key) (n b : ℕ) → direction j n b ≡ not (direction k n b) → str_eq j k ≡ false
other_side j k n b h = elim (Bool-cases (str_eq j k)) [
  | inl e ↦
      absurd (ne_not (direction k n b) (ap (λ z. direction z n b) (sym (str_eq→eq j k e)) ∙ h))
  | inr e ↦ e
]
  where
    ne_not : (c : Bool) → c ≢ not c
    ne_not true e = cc
    ne_not false e = cc

module _ {ℓ} {V : Type ℓ} where
  pub tree_get-node :
      (n b : ℕ) (l r : Tree V) (j : Key)
      → tree_get (node n b l r) j ≡ (if direction j n b then tree_get r j else tree_get l j)
  unfolding tree_get closest
  tree_get-node n b l r j = elim (Bool-cases (direction j n b)) [
    | inl e ↦ rw (e, closest)
    | inr e ↦ rw (e, closest)
  ]

  -- Where all keys of a tree are on the other side of a place, the key is not there.
  pub tree_get-none :
      (t : Tree V) (j : Key) (n b : ℕ)
      → AllKeys (λ x. direction j n b ≡ not (direction x n b)) t
      → tree_get t j ≡ none
  unfolding tree_get
  tree_get-none t j n b a = rw (
      other_side j (closest t j).0 n b
        (AllKeys-closest (λ x. direction j n b ≡ not (direction x n b)) t j a))
