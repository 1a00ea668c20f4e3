-- ===== src/Map/Lookup/Delete.antt =====
-- `map_get` after `map_delete` (map.c).
use vis.Prelude.{
  ℕ, ◌≡◌, refl, sym, ap, ◌∙◌, true, false, not, Option, none, some, if◌then◌else◌, Bool-cases, inl,
  inr,
}
use vis.Map.{
  Key, Tree, leaf, node, Map, empty, tree, direction, str_eq, closest, tree_get, map_get,
  delete_node, raise_found, deleted, map_delete,
}
use vis.Map.Bits.{str_eq→eq}
use vis.Map.WellFormed.{AllKeys, AllKeys-map, WellFormed}
use vis.Map.Lookup.{other_side, tree_get-node, tree_get-none}
use vis.Map.Laws.{IsMap}

module _ {ℓ} {V : Type ℓ} where
  -- What is found in what is left of a tree.
  abbrev get_left : Option (Tree V) → Key → Option V
  get_left none j = none
  get_left (some t) j = tree_get t j

  abbrev AllLeft : (Key → Type 0) → Option (Tree V) → Type 0
  AllLeft P none = Unit
  AllLeft P (some t) = AllKeys P t

  abbrev LeftIsWellFormed : Option (Tree V) → Type 0
  LeftIsWellFormed none = Unit
  LeftIsWellFormed (some t) = WellFormed t

  record Found (t : Tree V) (k : Key) (v : V) (rest : Option (Tree V)) : Type (ℓ ⊔ 1) where
    value : tree_get t k ≡ some v
    others : (j : Key) → get_left rest j ≡ (if str_eq j k then none else tree_get t j)
    well_formed : LeftIsWellFormed rest
    keys : (P : Key → Type 0) → AllKeys P t → AllLeft P rest

  -- What a walk has found for `k` in `t`.
  data Removed (t : Tree V) (k : Key) : Option (V × Option (Tree V)) → Type (ℓ ⊔ 1) where
    missing : tree_get t k ≡ none → Removed t k none
    found : {v : V} {rest : Option (Tree V)} → Found t k v rest → Removed t k (some (v, rest))

  module _ (n b : ℕ) (l r : Tree V) (k : Key) (wf : WellFormed (node n b l r)) where
    get_right : direction k n b ≡ true → tree_get (node n b l r) k ≡ tree_get r k
    get_right d = tree_get-node n b l r k ∙ rw d

    get_other : (j : Key) → direction k n b ≡ true → direction j n b ≡ false → str_eq j k ≡ false
    get_other j d f = other_side j k n b (f ∙ ap not (sym d))

    right_gone : (j : Key) → direction j n b ≡ true → tree_get l j ≡ none
    right_gone j f = tree_get-none l j n b (AllKeys-map _ _ l (λ x e. f ∙ ap not (sym e)) wf.1)

    raise_right-Removed :
        (x : Option (V × Option (Tree V)))
        → direction k n b ≡ true
        → Removed r k x
        → Removed (node n b l r) k (raise_found x (λ t. node n b l t) l)
    raise_right-Removed none d (missing e) = missing (get_right d ∙ e)
    raise_right-Removed (some (v, none)) d (found f) = found {v = v} {rest = some l} (record {
      value = get_right d ∙ f.value;
      others = λ j. elim (Bool-cases (direction j n b)) [
        | inl e ↦ right_gone j e ∙ f.others j ∙ rw (tree_get-node n b l r j, e)
        | inr e ↦ rw (tree_get-node n b l r j, e, get_other j d e)
      ];
      well_formed = wf.4;
      keys = λ P a. a.0;
    })
    raise_right-Removed (some (v, some t)) d (found f) =
        found {v = v} {rest = some (node n b l t)} (record {
          value = get_right d ∙ f.value;
          others = λ j. elim (Bool-cases (direction j n b)) [
            | inl e ↦ rw (tree_get-node n b l t j, tree_get-node n b l r j, e) (f.others j)
            | inr e ↦ rw (tree_get-node n b l t j, tree_get-node n b l r j, e, get_other j d e)
          ];
          well_formed = (
            wf.0,
            wf.1,
            f.keys _ wf.2,
            (wf.3.0, (wf.3.1.0, f.keys _ wf.3.1.1)),
            wf.4,
            f.well_formed,
          );
          keys = λ P a. (a.0, f.keys P a.1);
        })

    get_into_left : direction k n b ≡ false → tree_get (node n b l r) k ≡ tree_get l k
    get_into_left d = tree_get-node n b l r k ∙ rw d

    get_beside : (j : Key) → direction k n b ≡ false → direction j n b ≡ true → str_eq j k ≡ false
    get_beside j d f = other_side j k n b (f ∙ ap not (sym d))

    left_gone : (j : Key) → direction j n b ≡ false → tree_get r j ≡ none
    left_gone j f = tree_get-none r j n b (AllKeys-map _ _ r (λ x e. f ∙ ap not (sym e)) wf.2)

    raise_left-Removed :
        (x : Option (V × Option (Tree V)))
        → direction k n b ≡ false
        → Removed l k x
        → Removed (node n b l r) k (raise_found x (λ t. node n b t r) r)
    raise_left-Removed none d (missing e) = missing (get_into_left d ∙ e)
    raise_left-Removed (some (v, none)) d (found f) = found {v = v} {rest = some r} (record {
      value = get_into_left d ∙ f.value;
      others = λ j. elim (Bool-cases (direction j n b)) [
        | inr e ↦ left_gone j e ∙ f.others j ∙ rw (tree_get-node n b l r j, e)
        | inl e ↦ rw (tree_get-node n b l r j, e, get_beside j d e)
      ];
      well_formed = wf.5;
      keys = λ P a. a.1;
    })
    raise_left-Removed (some (v, some t)) d (found f) =
        found {v = v} {rest = some (node n b t r)} (record {
          value = get_into_left d ∙ f.value;
          others = λ j. elim (Bool-cases (direction j n b)) [
            | inr e ↦ rw (tree_get-node n b t r j, tree_get-node n b l r j, e) (f.others j)
            | inl e ↦ rw (tree_get-node n b t r j, tree_get-node n b l r j, e, get_beside j d e)
          ];
          well_formed = (
            wf.0,
            f.keys _ wf.1,
            wf.2,
            (wf.3.0, (f.keys _ wf.3.1.0, wf.3.1.1)),
            f.well_formed,
            wf.5,
          );
          keys = λ P a. (f.keys P a.0, a.1);
        })

  delete_node-Removed : (t : Tree V) (k : Key) → WellFormed t → Removed t k (delete_node t k)
  unfolding delete_node
  delete_node-Removed (leaf c v) k wf = elim (Bool-cases (str_eq k c)) [
    | inl e ↦ rw e (
        found {v = v} {rest = none} (record {
          value = unfold tree_get closest in rw e;
          others = λ j. elim (Bool-cases (str_eq j k)) [
            | inl f ↦ rw f
            | inr f ↦ rw f (unfold tree_get closest in rw (← str_eq→eq k c e, f))
          ];
          well_formed = tt;
          keys = λ P a. tt;
        }))
    | inr e ↦ rw e (missing (unfold tree_get closest in rw e))
  ]
  delete_node-Removed (node n b l r) k wf = elim (Bool-cases (direction k n b)) [
    | inl d ↦
        rw (d, delete_node)
          (raise_right-Removed n b l r k wf (delete_node r k) d (delete_node-Removed r k wf.5))
    | inr d ↦
        rw (d, delete_node)
          (raise_left-Removed n b l r k wf (delete_node l k) d (delete_node-Removed l k wf.4))
  ]

  deleted-map_get :
      (t : Tree V) (k : Key) (x : Option (V × Option (Tree V)))
      → WellFormed t
      → Removed t k x
      → IsMap (deleted t x).1
        × ((deleted t x).0 ≡ tree_get t k)
        × ((j : Key) → map_get (deleted t x).1 j ≡ (if str_eq j k then none else tree_get t j))
  unfolding map_get
  deleted-map_get t k none wf (missing e) = (
    wf,
    sym e,
    λ j. elim (Bool-cases (str_eq j k)) [ inl f ↦ rw (f, str_eq→eq j k f) e | inr f ↦ rw f ],
  )
  deleted-map_get t k (some (v, none)) wf (found f) = (tt, sym f.value, f.others)
  deleted-map_get t k (some (v, some u)) wf (found f) = (f.well_formed, sym f.value, f.others)

  -- Deleting a key: the invariant is kept, the result is the value that the key had, if it had one,
  -- and afterwards the key has none, while every other key has the value that it had.
  pub map_delete-map_get :
      (m : Map V) (k : Key)
      → IsMap m
      → IsMap (map_delete m k).1
        × ((map_delete m k).0 ≡ map_get m k)
        × ((j : Key) → map_get (map_delete m k).1 j ≡ (if str_eq j k then none else map_get m j))
  unfolding map_delete map_get
  map_delete-map_get (empty v) k wf =
      (tt, refl, λ j. elim (Bool-cases (str_eq j k)) [ inl f ↦ rw f | inr f ↦ rw f ])
  map_delete-map_get (tree t) k wf =
      deleted-map_get t k (delete_node t k) wf (delete_node-Removed t k wf)
