-- ===== src/Map/Laws.antt =====
-- `map_put` and `map_delete` as operations on the function from keys to values (map.c).
use vis.Prelude.{
  ℕ, ◌≡◌, refl, sym, ◌∙◌, subst, Bool, true, false, Option, none, some, if◌then◌else◌, Bool-cases,
  inl, inr, arith,
}
use vis.Map.{
  Key, Tree, Map, empty, tree, Memory, str_eq, closest, differ_at, tree_get, map_get, insert_node,
  put_new, map_put, or_value, absent,
}
use vis.Map.Bits.{IsKey, str_eq→eq, str_eq_iff, differ_at-same, differ_at-Parts}
use vis.Map.WellFormed.{AllKeys-closest, AllKeys-IsKey, WellFormed, WellFormed-insert_node, Opposed}
use vis.Map.Lookup.Insert.{tree_get-insert_node}

module _ {ℓ} {V : Type ℓ} where
  abbrev pub IsMap : Map V → Type 0
  IsMap (empty v) = Unit
  IsMap (tree t) = WellFormed t

  or_value-none : (o : Option V) → or_value o none ≡ o
  or_value-none none = refl
  or_value-none (some v) = refl

  -- What a `map_put` of `v` under `k` has done.
  abbrev Put : Map V → Key → V → Bool × Map V → Type ℓ
  Put m k v r =
      IsMap r.1
      × (r.0 ≡ absent (map_get m k))
      × ((j : Key) → map_get r.1 j ≡ or_value (map_get m j) (if str_eq j k then some v else none))

  -- A key that is there keeps its value.
  present-Put :
      (t : Tree V) (k : Key) (v : V)
      → WellFormed t
      → str_eq k (closest t k).0 ≡ true
      → Put (tree t) k v (false, tree t)
  unfolding map_get tree_get
  present-Put t k v wf e = (
    wf,
    rw e,
    λ j. elim (Bool-cases (str_eq j k)) [
      | inl f ↦ let same : j ≡ k = str_eq→eq j k f in rw same (rw e)
      | inr f ↦ rw f (sym (or_value-none (tree_get t j)))
    ],
  )

  absent-Put :
      (t : Tree V) (k : Key) (v : V) (n b : ℕ)
      → IsKey k
      → WellFormed t
      → str_eq k (closest t k).0 ≡ false
      → Opposed (closest t k).0 k n b
      → Put (tree t) k v (true, tree (insert_node t k v n b))
  unfolding map_get
  absent-Put t k v n b hk wf e o =
      let gone : tree_get t k ≡ none = unfold tree_get in rw e in
      (
        WellFormed-insert_node t k v n b hk wf o,
        rw gone,
        λ j. elim (Bool-cases (str_eq j k)) [
          | inl f ↦
              let same : j ≡ k = str_eq→eq j k f in
              tree_get-insert_node t k v n b j wf o ∙ rw (f, same, gone)
          | inr f ↦
              tree_get-insert_node t k v n b j wf o ∙ rw f (sym (or_value-none (tree_get t j)))
        ],
      )

  -- Putting a value under a key, with allocations that succeed: the invariant is kept, the result
  -- tells whether the key was absent, and then, and only then, the key has the new value afterwards;
  -- every other key has the one that it had.
  pub map_put-or_value :
      (mem : Memory) (m : Map V) (k : Key) (v : V)
      → mem.strdup k ≡ true
      → mem.malloc k ≡ true
      → IsKey k
      → IsMap m
      → IsMap (map_put mem m k v).1
        × ((map_put mem m k v).0 ≡ absent (map_get m k))
        × ((j : Key)
            → map_get (map_put mem m k v).1 j
              ≡ or_value (map_get m j) (if str_eq j k then some v else none))
  unfolding map_put put_new
  map_put-or_value mem (empty w) k v s a hk wf =
      rw s (hk, unfold map_get in refl, λ j. unfold map_get tree_get closest in refl)
  map_put-or_value mem (tree t) k v s a hk wf =
      let c = (closest t k).0 in
      elim (Bool-cases (str_eq k c)) [
        | inl e ↦
            let same : differ_at c k ≡ none =
              subst (λ z. differ_at z k ≡ none) (str_eq→eq k c e) (differ_at-same k) in
            rw (s, same) (present-Put t k v wf e)
        | inr e ↦
            let p =
              differ_at-Parts c k (AllKeys-closest IsKey t k (AllKeys-IsKey t wf)) hk
                (λ f. ground (arith, e, (str_eq_iff k c).1 (sym f))) in
            rw (s, p.1.found, a)
              (absent-Put t k v p.0 _ hk wf e (p.1.is_bit, p.1.opposite, p.1.agree))
      ]
