-- ===== src/Map/Lookup/Insert.antt =====
-- `map_get` after `map_put` (map.c).
use vis.Prelude.{
  ℕ, ◌≡◌, refl, sym, ap, ◌∙◌, subst, Bool, true, false, not, some, ◌==◌, ltb, if◌then◌else◌, ◌&&◌,
  ◌||◌, Bool-cases, inl, inr,
}
use vis.Map.{
  Key, Tree, leaf, node, byte_at, bit_of, direction, str_eq, closest, tree_get, branch, insert_node,
}
use vis.Map.Bits.{rank, direction-bit_of}
use vis.Map.WellFormed.{
  AllKeys-map, WellFormed, Opposed, AllOpposed, AllOpposed-later, place_later, closest-right,
  closest-left,
}
use vis.Map.Lookup.{other_side, tree_get-node, tree_get-none}

flip : (a b : Bool) → a ≡ not b → b ≡ not a
flip true true h = cc
flip true false h = refl
flip false true h = refl
flip false false h = cc

module _ {ℓ} {V : Type ℓ} where
  tree_get-branch :
      (k : Key) (v : V) (n b : ℕ) (t : Tree V) (j : Key)
      → AllOpposed k n b t
      → tree_get (branch k v n b t) j ≡ (if str_eq j k then some v else tree_get t j)
  unfolding branch tree_get
  tree_get-branch k v n b t j all = elim (Bool-cases (bit_of (byte_at k n) b)) [
    | inl e ↦
        let d = direction-bit_of k n b ∙ e in
        elim (Bool-cases (direction j n b)) [
          | inl f ↦
              let gone =
                tree_get-none t j n b (AllKeys-map _ _ t (λ x o. f ∙ sym d ∙ flip _ _ o.0) all) in
              rw e (tree_get-node n b t (leaf k v) j ∙ rw (f, gone))
          | inr f ↦
              rw (e, other_side j k n b (f ∙ ap not (sym d)))
                (tree_get-node n b t (leaf k v) j ∙ rw f)
        ]
    | inr e ↦
        let d = direction-bit_of k n b ∙ e in
        elim (Bool-cases (direction j n b)) [
          | inr f ↦
              let gone =
                tree_get-none t j n b (AllKeys-map _ _ t (λ x o. f ∙ sym d ∙ flip _ _ o.0) all) in
              rw e (tree_get-node n b (leaf k v) t j ∙ rw (f, gone))
          | inl f ↦
              rw (e, other_side j k n b (f ∙ ap not (sym d)))
                (tree_get-node n b (leaf k v) t j ∙ rw f)
        ]
  ]

  pub tree_get-insert_node :
      (t : Tree V) (k : Key) (v : V) (n b : ℕ) (j : Key)
      → WellFormed t
      → Opposed (closest t k).0 k n b
      → tree_get (insert_node t k v n b) j ≡ (if str_eq j k then some v else tree_get t j)
  unfolding insert_node closest
  tree_get-insert_node (leaf c w) k v n b j wf o =
      tree_get-branch k v n b (leaf c w) j (o.1, (λ i l. sym (o.2 i l)))
  tree_get-insert_node (node m c l r) k v n b j wf o =
      elim (Bool-cases (ltb n m || (m == n && ltb c b))) [
        | inl e ↦
            rw (e, insert_node)
              (tree_get-branch k v n b (node m c l r) j (
                AllOpposed-later (node m c l r) k n b (rank m c) wf.3.0 wf.3.1
                  (place_later n b m c o.0 wf.0 e) o))
        | inr e ↦ elim (Bool-cases (direction k m c)) [
          | inl d ↦
              let ih =
                tree_get-insert_node r k v n b j wf.5
                  (subst (λ z. Opposed z.0 k n b) (closest-right m c l r k d) o) in
              elim (Bool-cases (direction j m c)) [
                | inl f ↦
                    rw (e, d, insert_node)
                      (tree_get-node m c l _ j ∙ rw (tree_get-node m c l r j, f) ih)
                | inr f ↦
                    rw (e, d, insert_node)
                      (tree_get-node m c l _ j
                        ∙ rw (tree_get-node m c l r j, f, other_side j k m c (f ∙ ap not (sym d))))
              ]
          | inr d ↦
              let ih =
                tree_get-insert_node l k v n b j wf.4
                  (subst (λ z. Opposed z.0 k n b) (closest-left m c l r k d) o) in
              elim (Bool-cases (direction j m c)) [
                | inr f ↦
                    rw (e, d, insert_node)
                      (tree_get-node m c _ r j ∙ rw (tree_get-node m c l r j, f) ih)
                | inl f ↦
                    rw (e, d, insert_node)
                      (tree_get-node m c _ r j
                        ∙ rw (tree_get-node m c l r j, f, other_side j k m c (f ∙ ap not (sym d))))
              ]
        ]
      ]
