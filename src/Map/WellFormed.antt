-- ===== src/Map/WellFormed.antt =====
-- The invariant of the crit-bit tree, and that insertion and deletion keep it (map.c).
use vis.Prelude.{
  ℕ, ◌≤◌, ◌<◌, ◌≡◌, refl, sym, ap, ◌∙◌, subst, true, false, not, ltb, ◌==◌, ◌&&◌, ◌||◌, arith,
  Bool-cases, inl, inr,
}
use vis.Map.{Key, Tree, leaf, node, byte_at, bit_of, direction, closest, branch, insert_node}
use vis.Map.Bits.{IsKey, Agree, rank, direction-rank, direction-bit_of}

-- A key `c` parts from `k` at a place.
abbrev pub Opposed : Key → Key → ℕ → ℕ → Type 0
Opposed c k n b = (b < 8) × (direction c n b ≡ not (direction k n b)) × Agree (rank n b) c k

-- The test of the walk compares places.
pub place_later :
    (n b m c : ℕ) → b < 8 → c < 8 → (ltb n m || (m == n && ltb c b)) ≡ true → rank n b < rank m c
place_later n b m c h k e = ground arith

pub place_not_later :
    (n b m c : ℕ) → b < 8 → c < 8 → (ltb n m || (m == n && ltb c b)) ≡ false → rank m c ≤ rank n b
place_not_later n b m c h k e = ground arith

module _ {ℓ} {V : Type ℓ} where
  -- Every key of a tree.
  abbrev pub AllKeys : (Key → Type 0) → Tree V → Type 0
  AllKeys P (leaf k v) = P k
  AllKeys P (node n b l r) = AllKeys P l × AllKeys P r

  -- The keys of the two children part at the place of their node, and agree before it.
  abbrev pub WellFormed : Tree V → Type 0
  WellFormed (leaf k v) = IsKey k
  WellFormed (node n b l r) =
      (b < 8)
      × AllKeys (λ k. direction k n b ≡ false) l
      × AllKeys (λ k. direction k n b ≡ true) r
      × ((c : Key) × AllKeys (Agree (rank n b) c) (node n b l r))
      × WellFormed l
      × WellFormed r

  pub AllKeys-map :
      (P Q : Key → Type 0) (t : Tree V) → ((k : Key) → P k → Q k) → AllKeys P t → AllKeys Q t
  AllKeys-map P Q (leaf k v) f h = f k h
  AllKeys-map P Q (node n b l r) f h = (AllKeys-map P Q l f h.0, AllKeys-map P Q r f h.1)

  -- The item that a search ends at is one of the tree's.
  pub AllKeys-closest : (P : Key → Type 0) (t : Tree V) (k : Key) → AllKeys P t → P (closest t k).0
  unfolding closest
  AllKeys-closest P (leaf c v) k h = h
  AllKeys-closest P (node n b l r) k h = elim (Bool-cases (direction k n b)) [
    | inl e ↦ rw (e, closest) (AllKeys-closest P r k h.1)
    | inr e ↦ rw (e, closest) (AllKeys-closest P l k h.0)
  ]

  pub AllKeys-IsKey : (t : Tree V) → WellFormed t → AllKeys IsKey t
  AllKeys-IsKey (leaf k v) w = w
  AllKeys-IsKey (node n b l r) w = (AllKeys-IsKey l w.4, AllKeys-IsKey r w.5)

  AllKeys-branch :
      (P : Key → Type 0) (k : Key) (v : V) (n b : ℕ) (t : Tree V)
      → P k
      → AllKeys P t
      → AllKeys P (branch k v n b t)
  unfolding branch
  AllKeys-branch P k v n b t h a = elim (Bool-cases (bit_of (byte_at k n) b)) [
    | inl e ↦ rw e (a, h)
    | inr e ↦ rw e (h, a)
  ]

  pub AllKeys-insert_node :
      (P : Key → Type 0) (t : Tree V) (k : Key) (v : V) (n b : ℕ)
      → P k
      → AllKeys P t
      → AllKeys P (insert_node t k v n b)
  unfolding insert_node
  AllKeys-insert_node P (leaf c w) k v n b h a = AllKeys-branch P k v n b (leaf c w) h a
  AllKeys-insert_node P (node m c l r) k v n b h a =
      elim (Bool-cases (ltb n m || (m == n && ltb c b))) [
        | inl e ↦ rw (e, insert_node) (AllKeys-branch P k v n b (node m c l r) h a)
        | inr e ↦ elim (Bool-cases (direction k m c)) [
          | inl d ↦ rw (e, d, insert_node) (a.0, AllKeys-insert_node P r k v n b h a.1)
          | inr d ↦ rw (e, d, insert_node) (AllKeys-insert_node P l k v n b h a.0, a.1)
        ]
      ]

  pub closest-right :
      (m c : ℕ) (l r : Tree V) (k : Key)
      → direction k m c ≡ true
      → closest (node m c l r) k ≡ closest r k
  unfolding closest
  closest-right m c l r k e = rw (e, closest)

  pub closest-left :
      (m c : ℕ) (l r : Tree V) (k : Key)
      → direction k m c ≡ false
      → closest (node m c l r) k ≡ closest l k
  unfolding closest
  closest-left m c l r k e = rw (e, closest)

  -- All keys of a tree part from `k` at a place.
  abbrev pub AllOpposed : Key → ℕ → ℕ → Tree V → Type 0
  AllOpposed k n b t =
      AllKeys (λ x. (direction x n b ≡ not (direction k n b)) × Agree (rank n b) k x) t

  -- In a tree whose keys agree up to beyond a place, all part from `k` there if the closest one does.
  pub AllOpposed-later :
      (t : Tree V) (k : Key) (n b q : ℕ) (e : Key)
      → AllKeys (Agree q e) t
      → rank n b < q
      → Opposed (closest t k).0 k n b
      → AllOpposed k n b t
  AllOpposed-later t k n b q e all lt o =
      let near = AllKeys-closest (Agree q e) t k all in
      AllKeys-map (Agree q e) _ t
        (λ x h. (
          direction-rank x n b o.0
              ∙ sym (h (rank n b) lt)
              ∙ near (rank n b) lt
              ∙ sym (direction-rank (closest t k).0 n b o.0)
              ∙ o.1,
          λ j l. sym (o.2 j l) ∙ sym (near j (omega arith)) ∙ h j (omega arith),
        ))
        all

  WellFormed-branch :
      (k : Key) (v : V) (n b : ℕ) (t : Tree V)
      → IsKey k
      → b < 8
      → AllOpposed k n b t
      → WellFormed t
      → WellFormed (branch k v n b t)
  unfolding branch
  WellFormed-branch k v n b t hk h all w = elim (Bool-cases (bit_of (byte_at k n) b)) [
    | inl e ↦
        let d = direction-bit_of k n b ∙ e in
        rw e (
          h,
          AllKeys-map _ _ t (λ x o. o.0 ∙ ap not d) all,
          d,
          (k, (AllKeys-map _ _ t (λ x o. o.1) all, λ j l. refl)),
          w,
          hk,
        )
    | inr e ↦
        let d = direction-bit_of k n b ∙ e in
        rw e (
          h,
          d,
          AllKeys-map _ _ t (λ x o. o.0 ∙ ap not d) all,
          (k, ((λ j l. refl), AllKeys-map _ _ t (λ x o. o.1) all)),
          hk,
          w,
        )
  ]

  pub WellFormed-insert_node :
      (t : Tree V) (k : Key) (v : V) (n b : ℕ)
      → IsKey k
      → WellFormed t
      → Opposed (closest t k).0 k n b
      → WellFormed (insert_node t k v n b)
  unfolding insert_node closest
  WellFormed-insert_node (leaf c w) k v n b hk wf o =
      WellFormed-branch k v n b (leaf c w) hk o.0 (o.1, (λ j l. sym (o.2 j l))) wf
  WellFormed-insert_node (node m c l r) k v n b hk wf o =
      elim (Bool-cases (ltb n m || (m == n && ltb c b))) [
        | inl e ↦
            rw (e, insert_node)
              (WellFormed-branch k v n b (node m c l r) hk o.0
                (AllOpposed-later (node m c l r) k n b (rank m c) wf.3.0 wf.3.1
                  (place_later n b m c o.0 wf.0 e) o)
                wf)
        | inr e ↦
            let le = place_not_later n b m c o.0 wf.0 e in
            let near = AllKeys-closest (Agree (rank m c) wf.3.0) (node m c l r) k wf.3.1 in
            let here : Agree (rank m c) wf.3.0 k = λ j h. near j h ∙ o.2 j (omega arith) in
            elim (Bool-cases (direction k m c)) [
              | inl d ↦
                  rw (e, d, insert_node)
                    (
                      wf.0,
                      wf.1,
                      AllKeys-insert_node _ r k v n b d wf.2,
                      (wf.3.0, (wf.3.1.0, AllKeys-insert_node _ r k v n b here wf.3.1.1)),
                      wf.4,
                      WellFormed-insert_node r k v n b hk wf.5
                          (subst (λ z. Opposed z.0 k n b) (closest-right m c l r k d) o),
                    )
              | inr d ↦
                  rw (e, d, insert_node)
                    (
                      wf.0,
                      AllKeys-insert_node _ l k v n b d wf.1,
                      wf.2,
                      (wf.3.0, (AllKeys-insert_node _ l k v n b here wf.3.1.0, wf.3.1.1)),
                      WellFormed-insert_node l k v n b hk wf.4
                          (subst (λ z. Opposed z.0 k n b) (closest-left m c l r k d) o),
                      wf.5,
                    )
            ]
      ]
