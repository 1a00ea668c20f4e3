-- ===== src/Map/Leftover.antt =====
-- What `map_closest` finds where `map_delete` has removed the last item (map.c).
use vis.Prelude.{◌≡◌, refl, some}
use vis.Map.{Key, leaf, tree, map_get, map_delete, delete_node, map_prefix, map_closest}
use vis.Map.Bits.{str_eq_iff}

module _ {ℓ} {V : Type ℓ} where
  -- The value of the only item is still found under every prefix after the item was deleted: only
  -- the key is forgotten.
  pub map_closest-map_delete :
      (k : Key) (v : V) (prefix : Key)
      → map_closest (map_delete (tree (leaf k v)) k).1 prefix ≡ some v
  unfolding map_closest map_delete delete_node map_get map_prefix
  map_closest-map_delete k v prefix = rw ((str_eq_iff k k).1 refl)
