-- ===== src/Map/Examples.antt =====
-- The map at small examples, and what is left of a map whose last item was deleted (map.c).
use vis.Prelude.{ℕ, ◌≡◌, refl, true, none, some, [], ◌∷◌, if◌then◌else◌, arith}
use vis.Map.{
  Key, leaf, node, Map, tree, Memory, str_eq, map_get, map_put, map_delete, map_prefix, map_closest,
  or_value, absent,
}
use vis.Map.Laws.{IsMap, map_put-or_value}
use vis.Map.Leftover.{map_closest-map_delete}
use vis.Map.Lookup.Delete.{map_delete-map_get}

abbrev plenty : Memory
plenty = record { strdup = λ k. true; malloc = λ k. true }

abbrev ab : Key
ab = 97 ∷ 98 ∷ []

abbrev ac : Key
ac = 97 ∷ 99 ∷ []

abbrev just_b : Key
just_b = 98 ∷ []

abbrev one : Map ℕ
one = tree (leaf ab 1)

-- The first bytes of the keys differ in their lowest bit.
abbrev two : Map ℕ
two = tree (node 0 1 (leaf ab 1) (leaf just_b 2))

two_put : (map_put plenty one just_b 2).1 ≡ two
unfolding map_put
two_put = refl

one-IsMap : IsMap one
one-IsMap = ((omega arith, omega arith), ((omega arith, omega arith), tt))

two-IsMap : IsMap two
unfolding map_put
two-IsMap =
    (map_put-or_value plenty one just_b 2 refl refl ((omega arith, omega arith), tt) one-IsMap).0

map_put-or_value_example :
    IsMap (map_put plenty two ac 3).1
    × ((map_put plenty two ac 3).0 ≡ absent (map_get two ac))
    × ((j : Key)
        → map_get (map_put plenty two ac 3).1 j
          ≡ or_value (map_get two j) (if str_eq j ac then some 3 else none))
map_put-or_value_example =
    map_put-or_value plenty two ac 3 refl refl
      ((omega arith, omega arith), ((omega arith, omega arith), tt)) two-IsMap

map_delete-map_get_example :
    IsMap (map_delete two ab).1
    × ((map_delete two ab).0 ≡ map_get two ab)
    × ((j : Key) → map_get (map_delete two ab).1 j ≡ (if str_eq j ab then none else map_get two j))
map_delete-map_get_example = map_delete-map_get two ab two-IsMap

map_closest-map_delete_example : map_closest (map_delete one ab).1 ac ≡ some 1
map_closest-map_delete_example = map_closest-map_delete ab 1 ac

-- The three keys with the first byte of one of them.
prefixed :
    map_prefix (map_put plenty two ac 3).1 (97 ∷ []) ≡ tree (node 1 0 (leaf ab 1) (leaf ac 3))
unfolding map_prefix map_put
prefixed = refl
