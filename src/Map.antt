-- ===== src/Map.antt =====
-- map.c: a crit-bit tree that maps keys to values. A key is the list of the bytes of a C string, a
-- value any type, since the source stores pointers that are not `NULL`.
pub mod Bytes
pub mod Bits
pub mod WellFormed
pub mod Lookup
pub mod Laws
pub mod Leftover
pub mod Examples
use vis.Prelude.{
  ℕ, zero, suc, ◌+◌, ◌/◌, ◌%◌, ◌^◌, Bool, true, false, not, Option, none, some, List, [], ◌∷◌,
  length, ltb, ◌==◌, if◌then◌else◌, ◌&&◌, ◌||◌,
}
use Prim.Native.Nat.{bit_xor}

abbrev pub Key : Type 0
Key = List ℕ

-- An item with its key, or an internal node: the byte and the bit where its two children differ.
pub data Tree {ℓ} (V : Type ℓ) : Type ℓ where
  leaf : Key → V → Tree V
  node : (byte_num bit_num : ℕ) → Tree V → Tree V → Tree V

-- `struct Map`. Where `u` is `NULL` the map is empty, whatever `v` holds.
pub data Map {ℓ} (V : Type ℓ) : Type ℓ where
  empty : Option V → Map V
  tree : Tree V → Map V

-- `bytes[i]`, the terminator included.
abbrev pub byte_at : Key → ℕ → ℕ
byte_at [] i = 0
byte_at (x ∷ xs) zero = x
byte_at (x ∷ xs) (suc i) = byte_at xs i

-- `(c >> bit_num) & 1`.
abbrev pub bit_of : ℕ → ℕ → Bool
bit_of c b = c / 2 ^ b % 2 == 1

-- `direction`: whether a key is looked for in the second child.
unfoldable pub direction : Key → (byte_num bit_num : ℕ) → Bool
direction key n b = ltb n (length key) && bit_of (byte_at key n) b

-- `strcmp(a, b) == 0`.
abbrev pub str_eq : Key → Key → Bool
str_eq [] [] = true
str_eq [] (y ∷ ys) = false
str_eq (x ∷ xs) [] = false
str_eq (x ∷ xs) (y ∷ ys) = x == y && str_eq xs ys

-- `strncmp(a, prefix, strlen(prefix)) == 0`.
abbrev pub has_prefix : Key → Key → Bool
has_prefix [] a = true
has_prefix (y ∷ ys) [] = false
has_prefix (y ∷ ys) (x ∷ xs) = x == y && has_prefix ys xs

abbrev pub later_by_one : Option ℕ → Option ℕ
later_by_one none = none
later_by_one (some i) = some (i + 1)

-- The loop of `map_put` that compares two strings: where they differ, `none` if they do not.
unfoldable pub differ_at : Key → Key → Option ℕ
differ_at [] [] = none
differ_at [] (y ∷ ys) = some 0
differ_at (x ∷ xs) [] = some 0
differ_at (x ∷ xs) (y ∷ ys) = if x == y then later_by_one (differ_at xs ys) else some 0

-- `for (bit_num = 0; diff >>= 1; bit_num++);` on a byte.
unfoldable pub top_bit : ℕ → ℕ → ℕ
top_bit zero diff = 0
top_bit (suc k) diff = let rest = suc (top_bit k (diff / 2)) in if diff / 2 == 0 then 0 else rest

-- Which allocations succeed, `strdup` of the key and `malloc` of the node.
pub record Memory : Type 0 where
  pub strdup : Key → Bool
  pub malloc : Key → Bool

module _ {ℓ} {V : Type ℓ} where
  unfoldable pub closest : Tree V → Key → Key × V
  unfolding direction
  closest (leaf k v) key = (k, v)
  closest (node n b l r) key = elim (direction key n b) [
    | true ↦ closest r key
    | false ↦ closest l key
  ]

  unfoldable pub tree_get : Tree V → Key → Option V
  unfolding closest
  tree_get t key = let (k, v) = closest t key in if str_eq key k then some v else none

  unfoldable pub map_get : Map V → Key → Option V
  unfolding tree_get
  map_get (empty v) key = none
  map_get (tree t) key = tree_get t key

  -- The new node, with the new item on its side and `t` on the other.
  unfoldable pub branch : Key → V → (byte_num bit_num : ℕ) → Tree V → Tree V
  branch key v n b t =
      if bit_of (byte_at key n) b then node n b t (leaf key v) else node n b (leaf key v) t

  -- The walk to the place of the new node.
  unfoldable pub insert_node : Tree V → Key → V → (byte_num bit_num : ℕ) → Tree V
  unfolding branch direction
  insert_node (leaf k w) key v n b = branch key v n b (leaf k w)
  insert_node (node m c l r) key v n b =
      if ltb n m || (m == n && ltb c b)
      then branch key v n b (node m c l r)
      else elim (direction key m c) [
        | true ↦ node m c l (insert_node r key v n b)
        | false ↦ node m c (insert_node l key v n b) r
      ]

  -- What follows the comparison with the closest key `k`.
  unfoldable pub put_new : Memory → Tree V → Key → V → Key → Option ℕ → Bool × Map V
  unfolding insert_node top_bit
  put_new m t key v k none = (false, tree t)
  put_new m t key v k (some n) =
      if m.malloc key
      then (true, tree (insert_node t key v n (top_bit 8 (bit_xor (byte_at k n) (byte_at key n)))))
      else (false, tree t)

  -- `value` is not `NULL`.
  unfoldable pub map_put : Memory → Map V → Key → V → Bool × Map V
  unfolding put_new closest differ_at
  map_put m (empty w) key v = if m.strdup key then (true, tree (leaf key v)) else (false, empty w)
  map_put m (tree t) key v =
      let k = (closest t key).0 in
      if m.strdup key then put_new m t key v k (differ_at k key) else (false, tree t)

  -- The tree that is left of a child, or else the other child, raised to its parent.
  abbrev pub raise : (V × Option (Tree V)) → (Tree V → Tree V) → Tree V → V × Option (Tree V)
  raise (v, none) rebuild other = (v, some other)
  raise (v, some t) rebuild other = (v, some (rebuild t))

  abbrev pub raise_found :
      Option (V × Option (Tree V)) → (Tree V → Tree V) → Tree V → Option (V × Option (Tree V))
  raise_found none rebuild other = none
  raise_found (some r) rebuild other = some (raise r rebuild other)

  -- The walk of `map_delete`, if it finds the key: the value, and what is left of the tree.
  unfoldable pub delete_node : Tree V → Key → Option (V × Option (Tree V))
  unfolding direction
  delete_node (leaf k v) key = if str_eq key k then some (v, none) else none
  delete_node (node n b l r) key = elim (direction key n b) [
    | true ↦ raise_found (delete_node r key) (λ t. node n b l t) l
    | false ↦ raise_found (delete_node l key) (λ t. node n b t r) r
  ]

  -- The last item leaves its value behind: only `u` is set to `NULL`.
  abbrev pub deleted : Tree V → Option (V × Option (Tree V)) → Option V × Map V
  deleted t none = (none, tree t)
  deleted t (some (v, none)) = (some v, empty (some v))
  deleted t (some (v, some t')) = (some v, tree t')

  unfoldable pub map_delete : Map V → Key → Option V × Map V
  unfolding delete_node
  map_delete (empty v) key = (none, empty v)
  map_delete (tree t) key = deleted t (delete_node t key)

  -- `iterate` with a handler that changes a state and says whether to go on.
  unfoldable pub iterate {κ} : {S : Type κ} → (Key → V → S → Bool × S) → Tree V → S → Bool × S
  iterate handle (leaf k v) s = handle k v s
  iterate handle (node n b l r) s =
      let first = iterate handle l s in
      let rest = iterate handle r first.1 in if first.0 then rest else first

  unfoldable pub map_iterate {κ} : {S : Type κ} → (Key → V → S → Bool × S) → Map V → S → S
  unfolding iterate
  map_iterate handle (empty v) s = s
  map_iterate handle (tree t) s = (iterate handle t s).1

  -- `first` and `map_first`: the first item of the iteration.
  unfoldable pub map_first : Map V → Option (Key × V)
  unfolding map_iterate
  map_first m = map_iterate (λ k v s. (false, some (k, v))) m none

  -- The walk of `map_prefix`: the key it ends at, and the last node that a byte of the prefix led to.
  unfoldable pub prefix_walk : Tree V → Key → (top : Tree V) → Key × Tree V
  unfolding direction
  prefix_walk (leaf k v) prefix top = (k, top)
  prefix_walk (node n b l r) prefix top =
      let inside = ltb n (length prefix) && not (byte_at prefix n == 0) in
      elim (direction prefix n b) [
        | true ↦ prefix_walk r prefix (if inside then r else top)
        | false ↦ prefix_walk l prefix (if inside then l else top)
      ]

  unfoldable pub map_prefix : Map V → Key → Map V
  unfolding prefix_walk
  map_prefix (empty v) prefix = empty v
  map_prefix (tree t) prefix =
      let (k, top) = prefix_walk t prefix t in if has_prefix prefix k then tree top else empty none

  -- `map->v`.
  abbrev pub value_of : Map V → Option V
  value_of (empty v) = v
  value_of (tree (leaf k v)) = some v
  value_of (tree (node n b l r)) = none

  abbrev pub or_value : Option V → Option V → Option V
  or_value none w = w
  or_value (some v) w = some v

  abbrev pub absent : Option V → Bool
  absent none = true
  absent (some v) = false

  unfoldable pub map_closest : Map V → Key → Option V
  unfolding map_get map_prefix
  map_closest m prefix = or_value (map_get m prefix) (value_of (map_prefix m prefix))

  unfoldable pub map_clear : Map V → Map V
  map_clear m = empty none

  unfoldable pub map_empty : Map V → Bool
  map_empty (empty v) = true
  map_empty (tree t) = false

  abbrev pub map_new : Map V
  map_new = empty none

  module _ (same : V → V → Bool) (m : Memory) where
    abbrev pub is_value : Option V → V → Bool
    is_value none v = false
    is_value (some w) v = same w v

    -- One item of `copy`: a key that is there with another value is put anew.
    unfoldable pub copy_item : Map V → Key → V → Bool × Map V
    unfolding map_put map_get map_delete
    copy_item dest k v =
        let (done, dest') = map_put m dest k v in
        if not done && not (is_value (map_get dest' k) v)
        then map_put m (map_delete dest' k).1 k v
        else (true, dest')

    unfoldable pub copy : Tree V → Map V → Bool × Map V
    unfolding copy_item
    copy (leaf k v) dest = copy_item dest k v
    copy (node n b l r) dest =
        let first = copy l dest in let rest = copy r first.1 in if first.0 then rest else first

    unfoldable pub map_copy : Map V → Map V → Bool × Map V
    unfolding copy
    map_copy dest (empty v) = (true, dest)
    map_copy dest (tree t) = copy t dest
