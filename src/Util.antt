-- ===== src/Util.antt =====
-- util.c and util.h: strings with a length, given by their bytes, the splitting of paths, the
-- capacity of dynamic arrays and the encoding of code points.
pub mod Integers
pub mod Conversion
pub mod Notation
pub mod Paths
pub mod Capacity
pub mod Utf8
pub mod Examples
use vis.Prelude.{
  ℕ, zero, suc, ◌+◌, ◌-◌, ◌*◌, ◌/◌, ◌%◌, ◌^◌, Bool, true, false, Option, none, some, List, [], ◌∷◌,
  ◌++◌, length, take, drop, ltb, leb, ◌==◌, if◌then◌else◌, ◌&&◌, ◌||◌,
}
use vis.Range.{c_min}

abbrev pub Str8 : Type 0
Str8 = List ℕ

-- `memory_scan_forward`: the place of the first such byte.
unfoldable pub memory_scan_forward : Str8 → ℕ → Option ℕ
memory_scan_forward [] byte = none
memory_scan_forward (x ∷ xs) byte =
    let rest = memory_scan_forward xs byte in
    if x == byte then some 0 else (elim rest [ none ↦ none | some n ↦ some (suc n) ])

-- `memory_scan_reverse`: the place of the last such byte.
unfoldable pub memory_scan_reverse : Str8 → ℕ → Option ℕ
memory_scan_reverse [] byte = none
memory_scan_reverse (x ∷ xs) byte =
    let here = if x == byte then some 0 else none in
    elim (memory_scan_reverse xs byte) [ none ↦ here | some n ↦ some (suc n) ]

unfoldable pub str8_equal : Str8 → Str8 → Bool
str8_equal [] [] = true
str8_equal [] (y ∷ ys) = false
str8_equal (x ∷ xs) [] = false
str8_equal (x ∷ xs) (y ∷ ys) = x == y && str8_equal xs ys

unfoldable pub str8_is_prefix : Str8 → Str8 → Bool
unfolding str8_equal
str8_is_prefix prefix s =
    leb (length prefix) (length s) && str8_equal prefix (take (length prefix) s)

unfoldable pub str8_skip : Str8 → ℕ → Str8
str8_skip s count = drop (c_min count (length s)) s

-- `IsSpace`.
abbrev pub is_space : ℕ → Bool
is_space c = c == 32 || c == 9 || c == 10 || c == 13

unfoldable pub str8_skip_space : Str8 → Str8
str8_skip_space [] = []
str8_skip_space (x ∷ xs) = let rest = str8_skip_space xs in if is_space x then rest else x ∷ xs

-- The loop of `str8_trim_space` from the end.
unfoldable pub trim_end : Str8 → Str8
trim_end [] = []
trim_end (x ∷ xs) = elim (trim_end xs) [
  | [] ↦ if is_space x then [] else x ∷ []
  | y ∷ ys ↦ x ∷ y ∷ ys
]

unfoldable pub str8_trim_space : Str8 → Str8
unfolding str8_skip_space trim_end
str8_trim_space s = trim_end (str8_skip_space s)

-- `str8_split_at` where `none` stands for a place before the string.
unfoldable pub str8_split_at : Str8 → Option ℕ → Str8 × Str8
str8_split_at s none = (s, [])
str8_split_at s (some n) = if leb n (length s) then (take n s, drop (n + 1) s) else (s, [])

unfoldable pub str8_split : Str8 → ℕ → Str8 × Str8
unfolding str8_split_at memory_scan_forward
str8_split s byte = str8_split_at s (memory_scan_forward s byte)

-- `at <= 0`.
abbrev pub at_start : Option ℕ → Bool
at_start none = true
at_start (some n) = n == 0

abbrev pub is_empty : Str8 → Bool
is_empty [] = true
is_empty (x ∷ xs) = false

abbrev pub slash : ℕ
slash = 47

abbrev pub dot : Str8
dot = 46 ∷ []

-- What `path_split` does with the place that it has found.
unfoldable pub split_path_at : Str8 → Option ℕ → Str8 × Str8
unfolding str8_split_at
split_path_at path at =
    let (left, basename) = str8_split_at path at in
    let swapped = is_empty basename && at_start at in
    let base = if swapped then left else basename in
    let directory = if swapped then [] else left in
    (if is_empty directory then dot else directory, base)

-- `path_split` where both results are asked for, first the directory.
unfoldable pub path_split : Str8 → Str8 × Str8
unfolding split_path_at memory_scan_reverse
path_split path = split_path_at path (memory_scan_reverse path slash)

-- The result of `vis_absolute_path`: a path or none, where the directory fits the array that it is
-- copied to; else the copy is a write behind that array.
pub data AbsolutePath : Type 0 where
  returned : Option Str8 → AbsolutePath
  overflow : AbsolutePath

abbrev pub path_max : ℕ
path_max = 4096

-- What `realpath` makes of the directory, with the name behind it.
unfoldable pub joined_path : (ℕ → Bool) → Str8 → Option Str8 → Option Str8
unfolding str8_equal
joined_path malloc base none = none
joined_path malloc base (some resolved) =
    let root = if str8_equal resolved (slash ∷ []) then [] else resolved in
    if malloc (length base + length root + 1 + 1) then some (root ++ slash ∷ base) else none

-- What `vis_absolute_path` does with the directory and the name of a path.
unfoldable pub resolved_path : (Str8 → Option Str8) → (ℕ → Bool) → Str8 × Str8 → AbsolutePath
unfolding joined_path
resolved_path realpath malloc (dir, base) =
    if ltb (length dir) path_max
    then returned (joined_path malloc base (realpath dir))
    else overflow

-- `vis_absolute_path` of a name, where `realpath` resolves a directory and `malloc` may fail.
unfoldable pub vis_absolute_path : (Str8 → Option Str8) → (ℕ → Bool) → Str8 → AbsolutePath
unfolding path_split resolved_path
vis_absolute_path realpath malloc name = resolved_path realpath malloc (path_split name)

-- `da_unordered_remove` on the items up to `count`.
unfoldable pub da_unordered_remove {ℓ} : {A : Type ℓ} → List A → ℕ → List A
da_unordered_remove xs index =
    let last = length xs - 1 in
    if ltb index last
    then take index xs ++ (take 1 (drop last xs) ++ take (last - (index + 1)) (drop (index + 1) xs))
    else take last xs

-- `da_ordered_remove` on the items up to `count`.
unfoldable pub da_ordered_remove {ℓ} : {A : Type ℓ} → List A → ℕ → List A
da_ordered_remove xs index =
    if ltb index (length xs - 1)
    then take index xs ++ drop (index + 1) xs
    else take (length xs - 1) xs

-- The loop of `da_reserve_` on the capacity, a signed number of 32 bits: `none` where doubling it
-- would overflow, or where the fuel does not suffice.
unfoldable pub double_capacity : ℕ → ℕ → ℕ → Option ℕ
double_capacity zero cap needed = if ltb cap needed then none else some cap
double_capacity (suc fuel) cap needed =
    let rest = double_capacity fuel (cap * 2) needed in
    if ltb cap needed then (if ltb (cap * 2) (2 ^ 31) then rest else none) else some cap

-- `da_reserve_`: the new capacity.
unfoldable pub da_reserve : ℕ → ℕ → Option ℕ
da_reserve capacity needed = double_capacity 32 (if capacity == 0 then 16 else capacity) needed

unfoldable pub utf8_sequence_length : ℕ → ℕ
utf8_sequence_length cp =
    (if leb 65536 cp then 1 else 0)
    + (if leb 2048 cp then 1 else 0)
    + (if leb 128 cp then 1 else 0)
    + 1

-- `utf8_encode`: the bytes, where the low bits are masked and the marks of the first byte and of the
-- following ones set.
unfoldable pub utf8_encode : ℕ → List ℕ
utf8_encode cp =
    if leb cp 127
    then cp % 128 ∷ []
    else if leb cp 2047
    then (cp / 64 % 32 + 192) ∷ (cp % 64 + 128) ∷ []
    else if leb cp 65535
    then (cp / 4096 % 16 + 224) ∷ (cp / 64 % 64 + 128) ∷ (cp % 64 + 128) ∷ []
    else if leb cp 1114111
    then (cp / 262144 % 8 + 240)
      ∷ (cp / 4096 % 64 + 128)
      ∷ (cp / 64 % 64 + 128)
      ∷ (cp % 64 + 128)
      ∷ []
    else []

-- `round_up_to` on 64 bits.
unfoldable pub round_up_to : ℕ → ℕ → ℕ
round_up_to value multiple =
    if value % multiple == 0 then value else (value + (multiple - value % multiple)) % 2 ^ 64
