-- ===== src/Util/Examples.antt =====
-- Strings, paths, capacities and numbers at small inputs (util.c, util.h).
use vis.Prelude.{
  inl, ℕ, ◌≡◌, ◌⊎◌, refl, if◌then◌else◌, true, false, Option, some, [], ◌∷◌, length, arith,
}
use vis.Util.{
  dot, Str8, str8_equal, slash, dot, path_split, vis_absolute_path, da_reserve, da_unordered_remove,
  da_ordered_remove, str8_trim_space, utf8_sequence_length, utf8_encode,
}
use vis.Util.Integers.{Flags, success, u64_max, integer_conversion}
use vis.Util.Conversion.{integer_conversion-negative_hex}
use vis.Util.Notation.{read_integer, integer_conversion-read_integer}
use vis.Util.Paths.{Whole, Rooted, Parted, path_split-parts, vis_absolute_path-rooted}
use vis.Util.Capacity.{Enough, da_reserve-Enough}
use vis.Util.Utf8.{WellFormed, code_point, utf8_encode-code_point}

abbrev no_flags : Flags
no_flags = record { no_auto_hex = false; force_hex = false }

abbrev forty_two : Str8
forty_two = 52 ∷ 50 ∷ 120 ∷ []

forty_two_read :
    integer_conversion forty_two no_flags
    ≡ record { result = success; as_u64 = 42; unparsed = 120 ∷ [] }
unfolding integer_conversion
forty_two_read = refl

-- "0x1F".
hex_read :
    integer_conversion (48 ∷ 120 ∷ 49 ∷ 70 ∷ []) no_flags
    ≡ record { result = success; as_u64 = 31; unparsed = [] }
unfolding integer_conversion
hex_read = refl

-- "-1", which wraps around.
negative_read :
    integer_conversion (45 ∷ 49 ∷ []) no_flags
    ≡ record { result = success; as_u64 = u64_max; unparsed = [] }
unfolding integer_conversion
negative_read = refl

integer_conversion-read_integer_example :
    integer_conversion forty_two no_flags ≡ read_integer forty_two no_flags
integer_conversion-read_integer_example =
    integer_conversion-read_integer forty_two no_flags
      (omega arith, (omega arith, (omega arith, tt)))

integer_conversion-negative_hex_example :
    integer_conversion (45 ∷ 48 ∷ 120 ∷ 70 ∷ []) no_flags
    ≡ record { result = success; as_u64 = 0; unparsed = 120 ∷ 70 ∷ [] }
integer_conversion-negative_hex_example = integer_conversion-negative_hex (70 ∷ []) no_flags refl

abbrev a_b : Str8
a_b = 97 ∷ 47 ∷ 98 ∷ []

a_b_split : path_split a_b ≡ (97 ∷ [], 98 ∷ [])
unfolding path_split
a_b_split = refl

path_split-parts_example :
    Whole a_b (path_split a_b) ⊎ (Rooted a_b (path_split a_b) ⊎ Parted a_b (path_split a_b))
path_split-parts_example = path_split-parts a_b

-- The current directory is `/home`.
abbrev at_home : Str8 → Option Str8
at_home s = if str8_equal s dot then some (47 ∷ 104 ∷ 111 ∷ 109 ∷ 101 ∷ []) else some s

vis_absolute_path-rooted_example :
    vis_absolute_path at_home (λ n. true) (slash ∷ 97 ∷ [])
    ≡ vis_absolute_path at_home (λ n. true) (97 ∷ [])
vis_absolute_path-rooted_example =
    vis_absolute_path-rooted at_home (λ n. true) (97 ∷ []) (omega arith, tt)

da_reserve-Enough_example : Enough 0 17 (da_reserve 0 17)
da_reserve-Enough_example = da_reserve-Enough 0 17 (omega arith) (omega arith)

utf8_encode-code_point_example :
    WellFormed (utf8_encode 8364)
    × (length (utf8_encode 8364) ≡ utf8_sequence_length 8364)
    × (code_point (utf8_encode 8364) ≡ 8364)
utf8_encode-code_point_example = utf8_encode-code_point 8364 (inl (omega arith), omega arith)

removed :
    (da_unordered_remove {A = ℕ} (1 ∷ 2 ∷ 3 ∷ 4 ∷ []) 1 ≡ 1 ∷ 4 ∷ 3 ∷ [])
    × (da_ordered_remove {A = ℕ} (1 ∷ 2 ∷ 3 ∷ 4 ∷ []) 1 ≡ 1 ∷ 3 ∷ 4 ∷ [])
unfolding da_unordered_remove da_ordered_remove
removed = (refl, refl)

trimmed : str8_trim_space (32 ∷ 97 ∷ 32 ∷ 98 ∷ 9 ∷ []) ≡ 97 ∷ 32 ∷ 98 ∷ []
unfolding str8_trim_space
trimmed = refl
