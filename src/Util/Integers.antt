-- ===== src/Util/Integers.antt =====
-- `integer_conversion` (util.c).
use vis.Prelude.{
  ℕ, zero, suc, ◌+◌, ◌-◌, ◌*◌, ◌/◌, ◌%◌, ◌^◌, Bool, true, Option, none, some, [], ◌∷◌, length, drop,
  ltb, leb, ◌==◌, if◌then◌else◌, ◌&&◌, ◌||◌,
}
use vis.Util.{Str8}
use vis.Range.{c_min}

-- The results that the function has; it never returns `Invalid`.
pub data ConversionResult : Type 0 where
  invalid out_of_range success : ConversionResult

pub record Flags : Type 0 where
  pub no_auto_hex : Bool
  pub force_hex : Bool

pub record IntegerConversion : Type 0 where
  pub result : ConversionResult
  pub as_u64 : ℕ
  pub unparsed : Str8

abbrev pub u64_max : ℕ
u64_max = 2 ^ 64 - 1

-- The table `lut`, where `none` stands for -1.
unfoldable pub lut : ℕ → Option ℕ
lut n =
    if ltb n 10
    then some n
    else if leb 17 n && leb n 22
    then some (n - 7)
    else if leb 49 n && leb n 54
    then some (n - 39)
    else none

-- The index of a byte, its distance from '0' in 8 bits, and no more than `clamp`.
unfoldable pub digit : ℕ → ℕ → Option ℕ
unfolding lut
digit clamp c = lut (c_min ((c + 208) % 256) clamp)

-- `integer_conversion_body`: the number and the bytes that are left, `none` if it is out of range.
unfoldable pub convert : (radix clamp : ℕ) → Str8 → ℕ → Option (ℕ × Str8)
unfolding digit
convert radix clamp [] acc = some (acc, [])
convert radix clamp (c ∷ cs) acc = elim (digit clamp c) [
  | none ↦ some (acc, c ∷ cs)
  | some value ↦
      let rest = convert radix clamp cs ((radix * acc + value) % 2 ^ 64) in
      if ltb ((u64_max - value) / radix) acc then none else rest
]

abbrev pub at : Str8 → ℕ → ℕ
at [] i = 0
at (x ∷ xs) zero = x
at (x ∷ xs) (suc i) = at xs i

abbrev pub is_negative : Str8 → Bool
is_negative raw = ltb 0 (length raw) && at raw 0 == 45

-- Where the digits begin and whether they are hexadecimal. The second byte of the prefix is looked
-- for at 1, also behind a sign.
unfoldable pub prefix : Str8 → Flags → ℕ × Bool
prefix raw flags =
    let i = if is_negative raw then 1 else 0 in
    if flags.no_auto_hex
    then (i, flags.force_hex)
    else if ltb 2 (length raw - i) && (at raw i == 48 && (at raw 1 == 120 || at raw 1 == 88))
    then (i + 2, true)
    else if ltb 1 (length raw - i) && at raw i == 35
    then (i + 1, true)
    else (i, flags.force_hex)

-- What follows the loop.
abbrev pub converted : Str8 → Option (ℕ × Str8) → IntegerConversion
converted raw none = record { result = out_of_range; as_u64 = u64_max; unparsed = raw }
converted raw (some (n, rest)) = record {
  result = success;
  as_u64 = if is_negative raw then (2 ^ 64 - n) % 2 ^ 64 else n;
  unparsed = rest;
}

unfoldable pub integer_conversion : Str8 → Flags → IntegerConversion
unfolding prefix convert
integer_conversion raw flags =
    let (i, hex) = prefix raw flags in
    converted raw (if hex then convert 16 63 (drop i raw) 0 else convert 10 15 (drop i raw) 0)
