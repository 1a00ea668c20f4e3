-- ===== src/Util/Notation.antt =====
-- How numbers are written, and that `integer_conversion` of util.c reads them so.
use vis.Prelude.{
  All-right, take, take-append-drop, subst, Option-cases, All, ℕ, suc, ◌+◌, ◌-◌, ◌*◌, ◌%◌, ◌^◌, ◌<◌,
  ◌≡◌, refl, sym, ap, ◌∙◌, Bool, true, false, Option, none, some, List, [], ◌∷◌, drop, leb, not,
  ◌==◌, if◌then◌else◌, ◌&&◌, ◌||◌, length, Bool-cases, inl, inr, arith,
}
use native.Mathlib.Nat.{pow-suc, add_assoc}
use vis.Util.{Str8}
use vis.Util.Integers.{
  IntegerConversion, Flags, u64_max, digit, lut, prefix, converted, integer_conversion, success,
  out_of_range, is_negative,
}
use vis.Util.Conversion.{digits, horner, radix_of, clamp_of, bounded, integer_conversion-converted}

-- The value of a digit, by its character.
abbrev digit_value : (hex : Bool) → ℕ → Option ℕ
digit_value hex c =
    if leb 48 c && leb c 57
    then some (c - 48)
    else if hex && (leb 65 c && leb c 70)
    then some (c - 55)
    else if hex && (leb 97 c && leb c 102)
    then some (c - 87)
    else none

digit-digit_value : (hex : Bool) (c : ℕ) → c < 256 → digit (clamp_of hex) c ≡ digit_value hex c
unfolding digit lut
digit-digit_value true c h = ground arith
digit-digit_value false c h = ground arith

-- The values of the digits that a string begins with, and what is behind them.
read_digits : (hex : Bool) → Str8 → List ℕ × Str8
read_digits hex [] = ([], [])
read_digits hex (c ∷ cs) = elim (digit_value hex c) [
  | none ↦ ([], c ∷ cs)
  | some v ↦ let (ds, rest) = read_digits hex cs in (v ∷ ds, rest)
]

digits-read_digits :
    (hex : Bool) (s : Str8) → All (λ c. c < 256) s → digits (clamp_of hex) s ≡ read_digits hex s
unfolding digits read_digits
digits-read_digits hex [] h = refl
digits-read_digits hex (c ∷ cs) h = elim (Option-cases (digit_value hex c)) [
  | inl e ↦ rw (digits, read_digits, digit-digit_value hex c h.0, e) refl
  | inr (v, e) ↦
      rw (digits, read_digits, digit-digit_value hex c h.0, e, digits-read_digits hex cs h.1) refl
]

-- Whether a minus sign comes first, and what is behind it.
abbrev split_sign : Str8 → Bool × Str8
split_sign [] = (false, [])
split_sign (x ∷ s) = if x == 45 then (true, s) else (false, x ∷ s)

-- Whether the digits are hexadecimal, and where they begin: `0x` or `0X` before a further byte says so,
-- but not behind a sign, and `#` before a further byte does.
abbrev split_marker : Flags → (negative : Bool) → Str8 → Bool × Str8
split_marker flags negative [] = (flags.force_hex, [])
split_marker flags negative (a ∷ []) = (flags.force_hex, a ∷ [])
split_marker flags negative (a ∷ b ∷ []) =
    if not flags.no_auto_hex && a == 35 then (true, b ∷ []) else (flags.force_hex, a ∷ b ∷ [])
split_marker flags negative (a ∷ b ∷ c ∷ s) =
    if not flags.no_auto_hex && (not negative && (a == 48 && (b == 120 || b == 88)))
    then (true, c ∷ s)
    else if not flags.no_auto_hex && a == 35
    then (true, b ∷ c ∷ s)
    else (flags.force_hex, a ∷ b ∷ c ∷ s)

abbrev pub marked : Str8 → Flags → Bool × Str8
marked raw flags = let (negative, s) = split_sign raw in split_marker flags negative s

prefix-marked :
    (raw : Str8) (flags : Flags)
    → ((prefix raw flags).1 ≡ (marked raw flags).0)
      × (drop (prefix raw flags).0 raw ≡ (marked raw flags).1)
unfolding prefix
prefix-marked [] flags = (ground arith, ground arith)
prefix-marked (a ∷ []) flags = (ground arith, ground arith)
prefix-marked (a ∷ b ∷ []) flags = (ground arith, ground arith)
prefix-marked (a ∷ b ∷ c ∷ []) flags = (ground arith, ground arith)
prefix-marked (a ∷ b ∷ c ∷ d ∷ s) flags = (ground arith, ground arith)

-- The number that a string denotes, its last digit first: each counts one, and those before it ten or
-- sixteen times as much.
value_of : (hex : Bool) → List ℕ → ℕ
value_of hex [] = 0
value_of hex (d ∷ ds) = d * radix_of hex ^ length ds + value_of hex ds

weigh : (r acc d p : ℕ) → (r * acc + d) * p ≡ acc * (p * r) + d * p
weigh r acc d p = grind arith

horner-value_of :
    (hex : Bool) (acc : ℕ) (ds : List ℕ)
    → horner (radix_of hex) acc ds ≡ acc * radix_of hex ^ length ds + value_of hex ds
unfolding horner value_of
horner-value_of hex acc [] = grind arith
horner-value_of hex acc (d ∷ ds) =
    let p = radix_of hex ^ length ds in
    let w = weigh (radix_of hex) acc d p in
    let e : radix_of hex ^ suc (length ds) ≡ p * radix_of hex =
      pow-suc (radix_of hex) (length ds) in
    horner-value_of hex (radix_of hex * acc + d) ds
    ∙ ap (λ z. z + value_of hex ds) w
    ∙ add_assoc (acc * (p * radix_of hex)) (d * p) (value_of hex ds)
    ∙ ap (λ z. acc * z + (d * p + value_of hex ds)) (sym e)

-- What the string stands for: the number modulo 2 ^ 64 with its sign and the bytes behind the digits,
-- if 64 bits hold the number without its sign.
pub read_integer : Str8 → Flags → IntegerConversion
unfolding value_of read_digits
read_integer raw flags =
    let (hex, s) = marked raw flags in
    let (ds, rest) = read_digits hex s in
    let n = value_of hex ds in
    if leb n (2 ^ 64 - 1)
    then record {
      result = success;
      as_u64 = if (split_sign raw).0 then (2 ^ 64 - n) % 2 ^ 64 else n;
      unparsed = rest;
    }
    else record { result = out_of_range; as_u64 = 2 ^ 64 - 1; unparsed = raw }

is_negative-split_sign : (raw : Str8) → is_negative raw ≡ (split_sign raw).0
is_negative-split_sign [] = ground arith
is_negative-split_sign (x ∷ s) = ground arith

-- The result for digits `s` of radix 16 or 10.
read_from : Str8 → (hex : Bool) → Str8 → IntegerConversion
read_from raw hex s =
    converted raw
      (bounded (horner (radix_of hex) 0 (digits (clamp_of hex) s).0) (digits (clamp_of hex) s).1)

All-drop : (n : ℕ) (s : Str8) → All (λ c. c < 256) s → All (λ c. c < 256) (drop n s)
All-drop n s h = All-right (λ c. c < 256) (take n s) (drop n s) (rw (take-append-drop n s) h)

horner_zero : (hex : Bool) (ds : List ℕ) → horner (radix_of hex) 0 ds ≡ value_of hex ds
horner_zero hex ds = horner-value_of hex 0 ds ∙ omega arith

read_from-read_integer :
    (raw : Str8) (flags : Flags)
    → All (λ c. c < 256) (marked raw flags).1
    → read_from raw (marked raw flags).0 (marked raw flags).1 ≡ read_integer raw flags
unfolding read_from read_integer
read_from-read_integer raw flags h =
    let m = marked raw flags in
    rw (digits-read_digits (m.0) (m.1) h, horner_zero (m.0) (read_digits (m.0) (m.1)).0)
      (elim (Bool-cases (leb (value_of (m.0) (read_digits (m.0) (m.1)).0) u64_max)) [
        | inl e ↦ rw (e, is_negative-split_sign raw) refl
        | inr e ↦ rw e refl
      ])

-- Reading an integer from bytes gives what they stand for, with digits told by their characters, decimal
-- or, behind a marker or where the flags say so, hexadecimal: where 64 bits hold the number without its
-- sign, a success with that number, or behind a sign with 2 ^ 64 less the number, modulo 2 ^ 64, and
-- with the bytes behind the digits; else the result is out of range.
pub integer_conversion-read_integer :
    (raw : Str8) (flags : Flags)
    → All (λ c. c < 256) raw
    → integer_conversion raw flags ≡ read_integer raw flags
unfolding read_from
integer_conversion-read_integer raw flags h =
    integer_conversion-converted raw flags
    ∙ ap (λ hex. read_from raw hex (drop (prefix raw flags).0 raw)) (prefix-marked raw flags).0
    ∙ ap (read_from raw (marked raw flags).0) (prefix-marked raw flags).1
    ∙ read_from-read_integer raw flags (
        subst (All (λ c. c < 256)) (prefix-marked raw flags).1
          (All-drop (prefix raw flags).0 raw h))
