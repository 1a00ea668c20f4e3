-- ===== src/Util/Conversion.antt =====
-- `integer_conversion` against the number that its digits denote (util.c).
use vis.Prelude.{
  ℕ, suc, ◌+◌, ◌-◌, ◌*◌, ◌/◌, ◌%◌, ◌^◌, ◌≤◌, ◌<◌, ◌≡◌, refl, sym, ap, Bool, true, false, Option,
  none, some, List, [], ◌∷◌, drop, ltb, ltb→lt, leb, if◌then◌else◌, ◌&&◌, lt→ltb, length,
  Bool-cases, inl, inr, arith,
}
use vis.Util.{Str8}
use vis.Range.{c_min}
use vis.Util.Integers.{
  Flags, u64_max, digit, lut, convert, prefix, converted, integer_conversion, success, is_negative,
}

-- The digits that a string begins with, and what is behind them.
unfoldable pub digits : ℕ → Str8 → List ℕ × Str8
digits clamp [] = ([], [])
digits clamp (c ∷ cs) = elim (digit clamp c) [
  | none ↦ ([], c ∷ cs)
  | some v ↦ let (ds, rest) = digits clamp cs in (v ∷ ds, rest)
]

-- The number that digits denote behind `acc`, without a bound.
unfoldable pub horner : ℕ → ℕ → List ℕ → ℕ
horner radix acc [] = acc
horner radix acc (d ∷ ds) = horner radix (radix * acc + d) ds

-- A number with the bytes behind it, if 64 bits hold it.
abbrev pub bounded : ℕ → Str8 → Option (ℕ × Str8)
bounded n rest = if leb n u64_max then some (n, rest) else none

lut-lt : (n v : ℕ) → lut n ≡ some v → v < 64
unfolding lut
lut-lt n v h = ground arith

bounded_fits : (n : ℕ) (rest : Str8) → n ≤ u64_max → bounded n rest ≡ some (n, rest)
bounded_fits n rest h = ground arith

bounded_above : (n : ℕ) (rest : Str8) → u64_max < n → bounded n rest ≡ none
bounded_above n rest h = ground arith

digit-lt : (clamp c v : ℕ) → digit clamp c ≡ some v → v < 64
unfolding digit
digit-lt clamp c v h = lut-lt (c_min ((c + 208) % 256) clamp) v h

module _ (radix : ℕ) (grows : (acc : ℕ) → acc ≤ radix * acc)
    (exact : (acc v : ℕ)
      → v < 64
      → ltb ((u64_max - v) / radix) acc ≡ ltb u64_max (radix * acc + v)) where
  horner_grows : (ds : List ℕ) (acc : ℕ) → acc ≤ horner radix acc ds
  unfolding horner
  horner_grows [] acc = omega arith
  horner_grows (d ∷ ds) acc = omega (arith, grows acc, horner_grows ds (radix * acc + d))

  -- One byte, with the conversion of the bytes behind it.
  convert_one :
      (clamp c : ℕ) (cs : Str8) (acc : ℕ) (d : Option ℕ)
      → acc ≤ u64_max
      → digit clamp c ≡ d
      → ((n : ℕ)
          → n ≤ u64_max
          → convert radix clamp cs n
            ≡ bounded (horner radix n (digits clamp cs).0) (digits clamp cs).1)
      → convert radix clamp (c ∷ cs) acc
        ≡ bounded (horner radix acc (digits clamp (c ∷ cs)).0) (digits clamp (c ∷ cs)).1
  unfolding convert horner digits
  convert_one clamp c cs acc none h e tail =
      rw (convert, digits, e) (sym (bounded_fits acc (c ∷ cs) h))
  convert_one clamp c cs acc (some v) h e tail =
      let lt = digit-lt clamp c v e in
      let n = radix * acc + v in
      rw (convert, digits, e)
        (elim (Bool-cases (ltb u64_max n)) [
          | inl f ↦
              rw (exact acc v lt, f)
                (sym (
                  bounded_above _ _
                    (omega (arith, ltb→lt _ _ f, horner_grows (digits clamp cs).0 n))))
          | inr f ↦
              let le : n ≤ u64_max = ground (arith, f) in
              let small : n % 2 ^ 64 ≡ n = omega arith in rw (exact acc v lt, f, small) (tail n le)
        ])

  convert-bounded :
      (clamp : ℕ) (s : Str8) (acc : ℕ)
      → acc ≤ u64_max
      → convert radix clamp s acc ≡ bounded (horner radix acc (digits clamp s).0) (digits clamp s).1
  unfolding convert horner digits
  convert-bounded clamp [] acc h = sym (bounded_fits acc [] h)
  convert-bounded clamp (c ∷ cs) acc h =
      convert_one clamp c cs acc (digit clamp c) h refl (convert-bounded clamp cs)

exact_16 : (acc v : ℕ) → v < 64 → ltb ((u64_max - v) / 16) acc ≡ ltb u64_max (16 * acc + v)
exact_16 acc v h = ground arith

exact_10 : (acc v : ℕ) → v < 64 → ltb ((u64_max - v) / 10) acc ≡ ltb u64_max (10 * acc + v)
exact_10 acc v h = ground arith

-- The number that the digits of `raw` denote behind its prefix, and the bytes behind the digits.
abbrev pub radix_of : Bool → ℕ
radix_of hex = if hex then 16 else 10

abbrev pub clamp_of : Bool → ℕ
clamp_of hex = if hex then 63 else 15

abbrev pub digits_of : Str8 → Flags → List ℕ × Str8
digits_of raw flags = let (i, hex) = prefix raw flags in digits (clamp_of hex) (drop i raw)

abbrev pub number_of : Str8 → Flags → ℕ
number_of raw flags = horner (radix_of (prefix raw flags).1) 0 (digits_of raw flags).0

-- The conversion is that of the number which the digits behind the prefix denote, in radix 16 or 10
-- and without a bound: where 64 bits hold it, the result is a success with the number, negated modulo
-- 2 ^ 64 behind a sign, and with the bytes behind the digits; else it is out of range.
pub integer_conversion-converted :
    (raw : Str8) (flags : Flags)
    → integer_conversion raw flags
      ≡ converted raw (bounded (number_of raw flags) (digits_of raw flags).1)
unfolding integer_conversion
integer_conversion-converted raw flags = go (prefix raw flags).1
  where
    go :
        (hex : Bool)
        → converted raw (
            if hex
            then convert 16 63 (drop (prefix raw flags).0 raw) 0
            else convert 10 15 (drop (prefix raw flags).0 raw) 0)
          ≡ converted raw (
              bounded
                (horner (radix_of hex) 0 (digits (clamp_of hex) (drop (prefix raw flags).0 raw)).0)
                (digits (clamp_of hex) (drop (prefix raw flags).0 raw)).1)
    go true =
        ap (converted raw) (convert-bounded 16 (λ acc. omega arith) exact_16 63 _ 0 (omega arith))
    go false =
        ap (converted raw) (convert-bounded 10 (λ acc. omega arith) exact_10 15 _ 0 (omega arith))

is_negative-sign : (s : Str8) → is_negative (45 ∷ s) ≡ true
is_negative-sign s = rw (lt→ltb 0 (suc (length s)) (omega arith))

and_false : (b : Bool) → (b && false) ≡ false
and_false true = refl
and_false false = refl

negative_prefix :
    (s : Str8) (flags : Flags)
    → flags.force_hex ≡ false
    → prefix (45 ∷ 48 ∷ 120 ∷ s) flags ≡ (1, false)
unfolding prefix
negative_prefix s flags h = elim (Bool-cases flags.no_auto_hex) [
  | inl e ↦ rw (is_negative-sign (48 ∷ 120 ∷ s), e, h)
  | inr e ↦ rw (
    is_negative-sign (48 ∷ 120 ∷ s),
    e,
    and_false (ltb 2 (suc (suc (suc (length s))) - 1)),
    and_false (ltb 1 (suc (suc (suc (length s))) - 1)),
    h,
  )
]

-- Behind a sign the prefix of a hexadecimal number is not recognised, unless the flags say that the
-- number is one: the conversion succeeds with the number 0 and stops at the letter of the prefix.
pub integer_conversion-negative_hex :
    (s : Str8) (flags : Flags)
    → flags.force_hex ≡ false
    → integer_conversion (45 ∷ 48 ∷ 120 ∷ s) flags
      ≡ record { result = success; as_u64 = 0; unparsed = 120 ∷ s }
unfolding integer_conversion
integer_conversion-negative_hex s flags h =
    rw (negative_prefix s flags h, is_negative-sign (48 ∷ 120 ∷ s))
