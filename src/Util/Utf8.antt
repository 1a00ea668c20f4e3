-- ===== src/Util/Utf8.antt =====
-- `utf8_encode` against the arithmetic of UTF-8 (util.h).
use vis.Prelude.{
  ltb, ltb→lt, ◌⊎◌, ℕ, ◌+◌, ◌-◌, ◌*◌, ◌/◌, ◌%◌, ◌≤◌, ◌<◌, ◌≡◌, ◌≢◌, refl, List, [], ◌∷◌, length,
  leb, Bool-cases, inl, inr, leb→le, leb_false→lt, le→leb, lt→leb_false, arith,
}
use vis.Util.{utf8_sequence_length, utf8_encode}

-- The code point that the low bits of one to four bytes denote.
pub code_point : List ℕ → ℕ
code_point (a ∷ []) = a
code_point (a ∷ b ∷ []) = (a - 192) * 64 + (b - 128)
code_point (a ∷ b ∷ c ∷ []) = ((a - 224) * 64 + (b - 128)) * 64 + (c - 128)
code_point (a ∷ b ∷ c ∷ d ∷ []) = (((a - 240) * 64 + (b - 128)) * 64 + (c - 128)) * 64 + (d - 128)
code_point bytes = 0

abbrev pub Continues : ℕ → Type 0
Continues c = (128 ≤ c) × (c ≤ 191)

-- The byte sequences that the Unicode standard calls well-formed UTF-8.
abbrev pub WellFormed : List ℕ → Type 0
WellFormed (a ∷ []) = a ≤ 127
WellFormed (a ∷ b ∷ []) = (194 ≤ a) × (a ≤ 223) × Continues b
WellFormed (a ∷ b ∷ c ∷ []) =
    (224 ≤ a)
    × (a ≤ 239)
    × Continues b
    × Continues c
    × ((a ≢ 224) ⊎ (160 ≤ b))
    × ((a ≢ 237) ⊎ (b ≤ 159))
WellFormed (a ∷ b ∷ c ∷ d ∷ []) =
    (240 ≤ a)
    × (a ≤ 244)
    × Continues b
    × Continues c
    × Continues d
    × ((a ≢ 240) ⊎ (144 ≤ b))
    × ((a ≢ 244) ⊎ (b ≤ 143))
WellFormed bytes = ⊥

-- A code point that no surrogate is.
abbrev pub IsScalar : ℕ → Type 0
IsScalar cp = ((cp < 55296) ⊎ (57343 < cp)) × (cp ≤ 1114111)

follows : (n : ℕ) → Continues (n % 64 + 128)
follows n = (omega arith, omega arith)

-- The second of three bytes for a scalar value, and of four.
second_of_three :
    (cp : ℕ)
    → 2048 ≤ cp
    → cp ≤ 65535
    → IsScalar cp
    → ((cp / 4096 % 16 + 224 ≢ 224) ⊎ (160 ≤ cp / 64 % 64 + 128))
      × ((cp / 4096 % 16 + 224 ≢ 237) ⊎ (cp / 64 % 64 + 128 ≤ 159))
second_of_three cp g h s = (
  elim (Bool-cases (ltb cp 4096)) [
    | inl e ↦ let l = ltb→lt cp 4096 e in inr (omega (arith, l))
    | inr e ↦ let l : 4096 ≤ cp = ground (arith, e) in inl (λ f. omega (arith, l, f))
  ],
  elim s.0 [
    | inl low ↦ elim (Bool-cases (ltb cp 53248)) [
      | inl e ↦ let l = ltb→lt cp 53248 e in inl (λ f. omega (arith, l, f))
      | inr e ↦ let l : 53248 ≤ cp = ground (arith, e) in inr (omega (arith, l, low))
    ]
    | inr high ↦ inl (λ f. omega (arith, high, f))
  ],
)

second_of_four :
    (cp : ℕ)
    → 65536 ≤ cp
    → cp ≤ 1114111
    → ((cp / 262144 % 8 + 240 ≢ 240) ⊎ (144 ≤ cp / 4096 % 64 + 128))
      × ((cp / 262144 % 8 + 240 ≢ 244) ⊎ (cp / 4096 % 64 + 128 ≤ 143))
second_of_four cp g h = (
  elim (Bool-cases (ltb cp 262144)) [
    | inl e ↦ let l = ltb→lt cp 262144 e in inr (omega (arith, l))
    | inr e ↦ let l : 262144 ≤ cp = ground (arith, e) in inl (λ f. omega (arith, l, f))
  ],
  elim (Bool-cases (ltb cp 1048576)) [
    | inl e ↦ let l = ltb→lt cp 1048576 e in inl (λ f. omega (arith, l, f))
    | inr e ↦ let l : 1048576 ≤ cp = ground (arith, e) in inr (omega (arith, l))
  ],
)

abbrev Encoded : ℕ → List ℕ → Type 0
Encoded cp bs = WellFormed bs × (length bs ≡ utf8_sequence_length cp) × (code_point bs ≡ cp)

encode_one : (cp : ℕ) → cp ≤ 127 → Encoded cp (utf8_encode cp)
unfolding utf8_encode utf8_sequence_length code_point
encode_one cp h =
    rw
      (
        le→leb cp 127 h,
        lt→leb_false 65536 cp (omega arith),
        lt→leb_false 2048 cp (omega arith),
        lt→leb_false 128 cp (omega arith),
      )
      (omega arith, refl, omega arith)

encode_two : (cp : ℕ) → 128 ≤ cp → cp ≤ 2047 → Encoded cp (utf8_encode cp)
unfolding utf8_encode utf8_sequence_length code_point
encode_two cp g h =
    rw
      (
        lt→leb_false cp 127 g,
        le→leb cp 2047 h,
        lt→leb_false 65536 cp (omega arith),
        lt→leb_false 2048 cp (omega arith),
        le→leb 128 cp g,
      )
      ((omega arith, omega arith, follows cp), refl, omega arith)

encode_three : (cp : ℕ) → 2048 ≤ cp → cp ≤ 65535 → IsScalar cp → Encoded cp (utf8_encode cp)
unfolding utf8_encode utf8_sequence_length code_point
encode_three cp g h s =
    rw
      (
        lt→leb_false cp 127 (omega arith),
        lt→leb_false cp 2047 g,
        le→leb cp 65535 h,
        lt→leb_false 65536 cp (omega arith),
        le→leb 2048 cp g,
        le→leb 128 cp (omega arith),
      )
      (
        (
          omega arith,
          omega arith,
          follows (cp / 64),
          follows cp,
          (second_of_three cp g h s).0,
          (second_of_three cp g h s).1,
        ),
        refl,
        omega arith,
      )

encode_four : (cp : ℕ) → 65536 ≤ cp → cp ≤ 1114111 → Encoded cp (utf8_encode cp)
unfolding utf8_encode utf8_sequence_length code_point
encode_four cp g h =
    rw
      (
        lt→leb_false cp 127 (omega arith),
        lt→leb_false cp 2047 (omega arith),
        lt→leb_false cp 65535 g,
        le→leb cp 1114111 h,
        le→leb 65536 cp g,
        le→leb 2048 cp (omega arith),
        le→leb 128 cp (omega arith),
      )
      (
        (
          omega arith,
          omega arith,
          follows (cp / 4096),
          follows (cp / 64),
          follows cp,
          (second_of_four cp g h).0,
          (second_of_four cp g h).1,
        ),
        refl,
        omega arith,
      )

-- The encoding of a code point of at most 0x10FFFF that is no surrogate is a well-formed UTF-8
-- sequence, of the length that `utf8_sequence_length` says, and its bytes denote the code point.
pub utf8_encode-code_point :
    (cp : ℕ)
    → IsScalar cp
    → WellFormed (utf8_encode cp)
      × (length (utf8_encode cp) ≡ utf8_sequence_length cp)
      × (code_point (utf8_encode cp) ≡ cp)
utf8_encode-code_point cp s = elim (Bool-cases (leb cp 127)) [
  | inl e ↦ encode_one cp (leb→le _ _ e)
  | inr e ↦ elim (Bool-cases (leb cp 2047)) [
    | inl f ↦ encode_two cp (leb_false→lt _ _ e) (leb→le _ _ f)
    | inr f ↦ elim (Bool-cases (leb cp 65535)) [
      | inl i ↦ encode_three cp (leb_false→lt _ _ f) (leb→le _ _ i) s
      | inr i ↦ encode_four cp (leb_false→lt _ _ i) s.1
    ]
  ]
]
