-- ===== src/Map/Bits.antt =====
-- Keys as streams of bits, the highest bit of each byte first, and the place where two keys differ.
use vis.Prelude.{
  All, ℕ, zero, suc, ◌+◌, ◌-◌, ◌*◌, ◌/◌, ◌%◌, ◌≤◌, ◌<◌, ◌≡◌, ◌≢◌, ◌↔◌, ◌^◌, refl, sym, subst, ap,
  ◌∙◌, Bool, true, false, not, none, some, [], ◌∷◌, length, ltb, ◌==◌, ==_iff, ==_refl, arith,
  Bool-cases, inl, inr,
}
use Prim.Native.Nat.{bit_xor}
use native.Mathlib.Nat.{zero-div}
use native.Mathlib.Numerals.{add-one}
use vis.Map.Bytes.{top, top_differs, and_parts}
use vis.Map.{Key, byte_at, bit_of, direction, differ_at, top_bit, str_eq}

-- A C string: bytes that are not the terminator.
abbrev pub IsKey : Key → Type 0
IsKey k = All (λ c. (0 < c) × (c < 256)) k

byte_at-lt : (k : Key) (n : ℕ) → IsKey k → byte_at k n < 256
byte_at-lt [] n h = omega arith
byte_at-lt (x ∷ xs) zero h = h.0.1
byte_at-lt (x ∷ xs) (suc n) h = byte_at-lt xs n h.1

byte_at_end : (k : Key) (n : ℕ) → length k ≤ n → byte_at k n ≡ 0
byte_at_end [] n h = refl
byte_at_end (x ∷ xs) zero h = absurd (omega arith)
byte_at_end (x ∷ xs) (suc n) h = byte_at_end xs n (omega arith)

zero_bits : (b : ℕ) → bit_of 0 b ≡ false
zero_bits b = rw (zero-div (2 ^ b))

-- Past the end of a key its bits are those of the terminator.
pub direction-bit_of : (k : Key) (n b : ℕ) → direction k n b ≡ bit_of (byte_at k n) b
unfolding direction
direction-bit_of k n b = elim (Bool-cases (ltb n (length k))) [
  | inl e ↦ rw e
  | inr e ↦ rw (e, byte_at_end k n (ground (arith, e)), zero_bits b)
]

-- The place of a bit in the stream, and the bit at a place.
abbrev pub rank : ℕ → ℕ → ℕ
rank n b = n * 8 + (7 - b)

abbrev pub bit_at : Key → ℕ → Bool
bit_at k i = direction k (i / 8) (7 - i % 8)

pub direction-rank : (k : Key) (n b : ℕ) → b < 8 → direction k n b ≡ bit_at k (rank n b)
unfolding direction
direction-rank k n b h =
    let e : (n * 8 + (7 - b)) / 8 ≡ n = omega arith in
    let f : 7 - (n * 8 + (7 - b)) % 8 ≡ b = omega arith in rw (e, f)

-- Two keys have the same bits before a place.
abbrev pub Agree : ℕ → Key → Key → Type 0
Agree i a c = (j : ℕ) → j < i → bit_at a j ≡ bit_at c j

str_eq_refl : (a : Key) → str_eq a a ≡ true
str_eq_refl [] = refl
str_eq_refl (x ∷ xs) = rw (==_refl x, str_eq_refl xs)

pub str_eq→eq : (a c : Key) → str_eq a c ≡ true → a ≡ c
str_eq→eq [] [] h = refl
str_eq→eq [] (y ∷ ys) h = cc
str_eq→eq (x ∷ xs) [] h = cc
str_eq→eq (x ∷ xs) (y ∷ ys) h =
    let p = and_parts (x == y) (str_eq xs ys) h in
    ap (λ z. z ∷ xs) ((==_iff x y).0 p.0) ∙ ap (λ zs. y ∷ zs) (str_eq→eq xs ys p.1)

pub str_eq_iff : (a c : Key) → (str_eq a c ≡ true) ↔ (a ≡ c)
str_eq_iff a c = (str_eq→eq a c, λ h. subst (λ z. str_eq a z ≡ true) h (str_eq_refl a))

pub differ_at-same : (k : Key) → differ_at k k ≡ none
unfolding differ_at
differ_at-same [] = refl
differ_at-same (x ∷ xs) = rw (==_refl x, differ_at-same xs)

-- The first byte at which two keys differ.
record Differ (c k : Key) (n : ℕ) : Type 0 where
  before : (m : ℕ) → m < n → byte_at c m ≡ byte_at k m
  here : byte_at c n ≢ byte_at k n

before_step :
    (x y : ℕ) (xs ys : Key) (n : ℕ)
    → x ≡ y
    → ((m : ℕ) → m < n → byte_at xs m ≡ byte_at ys m)
    → (m : ℕ) → m < n + 1
    → byte_at (x ∷ xs) m ≡ byte_at (y ∷ ys) m
before_step x y xs ys n e f zero h = e
before_step x y xs ys n e f (suc m) h = f m (omega arith)

differ_at-Differ :
    (c k : Key) → IsKey c → IsKey k → c ≢ k → (n : ℕ) × (differ_at c k ≡ some n) × Differ c k n
unfolding differ_at
differ_at-Differ [] [] hc hk ne = absurd (ne refl)
differ_at-Differ [] (y ∷ ys) hc hk ne =
    (0, refl, record { before = λ m h. absurd (omega arith); here = omega (arith, hk.0) })
differ_at-Differ (x ∷ xs) [] hc hk ne =
    (0, refl, record { before = λ m h. absurd (omega arith); here = omega (arith, hc.0) })
differ_at-Differ (x ∷ xs) (y ∷ ys) hc hk ne = elim (Bool-cases (x == y)) [
  | inl e ↦
      let same = (==_iff x y).0 e in
      let r =
        differ_at-Differ xs ys hc.1 hk.1 (λ f. ne (ap (λ z. z ∷ xs) same ∙ ap (λ zs. y ∷ zs) f)) in
      (
        r.0 + 1,
        rw (e, r.1),
        record { before = before_step x y xs ys r.0 same r.2.before; here = rw add-one r.2.here },
      )
  | inr e ↦
      (0, rw e, record { before = λ m h. absurd (omega arith); here = λ f. ground (arith, e, f) })
]

-- The place at which two keys part: the highest bit of the first byte that differs.
pub record Parts (c k : Key) (n b : ℕ) : Type 0 where
  pub found : differ_at c k ≡ some n
  pub is_bit : b < 8
  pub opposite : direction c n b ≡ not (direction k n b)
  pub agree : Agree (rank n b) c k

-- A place before the parting lies in an earlier byte, or at a higher bit of the same one.
Agree-before :
    (c k : Key) (n : ℕ)
    → Differ c k n
    → top (byte_at c n) (byte_at k n) < 8
    → ((m : ℕ)
        → m < 8
        → top (byte_at c n) (byte_at k n) < m
        → bit_of (byte_at c n) m ≡ bit_of (byte_at k n) m)
    → Agree (rank n (top (byte_at c n) (byte_at k n))) c k
Agree-before c k n d h f j l =
    direction-bit_of c (j / 8) (7 - j % 8)
    ∙ (elim (Bool-cases (j / 8 == n)) [
      | inl e ↦
          let same = (==_iff (j / 8) n).0 e in rw same (f (7 - j % 8) (omega arith) (omega arith))
      | inr e ↦ ap (λ x. bit_of x (7 - j % 8)) (d.before (j / 8) (ground (arith, e, l, h)))
    ])
    ∙ sym (direction-bit_of k (j / 8) (7 - j % 8))

pub differ_at-Parts :
    (c k : Key)
    → IsKey c
    → IsKey k
    → c ≢ k
    → (n : ℕ) × Parts c k n (top_bit 8 (bit_xor (byte_at c n) (byte_at k n)))
unfolding top
differ_at-Parts c k hc hk ne =
    let r = differ_at-Differ c k hc hk ne in
    let t =
      top_differs (byte_at c r.0) (byte_at k r.0) (byte_at-lt c r.0 hc) (byte_at-lt k r.0 hk)
        r.2.here in
    (
      r.0,
      record {
        found = r.1;
        is_bit = t.0;
        opposite = direction-bit_of c r.0 _ ∙ t.1 ∙ ap not (sym (direction-bit_of k r.0 _));
        agree = Agree-before c k r.0 r.2 t.0 t.2;
      },
    )
