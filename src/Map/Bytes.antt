-- ===== src/Map/Bytes.antt =====
-- The highest bit at which two bytes differ, by a table of all pairs of bytes.
use vis.Prelude.{
  ℕ, zero, suc, ◌<◌, ◌≡◌, ◌≢◌, refl, sym, if◌then◌else◌, Bool-cases, inl, inr, ==_iff, Bool, true,
  false, not, ltb, leb, ◌==◌, ne→==_false, lt→leb_false, ltb→lt, ◌&&◌, ◌||◌, arith,
}
use Prim.Native.Nat.{bit_xor}
use vis.Map.{bit_of, top_bit}

-- Whether a test is passed by every number less than a bound, the greatest one first.
passed : (ℕ → Bool) → ℕ → Bool
passed test zero = true
passed test (suc bound) = if test bound then passed test bound else false

passed_at : (test : ℕ → Bool) (bound i : ℕ) → i < bound → passed test bound ≡ true → test i ≡ true
unfolding passed
passed_at test zero i less all = absurd (omega arith)
passed_at test (suc bound) i less all = elim (Bool-cases (test bound)) [
  | inr fails ↦ absurd (true_ne_false (sym (rw fails at all)))
  | inl here ↦ elim (Bool-cases (i == bound)) [
    | inl last ↦ rw ((==_iff i bound).0 last) here
    | inr before ↦ passed_at test bound i (ground (arith, less, before)) (rw here at all)
  ]
]
  where
    true_ne_false : true ≢ false
    true_ne_false e = cc

-- The highest bit at which two bytes differ.
unfoldable pub top : ℕ → ℕ → ℕ
unfolding top_bit
top a b = top_bit 8 (bit_xor a b)

same_bits : Bool → Bool → Bool
same_bits true b = b
same_bits false b = not b

tops_differ : ℕ → ℕ → Bool
unfolding top same_bits passed
tops_differ a b =
    a == b
    || (ltb (top a b) 8
        && not (same_bits (bit_of a (top a b)) (bit_of b (top a b)))
        && passed (λ n. leb n (top a b) || same_bits (bit_of a n) (bit_of b n)) 8)

top_table : passed (λ a. passed (tops_differ a) 256) 256 ≡ true
unfolding tops_differ top top_bit
top_table = refl

same_bits-eq : (a b : Bool) → same_bits a b ≡ true → a ≡ b
unfolding same_bits
same_bits-eq true true h = refl
same_bits-eq true false h = cc
same_bits-eq false true h = cc
same_bits-eq false false h = refl

same_bits-ne : (a b : Bool) → same_bits a b ≡ false → a ≡ not b
unfolding same_bits
same_bits-ne true true h = cc
same_bits-ne true false h = refl
same_bits-ne false true h = refl
same_bits-ne false false h = cc

pub and_parts : (a b : Bool) → (a && b) ≡ true → (a ≡ true) × (b ≡ true)
and_parts a b h = ground arith

or_right : (a b : Bool) → (a || b) ≡ true → a ≡ false → b ≡ true
or_right a b h f = ground arith

not_when : (a : Bool) → not a ≡ true → a ≡ false
not_when a h = ground arith

-- Two different bytes differ at `top`, and at no higher bit.
pub top_differs :
    (a b : ℕ)
    → a < 256
    → b < 256
    → a ≢ b
    → (top a b < 8)
      × (bit_of a (top a b) ≡ not (bit_of b (top a b)))
      × ((n : ℕ) → n < 8 → top a b < n → bit_of a n ≡ bit_of b n)
unfolding tops_differ
top_differs a b ha hb ne =
    let row = passed_at (λ x. passed (tops_differ x) 256) 256 a ha top_table in
    let cell = passed_at (tops_differ a) 256 b hb row in
    let t = or_right (a == b) _ cell (ne→==_false a b ne) in
    let p = and_parts _ _ t in
    let q = and_parts _ _ p.0 in
    (
      ltb→lt _ 8 q.0,
      same_bits-ne _ _ (not_when _ q.1),
      λ n h k. same_bits-eq _ _ (
          or_right (leb n (top a b)) _
            (passed_at (λ m. leb m (top a b) || same_bits (bit_of a m) (bit_of b m)) 8 n h p.1)
            (lt→leb_false n _ k)),
    )
