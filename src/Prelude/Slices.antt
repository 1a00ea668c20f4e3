-- ===== src/Prelude/Slices.antt =====
-- Writes, moves and slices of a byte array.
use Prim.Native.Nat.{ℕ, ◌+◌, ◌-◌, ◌≤◌}
use mathlib.Core.Path.{◌≡◌, refl, ◌∙◌}
use mathlib.Core.List.{List, [], ◌++◌, append_assoc, append-nil}
use native.Mathlib.Omega.{arith}
use vis.Prelude.Lists.{
  length, take, drop, length-append, length-take, length-drop, take-append_left, take-append_eq,
  drop-append_eq, take-take, drop-take,
}

-- The list `c` with `s` inserted at `at`.
abbrev pub inserted : List ℕ → ℕ → List ℕ → List ℕ
inserted c at s = take at c ++ s ++ drop at c

pub inserted_between :
    (a b s : List ℕ) (at : ℕ) → length a ≡ at → inserted (a ++ b) at s ≡ a ++ s ++ b
inserted_between a b s at h = rw (take-append_eq at a b h, drop-append_eq at a b h)

-- The list `c` without the `n` items from `at` on.
abbrev pub removed : List ℕ → ℕ → ℕ → List ℕ
removed c at n = take at c ++ drop (at + n) c

-- `memcpy(d + i, bytes, length bytes)`.
unfoldable pub write_at : List ℕ → ℕ → List ℕ → List ℕ
write_at d i bytes = take i d ++ bytes ++ drop (i + length bytes) d

-- `memmove(d + dst, d + src, n)`.
unfoldable pub move_within : List ℕ → ℕ → ℕ → ℕ → List ℕ
unfolding write_at
move_within d dst src n = write_at d dst (take n (drop src d))

pub length-write_at :
    (d : List ℕ) (i : ℕ) (bytes : List ℕ)
    → i + length bytes ≤ length d
    → length (write_at d i bytes) ≡ length d
unfolding write_at
length-write_at d i bytes h =
    rw (length-append, length-append, length-take, length-drop) (omega arith)

pub length-move_within :
    (d : List ℕ) (dst src n : ℕ)
    → dst + n ≤ length d
    → src + n ≤ length d
    → length (move_within d dst src n) ≡ length d
unfolding move_within
length-move_within d dst src n h k =
    length-write_at d dst (take n (drop src d))
      (omega (arith, length-take n (drop src d), length-drop src d))

-- The prefix of an array after a write inside it.
pub take-write_at_below :
    (d : List ℕ) (i n : ℕ) (bytes : List ℕ)
    → n ≤ i
    → i ≤ length d
    → take n (write_at d i bytes) ≡ take n d
unfolding write_at
take-write_at_below d i n bytes h k = rw append_assoc (
    take-append_left n (take i d) (bytes ++ drop (i + length bytes) d)
      (rw length-take (omega arith))
    ∙ take-take n i d h)

-- What stands behind the place of a write, after it.
pub drop-write_at :
    (d : List ℕ) (i : ℕ) (bytes : List ℕ)
    → i ≤ length d
    → drop i (write_at d i bytes) ≡ bytes ++ drop (i + length bytes) d
unfolding write_at
drop-write_at d i bytes k = rw append_assoc (
    drop-append_eq i (take i d) (bytes ++ drop (i + length bytes) d) (rw length-take (omega arith)))

-- The two parts of a list whose prefix is cut at `at`.
pub cut_prefix :
    (d : List ℕ) (at len : ℕ)
    → at ≤ len
    → (take at (take len d) ≡ take at d) × (drop at (take len d) ≡ take (len - at) (drop at d))
cut_prefix d at len h = (take-take at len d h, drop-take at len d)

-- Writing `s` at `at` over a suitable array leaves the old prefix, `s` and what stood beyond it.
pub take-write_at :
    (d p b r s : List ℕ) (at n : ℕ)
    → take at d ≡ p
    → drop (at + length s) d ≡ b ++ r
    → n ≡ length p + length s + length b
    → take n (write_at d at s) ≡ p ++ s ++ b
unfolding write_at
take-write_at d p b r s at n hp hb hn =
    rw (hp, hb, ← append_assoc (p ++ s) b r)
      (take-append_eq n (p ++ s ++ b) r (rw (length-append, length-append) (omega arith)))

-- Moving the tail `[at, len)` up by the length of `s` and writing `s` at `at` inserts `s`.
pub take-write_at-move :
    (d : List ℕ) (at len : ℕ) (s : List ℕ)
    → at ≤ len
    → len + length s ≤ length d
    → take (len + length s) (write_at (move_within d (at + length s) at (len - at)) at s)
      ≡ take at (take len d) ++ s ++ drop at (take len d)
unfolding move_within
take-write_at-move d at len s h k =
    rw ((cut_prefix d at len h).0, (cut_prefix d at len h).1)
      (take-write_at _ (take at d) (take (len - at) (drop at d)) _ s at (len + length s)
        (take-write_at_below d (at + length s) at (take (len - at) (drop at d)) (omega arith)
          (omega arith))
        (drop-write_at d (at + length s) (take (len - at) (drop at d)) (omega arith))
        (rw (length-take, length-take, length-drop) (omega arith)))

-- The same where there is no tail: `s` is appended.
pub take-write_at_end :
    (d : List ℕ) (at len : ℕ) (s : List ℕ)
    → at ≤ len
    → len ≤ at
    → len + length s ≤ length d
    → take (len + length s) (write_at d at s) ≡ take at (take len d) ++ s ++ drop at (take len d)
take-write_at_end d at len s h j k =
    let none_left : len - at ≡ 0 = omega arith in
    rw ((cut_prefix d at len h).0, (cut_prefix d at len h).1, none_left)
      (take-write_at d (take at d) [] _ s at (len + length s) refl refl
        (rw length-take (omega arith)))

-- Moving what stands behind the span `[at, at + n)` down over it removes the span.
pub take-move_within :
    (d : List ℕ) (at n len : ℕ)
    → at + n ≤ len
    → len ≤ length d
    → take (len - n) (move_within d at (at + n) (len - at - n))
      ≡ take at (take len d) ++ drop (at + n) (take len d)
unfolding move_within
take-move_within d at n len h k =
    let rest : len - at - n ≡ len - (at + n) = omega arith in
    rw ((cut_prefix d at len (omega arith)).0, rest, (cut_prefix d (at + n) len h).1)
      (take-write_at d (take at d) [] _ (take (len - (at + n)) (drop (at + n) d)) at (len - n) refl
          refl (rw (length-take, length-take, length-drop) (omega arith))
        ∙ append-nil _)
