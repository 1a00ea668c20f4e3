-- ===== src/Util/Capacity.antt =====
-- The capacity of a dynamic array that is reserved (util.c).
use vis.Prelude.{
  ℕ, zero, suc, ◌*◌, ◌^◌, ◌≤◌, ◌<◌, ◌≡◌, refl, sym, subst, Option, some, ltb, ltb→lt, lt→ltb,
  le→ltb_false, ◌==◌, Bool-cases, inl, inr, arith,
}
use native.Mathlib.Nat.{pow-succ', mul_assoc}
use vis.Util.{double_capacity, da_reserve}

-- A capacity that holds what is needed and is not smaller than the old one.
abbrev pub Enough : ℕ → ℕ → Option ℕ → Type 0
Enough old needed o = (c : ℕ) × (o ≡ some c) × (needed ≤ c) × (old ≤ c) × (0 < c) × (c < 2 ^ 31)

double : (size fuel : ℕ) → size * 2 ^ suc fuel ≡ size * 2 * 2 ^ fuel
double size fuel = rw (pow-succ' 2 fuel) (sym (mul_assoc size 2 (2 ^ fuel)))

double_capacity-Enough :
    (fuel size needed : ℕ)
    → needed ≤ size * 2 ^ fuel
    → needed ≤ 2 ^ 30
    → 0 < size
    → size < 2 ^ 31
    → Enough size needed (double_capacity fuel size needed)
unfolding double_capacity
double_capacity-Enough zero size needed room h g l =
    rw (le→ltb_false size needed (omega arith)) (size, refl, omega arith, omega arith, g, l)
double_capacity-Enough (suc fuel) size needed room h g l = elim (Bool-cases (ltb size needed)) [
  | inl e ↦
      let r =
        double_capacity-Enough fuel (size * 2) needed
          (subst (λ z. needed ≤ z) (double size fuel) room) h (omega (arith, g))
          (omega (arith, ltb→lt _ _ e)) in
      rw (e, lt→ltb (size * 2) (2 ^ 31) (omega (arith, ltb→lt _ _ e)))
        (r.0, r.1, r.2, omega (arith, r.3), r.4, r.5)
  | inr e ↦ rw e (size, refl, ground (arith, e), omega arith, g, l)
]

-- Reserving room for up to 2 ^ 30 items ends, with a capacity that holds them, that is not smaller
-- than the old one, and that is still a number of 31 bits, as the old one is.
pub da_reserve-Enough :
    (capacity needed : ℕ)
    → capacity < 2 ^ 31
    → needed ≤ 2 ^ 30
    → Enough capacity needed (da_reserve capacity needed)
unfolding da_reserve
da_reserve-Enough capacity needed l h = elim (Bool-cases (capacity == 0)) [
  | inl e ↦
      let r = double_capacity-Enough 32 16 needed (omega arith) h (omega arith) (omega arith) in
      rw e (r.0, r.1, r.2, ground (arith, e), r.4, r.5)
  | inr e ↦
      rw e (double_capacity-Enough 32 capacity needed (ground (arith, e)) h (ground (arith, e)) l)
]
