-- ===== src/Registers/RoundTrip.antt =====
-- The names of registers and marks, forth and back (vis-registers.c, vis-marks.c).
use vis.Prelude.{
  ℕ, suc, ◌+◌, ◌-◌, ◌≤◌, ◌<◌, ◌≡◌, ◌≢◌, ◌⊎◌, refl, sym, ap, ◌∙◌, some, List, [], ◌∷◌, length,
  get_elem?, leb, ◌==◌, ==_iff, ◌&&◌, subst, ne→==_false, lt→leb_false, le→leb, Bool-cases, inl,
  inr, arith,
}
use vis.Registers.Names.{
  reg_invalid, mark_invalid, register_names, index_of, name_or_nul, vis_register_from,
  vis_register_to, vis_mark_from, vis_mark_to,
}

-- What the loop over a table returns: its last argument, or the index of the name.
index_of-outcome :
    (xs : List ℕ) (i c invalid : ℕ)
    → (index_of xs i c invalid ≡ invalid)
      ⊎ ((j : ℕ) × (index_of xs i c invalid ≡ i + j) × (j < length xs) × (get_elem? xs j ≡ some c))
unfolding index_of
index_of-outcome [] i c invalid = inl refl
index_of-outcome (x ∷ xs) i c invalid = elim (Bool-cases (x == c)) [
  | inl e ↦ inr (0, rw e (omega arith), omega arith, ap some ((==_iff x c).0 e))
  | inr e ↦ elim (index_of-outcome xs (i + 1) c invalid) [
    | inl f ↦ inl (rw e f)
    | inr (j, f, l, g) ↦ inr (suc j, rw e (f ∙ (omega arith)), omega (arith, l), g)
  ]
]

name_of_index : (j c : ℕ) → j < 20 → get_elem? register_names j ≡ some c → vis_register_to j ≡ c
unfolding vis_register_to
name_of_index j c h e =
    rw (ne→==_false j 75 (omega arith), lt→leb_false 20 j h, lt→leb_false 49 j (omega arith))
      (ap name_or_nul e)

name_of_lower : (c : ℕ) → 97 ≤ c → c ≤ 122 → vis_register_to (20 + c - 97) ≡ c
unfolding vis_register_to
name_of_lower c g h =
    rw
      (
        ne→==_false (20 + c - 97) 75 (omega arith),
        le→leb 20 (20 + c - 97) (omega arith),
        le→leb (20 + c - 97) 45 (omega arith),
      )
      (omega arith)

name_of_upper : (c : ℕ) → 65 ≤ c → c ≤ 90 → vis_register_to (49 + c - 65) ≡ c
unfolding vis_register_to
name_of_upper c g h =
    rw
      (
        ne→==_false (49 + c - 65) 75 (omega arith),
        lt→leb_false (49 + c - 65) 45 (omega arith),
        le→leb 20 (49 + c - 65) (omega arith),
        le→leb 49 (49 + c - 65) (omega arith),
        le→leb (49 + c - 65) 74 (omega arith),
      )
      (omega arith)

name_of_special :
    (c : ℕ)
    → index_of register_names 0 c reg_invalid ≢ reg_invalid
    → vis_register_to (index_of register_names 0 c reg_invalid) ≡ c
name_of_special c h = elim (index_of-outcome register_names 0 c reg_invalid) [
  | inl e ↦ absurd (h e)
  | inr (j, e, l, g) ↦
      subst (λ i. vis_register_to i ≡ c) (sym (e ∙ (omega arith))) (name_of_index j c l g)
]

-- A character that names a register is the name of that register.
pub vis_register_to-vis_register_from :
    (c : ℕ) → vis_register_from c ≢ reg_invalid → vis_register_to (vis_register_from c) ≡ c
unfolding vis_register_from vis_register_to
vis_register_to-vis_register_from c h = elim (Bool-cases (c == 64)) [
  | inl e ↦ rw e (sym ((==_iff c 64).0 e))
  | inr e ↦ elim (Bool-cases (leb 97 c && leb c 122)) [
    | inl f ↦ rw (e, f) (name_of_lower c (ground (arith, f)) (ground (arith, f)))
    | inr f ↦ elim (Bool-cases (leb 65 c && leb c 90)) [
      | inl g ↦ rw (e, f, g) (name_of_upper c (ground (arith, g)) (ground (arith, g)))
      | inr g ↦ rw (e, f, g) (name_of_special c (rw (e, f, g) at h))
    ]
  ]
]

-- A character that names a mark is the name of that mark.
pub vis_mark_to-vis_mark_from :
    (c : ℕ) → vis_mark_from c ≢ mark_invalid → vis_mark_to (vis_mark_from c) ≡ c
unfolding vis_mark_from vis_mark_to index_of
vis_mark_to-vis_mark_from c h = ground arith
