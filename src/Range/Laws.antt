-- ===== src/Range/Laws.antt =====
-- What the operations on ranges do to the positions that a range covers.
use vis.Prelude.{ℕ, ◌+◌, ◌-◌, if◌then◌else◌, ◌≤◌, ◌<◌, ◌≡◌, ◌↔◌, ◌⊎◌, true, arith, ltb}
use vis.Range.{
  Filerange, epos, text_range_valid, text_range_size, text_range_new, text_range_overlap,
  text_range_union, text_range_intersect, text_range_equal, text_range_contains,
}

-- The bytes of a range are those at the positions `start ≤ p < end` of a valid range.
abbrev pub Covers : Filerange → ℕ → Type 0
Covers r p = (text_range_valid r ≡ true) × (r.start ≤ p) × (p < r.end)

-- The intersection of two ranges covers exactly the bytes that both cover.
pub Covers-intersect :
    (r1 r2 : Filerange) (p : ℕ)
    → Covers (text_range_intersect r1 r2) p ↔ (Covers r1 p × Covers r2 p)
unfolding text_range_intersect text_range_valid
Covers-intersect r1 r2 p = (λ h. ground arith, λ h. ground arith)

-- A byte that both ranges cover makes them overlap.
pub overlap_of_Covers :
    (r1 r2 : Filerange) (p : ℕ) → Covers r1 p → Covers r2 p → text_range_overlap r1 r2 ≡ true
unfolding text_range_overlap
overlap_of_Covers r1 r2 p h k = ground arith

pub Covers-of_overlap :
    (r1 r2 : Filerange)
    → text_range_overlap r1 r2 ≡ true
    → r1.start < r1.end
    → r2.start < r2.end
    → (p : ℕ) × Covers r1 p × Covers r2 p
unfolding text_range_overlap
Covers-of_overlap r1 r2 h a b =
    (if ltb r1.start r2.start then r2.start else r1.start, ground arith, ground arith)

-- Two ranges whose starts lie before their ends overlap exactly if some byte is covered by both.
pub overlap_iff :
    (r1 r2 : Filerange)
    → r1.start < r1.end
    → r2.start < r2.end
    → (text_range_overlap r1 r2 ≡ true) ↔ ((p : ℕ) × Covers r1 p × Covers r2 p)
overlap_iff r1 r2 a b =
    (λ h. Covers-of_overlap r1 r2 h a b, λ w. overlap_of_Covers r1 r2 w.0 w.1 w.2)

-- The union of two overlapping ranges covers exactly the bytes that one of them covers.
pub Covers-union :
    (r1 r2 : Filerange) (p : ℕ)
    → text_range_overlap r1 r2 ≡ true
    → Covers (text_range_union r1 r2) p ↔ (Covers r1 p ⊎ Covers r2 p)
unfolding text_range_union text_range_overlap text_range_valid
Covers-union r1 r2 p h = (λ k. ground arith, λ k. ground arith)

-- A range made of two valid positions, in either order, contains both, and its size is their
-- distance.
pub range_new_contains :
    (a b : ℕ)
    → a < epos
    → b < epos
    → (text_range_contains (text_range_new a b) a ≡ true)
      × (text_range_contains (text_range_new a b) b ≡ true)
      × (text_range_size (text_range_new a b) ≡ (a - b) + (b - a))
unfolding text_range_contains text_range_new text_range_size
range_new_contains a b h k = ground arith

-- If a range equals a second one and that equals a third, then the third equals the first; this
-- holds for invalid ranges too.
range_equal_trans :
    (r1 r2 r3 : Filerange)
    → text_range_equal r1 r2 ≡ true
    → text_range_equal r2 r3 ≡ true
    → text_range_equal r3 r1 ≡ true
unfolding text_range_equal
range_equal_trans r1 r2 r3 h k = ground arith
