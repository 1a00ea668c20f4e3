-- ===== src/Range/Examples.antt =====
-- The theorems on ranges at concrete ranges (text-util.c).
use vis.Prelude.{ℕ, ◌-◌, ◌+◌, ◌≡◌, ◌↔◌, ◌⊎◌, true, refl, arith}
use vis.Range.{
  range, text_range_overlap, text_range_union, text_range_intersect, text_range_new,
  text_range_contains, text_range_equal, text_range_size, text_range_empty,
}
use vis.Range.Laws.{Covers, Covers-intersect, Covers-union, overlap_iff, range_new_contains}

Covers-intersect_example :
    Covers (text_range_intersect (range 2 7) (range 4 9)) 5
    ↔ (Covers (range 2 7) 5 × Covers (range 4 9) 5)
Covers-intersect_example = Covers-intersect (range 2 7) (range 4 9) 5

ranges_overlap : text_range_overlap (range 2 7) (range 4 9) ≡ true
unfolding text_range_overlap
ranges_overlap = refl

Covers-union_example :
    Covers (text_range_union (range 2 7) (range 4 9)) 8
    ↔ (Covers (range 2 7) 8 ⊎ Covers (range 4 9) 8)
Covers-union_example = Covers-union (range 2 7) (range 4 9) 8 ranges_overlap

overlap_iff_example :
    (text_range_overlap (range 2 7) (range 4 9) ≡ true)
    ↔ ((p : ℕ) × Covers (range 2 7) p × Covers (range 4 9) p)
overlap_iff_example = overlap_iff (range 2 7) (range 4 9) (omega arith) (omega arith)

range_new_contains_example :
    (text_range_contains (text_range_new 9 4) 9 ≡ true)
    × (text_range_contains (text_range_new 9 4) 4 ≡ true)
    × (text_range_size (text_range_new 9 4) ≡ (9 - 4) + (4 - 9))
range_new_contains_example = range_new_contains 9 4 (omega arith) (omega arith)

invalid_equal : text_range_equal text_range_empty (range 9 4) ≡ true
unfolding text_range_equal
invalid_equal = refl

invalid_equal_back : text_range_equal (range 9 4) (range 8 3) ≡ true
unfolding text_range_equal
invalid_equal_back = refl
