-- ===== src/Marks/Normalize.antt =====
-- `vis_mark_normalize` on two ranges (vis-marks.c).
use vis.Prelude.{
  ℕ, suc, ◌+◌, ◌≡◌, ◌≢◌, refl, ◌∙◌, none, some, [], ◌∷◌, length, get_elem?, ne→==_false, ◌==◌,
  if◌then◌else◌, arith,
}
use vis.Prelude.Int.{ℤ}
use vis.Range.{
  Filerange, text_range_size, text_range_empty, text_range_overlap, text_range_valid,
  text_range_union,
}
use vis.Util.{da_unordered_remove, da_ordered_remove}
use vis.Marks.{FilerangeList, ranges_comparator, remove_empty, merge, vis_mark_normalize}

-- The C library's `qsort` leaves as many items as it was given.
pub record Qsort : Type 1 where
  pub run : (Filerange → Filerange → ℤ) → FilerangeList → FilerangeList
  pub length_run :
      (cmp : Filerange → Filerange → ℤ) (xs : FilerangeList) → length (run cmp xs) ≡ length xs

remove_empty-none :
    (k : ℕ) (xs : FilerangeList) (i : ℕ) → get_elem? xs i ≡ none → remove_empty (suc k) xs i ≡ xs
unfolding remove_empty
remove_empty-none k xs i e = rw (remove_empty, e)

remove_empty-some :
    (k : ℕ) (xs : FilerangeList) (i : ℕ) (r : Filerange)
    → get_elem? xs i ≡ some r
    → remove_empty (suc k) xs i
      ≡ remove_empty k (if text_range_size r == 0 then da_unordered_remove xs i else xs) (i + 1)
unfolding remove_empty
remove_empty-some k xs i r e = rw (remove_empty, e)

merge-none :
    (k : ℕ) (xs : FilerangeList) (prev : Filerange) (i : ℕ)
    → get_elem? xs i ≡ none
    → merge (suc k) xs prev i ≡ xs
unfolding merge
merge-none k xs prev i e = rw (merge, e)

merge-some :
    (k : ℕ) (xs : FilerangeList) (prev : Filerange) (i : ℕ) (r : Filerange)
    → get_elem? xs i ≡ some r
    → merge (suc k) xs prev i ≡ (
        if text_range_overlap prev r
        then merge k (da_ordered_remove xs i) (text_range_union prev r) (i + 1)
        else merge k xs r (i + 2))
unfolding merge
merge-some k xs prev i r e = rw (merge, e)

merge-two : (xs : FilerangeList) → length xs ≡ 2 → merge (length xs) xs text_range_empty 0 ≡ xs
unfolding merge text_range_overlap text_range_valid
merge-two [] h = absurd (omega (arith, h))
merge-two (x ∷ []) h = absurd (omega (arith, h))
merge-two (x ∷ y ∷ []) h = refl
merge-two (x ∷ y ∷ z ∷ zs) h = absurd (omega (arith, h))

remove_empty-two :
    (a b : Filerange)
    → text_range_size a ≢ 0
    → text_range_size b ≢ 0
    → remove_empty 2 (a ∷ b ∷ []) 0 ≡ a ∷ b ∷ []
unfolding remove_empty
remove_empty-two a b h k =
    remove_empty-some 1 (a ∷ b ∷ []) 0 a refl
    ∙ rw (ne→==_false (text_range_size a) 0 h)
        (remove_empty-some 0 (a ∷ b ∷ []) 1 b refl ∙ rw (ne→==_false (text_range_size b) 0 k))

-- Two ranges that are not empty are only sorted, also where they overlap.
pub vis_mark_normalize-two :
    (qsort : Qsort) (a b : Filerange)
    → text_range_size a ≢ 0
    → text_range_size b ≢ 0
    → vis_mark_normalize qsort.run (a ∷ b ∷ []) ≡ qsort.run ranges_comparator (a ∷ b ∷ [])
unfolding vis_mark_normalize
vis_mark_normalize-two qsort a b h k =
    rw (remove_empty-two a b h k)
      (merge-two (qsort.run ranges_comparator (a ∷ b ∷ [])) (qsort.length_run ranges_comparator _))
