-- ===== src/Marks.antt =====
-- vis-marks.c: sets of ranges, the marks that hold them, and the jump list. The memory of a list of
-- ranges is its items up to `count`.
pub mod Normalize
pub mod Jumps
pub mod Examples
use vis.Prelude.{
  ℕ, zero, suc, ◌+◌, ◌-◌, ◌%◌, ◌^◌, Bool, true, false, not, Option, none, some, List, [], ◌∷◌, ◌++◌,
  length, get_elem?, set, ltb, ◌==◌, if◌then◌else◌, ◌&&◌, ◌||◌,
}
use vis.Prelude.Int.{ℤ, pos, negsuc}
use vis.Range.{
  Filerange, text_range_valid, text_range_size, text_range_empty, text_range_equal,
  text_range_overlap, text_range_union,
}
use vis.Util.{da_unordered_remove, da_ordered_remove}
use vis.Registers.Names.{mark_selection, mark_invalid}

abbrev pub FilerangeList : Type 0
FilerangeList = List Filerange

-- The order that `qsort` is called with.
unfoldable pub ranges_comparator : Filerange → Filerange → ℤ
unfolding text_range_valid
ranges_comparator r1 r2 =
    if not (text_range_valid r1)
    then (if text_range_valid r2 then pos 1 else pos 0)
    else if not (text_range_valid r2)
    then negsuc 0
    else if ltb r1.start r2.start || (r1.start == r2.start && ltb r1.end r2.end)
    then negsuc 0
    else pos 1

-- The first loop of `vis_mark_normalize`, from an index on. The index advances also where the range
-- that it stands at was replaced by the last one.
unfoldable pub remove_empty : ℕ → FilerangeList → ℕ → FilerangeList
unfolding text_range_size da_unordered_remove
remove_empty zero xs i = xs
remove_empty (suc k) xs i = elim (get_elem? xs i) [
  | none ↦ xs
  | some r ↦
      remove_empty k (if text_range_size r == 0 then da_unordered_remove xs i else xs) (i + 1)
]

-- The second loop. The index advances by one behind a range that was removed and by two behind one
-- that was kept, and the union is written nowhere.
unfoldable pub merge : ℕ → FilerangeList → Filerange → ℕ → FilerangeList
unfolding text_range_overlap text_range_union da_ordered_remove
merge zero xs prev i = xs
merge (suc k) xs prev i = elim (get_elem? xs i) [
  | none ↦ xs
  | some r ↦
      if text_range_overlap prev r
      then merge k (da_ordered_remove xs i) (text_range_union prev r) (i + 1)
      else merge k xs r (i + 2)
]

module _ (qsort : (Filerange → Filerange → ℤ) → FilerangeList → FilerangeList) where
  -- Where so many rounds as there are ranges suffice for each loop, and the list is sorted in place.
  unfoldable pub vis_mark_normalize : FilerangeList → FilerangeList
  unfolding remove_empty merge ranges_comparator
  vis_mark_normalize ranges =
      let kept = remove_empty (length ranges) ranges 0 in
      let sorted = qsort ranges_comparator kept in
      if ltb 0 (length kept) then merge (length sorted) sorted text_range_empty 0 else kept

-- `vis_mark_equal`.
unfoldable pub vis_mark_equal : FilerangeList → FilerangeList → Bool
unfolding text_range_equal
vis_mark_equal [] [] = true
vis_mark_equal [] (y ∷ ys) = false
vis_mark_equal (x ∷ xs) [] = false
vis_mark_equal (x ∷ xs) (y ∷ ys) = text_range_equal x y && vis_mark_equal xs ys

-- What `mark_from` finds: the saved selections of the window, or one of the file's marks.
pub data MarkPlace : Type 0 where
  saved_selections : MarkPlace
  file_mark : ℕ → MarkPlace

unfoldable pub mark_from : (has_window : Bool) → ℕ → Option MarkPlace
mark_from has_window id =
    if not has_window
    then none
    else if id == mark_selection
    then some saved_selections
    else if ltb id mark_invalid
    then some (file_mark id)
    else none

-- `vis_mark`: the mark of the next action.
unfoldable pub vis_mark : ℕ → ℕ → ℕ
vis_mark action_mark mark = if ltb mark mark_invalid then mark else action_mark

-- A region of a view, as `view_regions_save` makes it and `view_regions_restore` reads it, is of any
-- type here.
module _ {ℓ} {Region : Type ℓ} (restore : Region → Filerange)
    (save : Filerange → Option Region) where
  abbrev pub restored : List Region → FilerangeList
  restored [] = []
  restored (x ∷ xs) = if text_range_valid (restore x) then restore x ∷ restored xs else restored xs

  unfoldable pub mark_get :
      ((Filerange → Filerange → ℤ) → FilerangeList → FilerangeList)
      → Option (List Region)
      → FilerangeList
  unfolding vis_mark_normalize
  mark_get qsort none = []
  mark_get qsort (some mark) = vis_mark_normalize qsort (restored mark)

  unfoldable pub mark_set : FilerangeList → List Region
  mark_set [] = []
  mark_set (r ∷ rs) = let rest = mark_set rs in elim (save r) [ none ↦ rest | some x ↦ x ∷ rest ]
