-- ===== src/Marks/Examples.antt =====
-- Sets of two ranges, a sort that has nothing to do, and a jump back (vis-marks.c).
use vis.Prelude.{
  ℕ, ◌≡◌, refl, true, not, Option, none, some, [], ◌∷◌, length, ltb, if◌then◌else◌, ◌&&◌, arith,
}
use vis.Prelude.Int.{pos, negsuc}
use vis.Range.{Filerange, range, text_range_size, text_range_overlap}
use vis.Marks.{FilerangeList, vis_mark_normalize, vis_mark_equal, mark_get, mark_set}
use vis.Marks.Normalize.{Qsort, vis_mark_normalize-two}
use vis.Marks.Jumps.{JumpList, vis_jumplist, vis_jumplist-back}

-- For lists that are in order already.
abbrev in_order : Qsort
in_order = record { run = λ cmp xs. xs; length_run = λ cmp xs. refl }

abbrev wide : Filerange
wide = range 0 10

abbrev late : Filerange
late = range 5 20

they_overlap : text_range_overlap wide late ≡ true
unfolding text_range_overlap
they_overlap = refl

vis_mark_normalize-two_example :
    vis_mark_normalize in_order.run (wide ∷ late ∷ []) ≡ wide ∷ late ∷ []
unfolding text_range_size
vis_mark_normalize-two_example =
    vis_mark_normalize-two in_order wide late (omega arith) (omega arith)

-- The second of two empty ranges is kept.
empty_kept : vis_mark_normalize in_order.run (range 3 3 ∷ range 4 4 ∷ []) ≡ range 4 4 ∷ []
unfolding vis_mark_normalize
empty_kept = refl

abbrev unused : JumpList Filerange
unused = record { cursor = 33; regions = λ i. []; modes = λ i. 0 }

abbrev save_all : Filerange → Option Filerange
save_all r = some r

abbrev came_back : Option (ℕ × FilerangeList) × JumpList Filerange
came_back =
    vis_jumplist (λ r. r) save_all in_order.run
      (vis_jumplist (λ r. r) save_all in_order.run unused (pos 0) (wide ∷ []) 1).1 (negsuc 0)
      (late ∷ []) 1

vis_jumplist-back_example :
    (came_back.1.cursor ≡ 33)
    × (came_back.0 ≡ (
        if ltb 0 (length (mark_set (λ r. r) save_all (wide ∷ [])))
          && not (
              vis_mark_equal
                (mark_get
                  (λ r. r)
                  save_all
                  in_order.run
                  (some (mark_set (λ r. r) save_all (wide ∷ []))))
                (late ∷ []))
        then some (
          1,
          mark_get (λ r. r) save_all in_order.run (some (mark_set (λ r. r) save_all (wide ∷ []))),
        )
        else none))
vis_jumplist-back_example =
    vis_jumplist-back (λ r. r) save_all in_order.run unused (wide ∷ []) (late ∷ []) 1 1
      (omega arith) refl
