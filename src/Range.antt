-- ===== src/Range.antt =====
-- text-util.c and the range macros of text.h: ranges of byte positions.
pub mod Laws
pub mod Examples
use vis.Prelude.{ℕ, ◌-◌, ◌^◌, ◌≡◌, Bool, not, ◌&&◌, ◌||◌, ltb, leb, ◌==◌, if◌then◌else◌}

-- `(size_t)-1`, the invalid position.
abbrev pub epos : ℕ
epos = 2 ^ 64 - 1

pub record Filerange : Type 0 where
  pub start : ℕ
  pub end : ℕ

abbrev pub range : ℕ → ℕ → Filerange
range a b = record { start = a; end = b }

-- `MIN` and `MAX` of util.h.
abbrev pub c_min : ℕ → ℕ → ℕ
c_min a b = if ltb b a then b else a

abbrev pub c_max : ℕ → ℕ → ℕ
c_max a b = if ltb a b then b else a

unfoldable pub text_range_valid : Filerange → Bool
text_range_valid r = not (r.start == epos) && not (r.end == epos) && leb r.start r.end

unfoldable pub text_range_size : Filerange → ℕ
unfolding text_range_valid
text_range_size r = if text_range_valid r then r.end - r.start else 0

abbrev pub text_range_empty : Filerange
text_range_empty = range epos epos

unfoldable pub text_range_new : ℕ → ℕ → Filerange
text_range_new a b = range (c_min a b) (c_max a b)

unfoldable pub text_range_overlap : Filerange → Filerange → Bool
unfolding text_range_valid
text_range_overlap r1 r2 =
    text_range_valid r1 && text_range_valid r2 && ltb r1.start r2.end && ltb r2.start r1.end

unfoldable pub text_range_union : Filerange → Filerange → Filerange
unfolding text_range_valid
text_range_union r1 r2 =
    if not (text_range_valid r1)
    then r2
    else if not (text_range_valid r2)
    then r1
    else range (c_min r1.start r2.start) (c_max r1.end r2.end)

unfoldable pub text_range_intersect : Filerange → Filerange → Filerange
unfolding text_range_overlap text_range_new
text_range_intersect r1 r2 =
    if not (text_range_overlap r1 r2)
    then text_range_empty
    else text_range_new (c_max r1.start r2.start) (c_min r1.end r2.end)

unfoldable pub text_range_equal : Filerange → Filerange → Bool
unfolding text_range_valid
text_range_equal r1 r2 =
    (not (text_range_valid r1) && not (text_range_valid r2))
    || (r1.start == r2.start && r1.end == r2.end)

unfoldable pub text_range_contains : Filerange → ℕ → Bool
unfolding text_range_valid
text_range_contains r pos = text_range_valid r && leb r.start pos && leb pos r.end
