-- ===== src/Marks/Jumps.antt =====
-- `vis_jumplist` (vis-marks.c): the ring of the selections of a window that were saved last.
use vis.Prelude.{
  ℕ, ◌+◌, ◌-◌, ◌%◌, ◌^◌, ◌<◌, ◌≡◌, refl, Bool, true, false, not, Option, none, some, List, [],
  length, ltb, ◌==◌, ==_refl, if◌then◌else◌, ◌&&◌, arith,
}
use vis.Prelude.Int.{ℤ, pos, negsuc}
use vis.Range.{Filerange}
use vis.Marks.{FilerangeList, vis_mark_equal, mark_get, mark_set}

-- `VIS_MARK_SET_LRU_COUNT`.
abbrev pub lru_count : ℕ
lru_count = 32

-- The three fields `mark_set_lru_*` of a window.
pub record JumpList {ℓ} (Region : Type ℓ) : Type ℓ where
  pub cursor : ℕ
  pub regions : ℕ → List Region
  pub modes : ℕ → ℕ

-- The cursor moved by `advance`, a `size_t` that wraps around.
abbrev pub moved : ℕ → ℤ → ℕ
moved cursor (pos n) = (cursor + n) % 2 ^ 64
moved cursor (negsuc n) = (cursor + (2 ^ 64 - (n + 1))) % 2 ^ 64

abbrev pub is_negative : ℤ → Bool
is_negative (pos n) = false
is_negative (negsuc n) = true

abbrev pub is_zero : ℤ → Bool
is_zero (pos n) = n == 0
is_zero (negsuc n) = false

-- Where a window goes: the mode and the selections.
abbrev pub Jump : Type 0
Jump = ℕ × FilerangeList

jump_unless :
    (some_saved same : Bool) (jump : Jump)
    → (if some_saved && not (some_saved && same) then some jump else none)
      ≡ (if some_saved && not same then some jump else none)
jump_unless true true jump = refl
jump_unless true false jump = refl
jump_unless false same jump = refl

module _ {ℓ} {Region : Type ℓ} (restore : Region → Filerange) (save : Filerange → Option Region)
    (qsort : (Filerange → Filerange → ℤ) → FilerangeList → FilerangeList) where
  -- The place of the ring at a number, saved with a mode.
  abbrev pub saved : JumpList Region → ℕ → FilerangeList → ℕ → JumpList Region
  saved s place current mode = record {
    cursor = (s.cursor + 1) % 2 ^ 64;
    regions = λ i. if i == place then mark_set restore save current else s.regions i;
    modes = λ i. if i == place then mode else s.modes i;
  }

  unfoldable pub vis_jumplist :
      JumpList Region → ℤ → (current : FilerangeList) → (mode : ℕ) → Option Jump × JumpList Region
  unfolding vis_mark_equal mark_get mark_set
  vis_jumplist s advance current mode =
      let next = moved s.cursor advance in
      let s1 = record s { cursor = next } in
      let place = (if is_negative advance then next else s.cursor) % lru_count in
      let sel = mark_get restore save qsort (some (s.regions place)) in
      let done = ltb 0 (length (s.regions place)) && vis_mark_equal sel current in
      if is_zero advance then (none, if done then s1 else saved s1 place current mode) else (
        if ltb 0 (length (s.regions place)) && not done then some (s.modes place, sel) else none,
        s1,
      )

  -- Saving the selections where the ring has none, and then going back by one: the cursor is where it
  -- was, and the window goes to the saved mode and to what was saved of the selections, normalised,
  -- unless nothing was saved or the selections are these already.
  pub vis_jumplist-back :
      (s : JumpList Region) (current now : FilerangeList) (mode mode' : ℕ)
      → s.cursor < 2 ^ 64
      → s.regions (s.cursor % lru_count) ≡ []
      → let back = vis_jumplist (vis_jumplist s (pos 0) current mode).1 (negsuc 0) now mode' in
        let regions = mark_set restore save current in
        let sel = mark_get restore save qsort (some regions) in
        (back.1.cursor ≡ s.cursor)
        × (back.0 ≡ (
            if ltb 0 (length regions) && not (vis_mark_equal sel now)
            then some (mode, sel)
            else none))
  unfolding vis_jumplist
  vis_jumplist-back s current now mode mode' h e =
      let stay : (s.cursor + 0) % 2 ^ 64 ≡ s.cursor = omega arith in
      let back : ((s.cursor + 1) % 2 ^ 64 + (2 ^ 64 - 1)) % 2 ^ 64 ≡ s.cursor = omega arith in
      rw (stay, e, back, ==_refl (s.cursor % lru_count)) (refl, jump_unless _ _ _)
