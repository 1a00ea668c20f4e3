-- ===== src/Text/Iterator/Search.antt =====
-- Searching a byte from an iterator on (text-iterator.c).
use vis.Prelude.{ℕ, zero, suc, ◌+◌, ◌-◌, Bool, true, false, none, some, take, drop, if◌then◌else◌}
use vis.Text.State.{Text}
use vis.Text.Iterator.{Iterator, text_iterator_next, text_iterator_prev, piece_bytes}
use vis.Util.{memory_scan_forward, memory_scan_reverse}

-- The loop of `text_iterator_byte_find_prev`, and the step after it.
unfoldable pub find_prev_loop : ℕ → Text → ℕ → Iterator → Bool × Iterator
unfolding text_iterator_prev text_iterator_next memory_scan_reverse
find_prev_loop zero t b it = (false, it)
find_prev_loop (suc k) t b it =
    let rest = find_prev_loop k t b (text_iterator_prev t it) in
    if it.set
    then elim (memory_scan_reverse (take it.off (piece_bytes t it)) b) [
      | some i ↦ (true, record it { pos = it.pos - (it.off - i); off = i })
      | none ↦ rest
    ]
    else (false, text_iterator_next t it)

unfoldable pub text_iterator_byte_find_prev : Text → Iterator → ℕ → Bool × Iterator
unfolding find_prev_loop
text_iterator_byte_find_prev t it b = find_prev_loop (t.next_piece + 1) t b it

unfoldable pub find_next_loop : ℕ → Text → ℕ → Iterator → Bool × Iterator
unfolding text_iterator_prev text_iterator_next memory_scan_forward
find_next_loop zero t b it = (false, it)
find_next_loop (suc k) t b it =
    let rest = find_next_loop k t b (text_iterator_next t it) in
    if it.set
    then elim (memory_scan_forward (drop it.off (piece_bytes t it)) b) [
      | some i ↦ (true, record it { pos = it.pos + i; off = it.off + i })
      | none ↦ rest
    ]
    else (false, text_iterator_prev t it)

unfoldable pub text_iterator_byte_find_next : Text → Iterator → ℕ → Bool × Iterator
unfolding find_next_loop
text_iterator_byte_find_next t it b = find_next_loop (t.next_piece + 1) t b it
