-- ===== src/Motions.antt =====
-- text-motions.c: functions from a position to a position. The loops over an iterator come in four
-- forms, which stand here.
pub mod Search
pub mod Line
pub mod Word
pub mod Sentence
pub mod Bracket
use vis.Prelude.{
  ℕ, zero, suc, ◌+◌, Bool, true, false, not, Option, none, some, leb, ltb, ◌==◌, if◌then◌else◌,
  ◌&&◌, ◌||◌,
}
use vis.Text.State.{Text}
use vis.Text.Iterator.{Iterator, Step, text_iterator_byte_get}
use vis.Text.Iterator.Chars.{or_else}

-- The classes of characters of util.h, and `is_word_boundary`.
unfoldable pub is_blank : ℕ → Bool
is_blank c = c == b' ' || c == b'\t'

unfoldable pub is_space : ℕ → Bool
is_space c = c == b' ' || c == b'\t' || c == b'\n' || c == b'\r'

unfoldable pub is_ascii : ℕ → Bool
is_ascii c = ltb c 0x80

unfoldable pub is_word_boundary : ℕ → Bool
unfolding is_ascii
is_word_boundary c =
    is_ascii c
    && not (
        (leb b'0' c && leb c b'9')
        || (leb b'a' c && leb c b'z')
        || (leb b'A' c && leb c b'Z')
        || c == b'_')

-- `while (test(c) && step(&it, &c));`
unfoldable pub while_step : ℕ → (Iterator → Step) → (ℕ → Bool) → ℕ → Iterator → ℕ × Iterator
while_step zero step test c it = (c, it)
while_step (suc k) step test c it =
    let s = step it in
    let rest = while_step k step test (or_else s.byte c) s.it in
    if test c then (if s.moved then rest else (or_else s.byte c, s.it)) else (c, it)

-- `while (step(&it, &c) && test(c));`
unfoldable pub step_while : ℕ → (Iterator → Step) → (ℕ → Bool) → ℕ → Iterator → ℕ × Iterator
step_while zero step test c it = (c, it)
step_while (suc k) step test c it =
    let s = step it in
    let rest = step_while k step test (or_else s.byte c) s.it in
    if s.moved && test (or_else s.byte c) then rest else (or_else s.byte c, s.it)

-- `do pos = it.pos; while (step(&it, &c) && test(c));`, with the last `pos`.
unfoldable pub last_pos : ℕ → (Iterator → Step) → (ℕ → Bool) → ℕ → Iterator → ℕ
last_pos zero step test c it = it.pos
last_pos (suc k) step test c it =
    let s = step it in
    let rest = last_pos k step test (or_else s.byte c) s.it in
    if s.moved && test (or_else s.byte c) then rest else it.pos

-- `while (text_iterator_byte_get(&it, &c) && test(c)) step(&it, NULL);`
unfoldable pub get_while : ℕ → Text → (Iterator → Step) → (ℕ → Bool) → Iterator → Iterator
unfolding text_iterator_byte_get
get_while zero t step test it = it
get_while (suc k) t step test it =
    let rest = get_while k t step test (step it).it in
    elim (text_iterator_byte_get t it) [ none ↦ it | some c ↦ if test c then rest else it ]
