-- ===== src/Buffer/Print.antt =====
-- `vis_buffer_vappendf`: a formatted string at the end of a buffer (buffer.c).
pub mod Shown
use vis.Prelude.{
  Option, ℕ, zero, suc, ◌+◌, ◌-◌, ◌≤◌, ◌<◌, ◌≡◌, refl, subst, sym, ap, ◌∙◌, true, false, none, some,
  List, [], ◌∷◌, ◌++◌, length, length-append, length-take, take, take_all, drop, ltb, ltb→lt,
  ne→==_false, leb, leb→le, ==_iff, ◌==◌, if◌then◌else◌, Bool-cases, inl, inr, arith, append-nil,
  append_assoc, take-append_eq, ◌⊎◌,
}
use vis.Prelude.Slices.{write_at, length-write_at, take-write_at_below}
use vis.Range.{c_max}
use vis.Buffer.{changed, resized, Buffer, Realloc, Outcome, IsValid, content, array, buffer_reserve}
use vis.Buffer.Content.{Reserved, buffer_reserve-Reserved}
use vis.Buffer.Outcomes.{Either}

-- What `vsnprintf` stores in `n` bytes: the string, cut if there is no room for it and its
-- terminator.
unfoldable pub cut_print : ℕ → List ℕ → List ℕ
cut_print zero s = []
cut_print (suc n) s = take n s ++ (0 ∷ [])

-- `vsnprintf(b->data + b->length, b->size - b->length, ...)`.
unfoldable pub print : Buffer → List ℕ → Buffer
unfolding cut_print
print b s =
    let n = b.size - b.len in
    if n == 0 then b else record b { bytes = some (write_at (array b.bytes) b.len (cut_print n s)) }

-- `result = length <= b->size - b->length`, and the new length.
unfoldable pub printed : Buffer → List ℕ → Outcome
printed b s =
    let result = leb (length s) (b.size - b.len) in
    (result, if result then record b { len = b.len + length s } else b)

-- The second attempt, if room could be made.
unfoldable pub print_again : Outcome → List ℕ → Outcome
unfolding print printed
print_again (done, b) s = printed (if done then print b s else b) s

-- `vis_buffer_vappendf` where `s` is the string that the format and its arguments stand for.
unfoldable pub append_print : Realloc → Buffer → List ℕ → Outcome
unfolding print_again buffer_reserve
append_print realloc b s =
    let remaining = b.size - b.len in
    let b1 = print b s in
    if ltb (length s) remaining
    then printed b1 s
    else print_again (buffer_reserve realloc b1 (b1.size + c_max 1 (length s - remaining))) s

-- What the format and its arguments stand for: a string, or an error of `vsnprintf`, which then
-- returns -1, with the bytes that it has stored by then if there is room for them.
pub data Formatted : Type 0 where
  string : List ℕ → Formatted
  format_error : List ℕ → Formatted

-- An error shortens the buffer by one byte and counts as a success; `none` is the length -1 that it
-- leaves of an empty buffer.
unfoldable pub vis_buffer_vappendf : Realloc → Buffer → Formatted → Option Outcome
unfolding append_print
vis_buffer_vappendf realloc b (string s) = some (append_print realloc b s)
vis_buffer_vappendf realloc b (format_error stored) =
    if b.len == 0
    then none
    else some (
      true,
      record b {
        bytes = changed (λ d. write_at d b.len (take (b.size - b.len) stored)) b.bytes;
        len = b.len - 1;
      },
    )
