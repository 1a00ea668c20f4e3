-- ===== src/Buffer.antt =====
-- buffer.c: a growing byte buffer. `bytes` is the allocation, whose length is the capacity `size`;
-- `none` is `NULL`. `realloc` is the C library's.
pub mod Content
pub mod Edit
pub mod Outcomes
pub mod Print
pub mod Examples
use vis.Prelude.{
  ℕ, ◌+◌, ◌-◌, ◌*◌, ◌≤◌, ◌≡◌, Bool, true, false, Option, none, some, List, [], ◌∷◌, length, take,
  ltb, leb, ◌==◌, if◌then◌else◌, ◌&&◌,
}
use vis.Prelude.Int.{ℤ, pos, negsuc, between_zero, to_ℕ}
use vis.Prelude.Slices.{write_at, move_within}
use vis.Range.{c_min, c_max}

pub record Buffer : Type 0 where
  pub bytes : Option (List ℕ)
  pub len : ℕ
  pub size : ℕ

abbrev pub buffer_size : ℕ
buffer_size = 1024

-- The bytes behind the pointer; none behind `NULL`.
abbrev pub array : Option (List ℕ) → List ℕ
array none = []
array (some d) = d

abbrev pub is_null : Option (List ℕ) → Bool
is_null none = true
is_null (some d) = false

-- A change of the bytes behind the pointer.
abbrev pub changed : (List ℕ → List ℕ) → Option (List ℕ) → Option (List ℕ)
changed f none = none
changed f (some d) = some (f d)

-- `realloc p n`: `none` on failure, else an array of `n` bytes that begins with the old ones.
pub record Realloc : Type 0 where
  pub run : Option (List ℕ) → ℕ → Option (List ℕ)
  pub length_run : (p : Option (List ℕ)) (n : ℕ) (d : List ℕ) → run p n ≡ some d → length d ≡ n
  pub keeps :
      (p : Option (List ℕ)) (n : ℕ) (d : List ℕ)
      → run p n ≡ some d
      → length (array p) ≤ n
      → (k : ℕ) → k ≤ length (array p)
      → take k d ≡ take k (array p)

-- A state with the outcome of the call.
abbrev pub Outcome : Type 0
Outcome = Bool × Buffer

-- What `buffer_reserve` does with the result of `realloc`.
unfoldable pub resized : Buffer → ℕ → Option (List ℕ) → Outcome
resized b size none = (false, b)
resized b size (some d) = (true, record b { bytes = some d; size = size })

-- The write of the terminator, and the length cut by one where no room could be made for it.
unfoldable pub terminated : Buffer → Buffer
terminated b =
    let b' = record b {
      bytes = some (write_at (array b.bytes) (c_min b.len (b.size - 1)) (0 ∷ []));
    } in
    if b'.len == b'.size then record b' { len = b'.len - 1 } else b'

unfoldable pub put_bytes : Outcome → List ℕ → Outcome
put_bytes (false, b) s = (false, b)
put_bytes (true, b) s =
    (true, record b { bytes = some (write_at (array b.bytes) 0 s); len = length s })

-- The moved tail and the bytes put in its place; the array has grown by `length s` already.
unfoldable pub insert_bytes : Outcome → ℕ → List ℕ → Outcome
insert_bytes (false, b) at s = (false, b)
insert_bytes (true, b) at s =
    let move = b.len - at in
    let d = array b.bytes in
    let d' = if ltb 0 move then move_within d (at + length s) at move else d in
    (true, record b { bytes = some (write_at d' at s); len = b.len + length s })

module _ (realloc : Realloc) where
  unfoldable pub buffer_reserve : Buffer → ℕ → Outcome
  unfolding resized
  buffer_reserve b size0 =
      let size1 = c_max size0 buffer_size in
      if ltb b.size size1
      then (let size = c_max size1 (b.size * 2) in resized b size (realloc.run b.bytes size))
      else (true, b)

  unfoldable pub buffer_grow : Buffer → ℕ → Outcome
  buffer_grow b n = buffer_reserve b (b.len + n)

  unfoldable pub vis_buffer_terminate : Buffer → Buffer
  unfolding terminated
  vis_buffer_terminate b =
      if is_null b.bytes then b else terminated (if b.len == b.size then (buffer_grow b 1).1 else b)

  unfoldable pub buffer_put : Buffer → List ℕ → Outcome
  unfolding put_bytes
  buffer_put b s = put_bytes (buffer_reserve b (length s)) s

  -- `vis_buffer_insert` at a place that is not negative.
  unfoldable pub place_bytes : Buffer → ℕ → List ℕ → Outcome
  unfolding insert_bytes
  place_bytes b at s =
      let result = leb at b.len in
      if result && ltb 0 (length s)
      then insert_bytes (buffer_grow b (length s)) at s
      else (result, b)

  -- `none` is a write in front of the buffer: a negative place is not refused.
  unfoldable pub vis_buffer_insert : Buffer → ℤ → List ℕ → Option Outcome
  unfolding place_bytes
  vis_buffer_insert b (pos at) s = some (place_bytes b at s)
  vis_buffer_insert b (negsuc at) [] = some (true, b)
  vis_buffer_insert b (negsuc at) (x ∷ s) =
      let grown = buffer_grow b (length (x ∷ s)) in if grown.0 then none else some grown

  unfoldable pub buffer_append : Buffer → List ℕ → Outcome
  unfolding place_bytes
  buffer_append b s = place_bytes b b.len s

  -- The bytes that the returned pointer shows: a lone NUL, or the buffer's own bytes.
  unfoldable pub buffer_content0 : Buffer → Buffer × List ℕ
  unfolding vis_buffer_terminate
  buffer_content0 b =
      let b' = vis_buffer_terminate b in (b', if b'.len == 0 then 0 ∷ [] else array b'.bytes)

  -- `read_into_buffer` reports the bytes as read, stored or not.
  unfoldable pub read_into_buffer : Buffer → List ℕ → ℕ × Buffer
  unfolding buffer_append
  read_into_buffer b s = (length s, (buffer_append b s).1)

unfoldable pub buffer_release : Buffer → Buffer
buffer_release b = record { bytes = none; len = 0; size = 0 }

unfoldable pub buffer_remove : Buffer → ℤ → ℤ → Outcome
buffer_remove b at n =
    if between_zero at b.len && between_zero n (b.len - to_ℕ at)
    then (
      true,
      record b {
        bytes =
            changed (λ d. move_within d (to_ℕ at) (to_ℕ at + to_ℕ n) (b.len - to_ℕ at - to_ℕ n))
              b.bytes;
        len = b.len - to_ℕ n;
      },
    )
    else (false, b)

-- The bytes in use.
abbrev pub content : Buffer → List ℕ
content b = take b.len (array b.bytes)

-- The capacity is the allocation's, and the used part lies within it.
pub record IsValid (b : Buffer) : Type 0 where
  pub allocated : b.size ≡ length (array b.bytes)
  pub within : b.len ≤ b.size
