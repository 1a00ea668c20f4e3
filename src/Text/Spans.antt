-- ===== src/Text/Spans.antt =====
-- Pieces and spans: allocation, lookup by position, and the swap of spans (text.c).
use vis.Prelude.{ℕ, zero, suc, ◌+◌, ◌-◌, leb, ltb, ◌==◌, if◌then◌else◌, ◌&&◌}
use vis.Text.State.{
  Run, ok, failed, Ptr, null, begin, Data, Piece, Location, Span, Text, Env, set_piece, new_piece,
  update,
}

unfoldable pub piece_alloc : Env → Text → Run Ptr
piece_alloc env t =
    if env.calloc t
    then ok (
      t.next_piece,
      record t { piece = update t.piece t.next_piece new_piece; next_piece = t.next_piece + 1 },
    )
    else failed t

unfoldable pub piece_init : Text → Ptr → (prev next : Ptr) → Data → ℕ → Text
piece_init t p prev next source len =
    set_piece t p (record (t.piece p) { prev = prev; next = next; source = source; len = len })

abbrev pub set_next : Text → Ptr → Ptr → Text
set_next t p q = set_piece t p (record (t.piece p) { next = q })

abbrev pub set_prev : Text → Ptr → Ptr → Text
set_prev t p q = set_piece t p (record (t.piece p) { prev = q })

-- The sum of the lengths from `p` up to the piece `last`; `NULL` ends the walk too.
unfoldable pub span_length : ℕ → (ℕ → Piece) → (p last : Ptr) → ℕ
span_length zero piece p last = 0
span_length (suc k) piece p last =
    let rest = span_length k piece (piece p).next last in
    if p == null then 0 else if p == last then (piece p).len else (piece p).len + rest

unfoldable pub span_init : Text → (start last : Ptr) → Span
unfolding span_length
span_init t start last = record {
  start = start;
  end = last;
  len = span_length (t.next_piece + 1) t.piece start last;
}

-- The document size after the swap.
abbrev pub resize : Text → Span → Span → Text
resize t old new = record t { size = t.size - old.len + new.len }

unfoldable pub span_swap : Text → (old new : Span) → Text
span_swap t old new =
    if old.len == 0 && new.len == 0
    then t
    else if old.len == 0
    then (let t1 = set_next t (t.piece new.start).prev new.start in
        let t2 = set_prev t1 (t1.piece new.end).next new.end in resize t2 old new)
    else if new.len == 0
    then (let t1 = set_next t (t.piece old.start).prev (t.piece old.end).next in
        let t2 = set_prev t1 (t1.piece old.end).next (t1.piece old.start).prev in resize t2 old new)
    else (let t1 = set_next t (t.piece old.start).prev new.start in
        let t2 = set_prev t1 (t1.piece old.end).next new.end in resize t2 old new)

abbrev pub nowhere : Location
nowhere = record { piece = null; off = 0 }

-- The loop of `piece_get_intern`, at piece `p` that begins at byte `cur`.
unfoldable pub get_intern : ℕ → (ℕ → Piece) → (pos : ℕ) → (p : Ptr) → (cur : ℕ) → Location
get_intern zero piece pos p cur = nowhere
get_intern (suc k) piece pos p cur =
    let rest = get_intern k piece pos (piece p).next (cur + (piece p).len) in
    if (piece p).next == null
    then nowhere
    else if leb cur pos && leb pos (cur + (piece p).len)
    then record { piece = p; off = pos - cur }
    else rest

unfoldable pub piece_get_intern : Text → ℕ → Location
unfolding get_intern
piece_get_intern t pos = get_intern (t.next_piece + 1) t.piece pos begin 0

-- The loop of `piece_get_extern` and what follows it.
unfoldable pub get_extern : ℕ → (ℕ → Piece) → (pos : ℕ) → (p : Ptr) → (cur : ℕ) → Location
get_extern zero piece pos p cur = nowhere
get_extern (suc k) piece pos p cur =
    let rest = get_extern k piece pos (piece p).next (cur + (piece p).len) in
    if (piece p).next == null
    then (if cur == pos
        then record { piece = (piece p).prev; off = (piece (piece p).prev).len }
        else nowhere)
    else if leb cur pos && ltb pos (cur + (piece p).len)
    then record { piece = p; off = pos - cur }
    else rest

unfoldable pub piece_get_extern : Text → ℕ → Location
unfolding get_extern
piece_get_extern t pos = get_extern (t.next_piece + 1) t.piece pos (t.piece begin).next 0
