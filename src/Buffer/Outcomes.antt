-- ===== src/Buffer/Outcomes.antt =====
-- What a caller of the buffer's operations learns from the result (buffer.c).
use vis.Prelude.{
  ℕ, ◌+◌, ◌-◌, ◌≤◌, ◌≡◌, ◌⊎◌, inl, inr, Bool, true, false, ◌&&◌, Bool-cases, List, ◌++◌, take, drop,
}
use vis.Prelude.Int.{ℤ, between_zero, to_ℕ}
use vis.Buffer.{Buffer, Realloc, IsValid, content, buffer_reserve, buffer_put, buffer_remove}
use vis.Buffer.Content.{buffer_reserve-Reserved, buffer_put-content}
use vis.Buffer.Edit.{buffer_remove-content}

-- Success with one consequence, or failure with another.
abbrev pub Either : Bool → Type 0 → Type 0 → Type 0
Either t P Q = ((t ≡ true) × P) ⊎ ((t ≡ false) × Q)

by_outcome : {P Q : Type 0} (t : Bool) → (t ≡ true → P) → (t ≡ false → Q) → Either t P Q
by_outcome t f g = elim (Bool-cases t) [ inl e ↦ inl (e, f e) | inr e ↦ inr (e, g e) ]

module _ (realloc : Realloc) where
  -- Reserving room for `n` bytes in a valid buffer leaves a valid buffer. Either it succeeds, with
  -- the capacity at least `n` and the content and its length kept, or it fails and the buffer is
  -- the old one.
  pub buffer_reserve-room :
      (b : Buffer) (n : ℕ)
      → IsValid b
      → IsValid (buffer_reserve realloc b n).1
        × Either
            (buffer_reserve realloc b n).0
            ((n ≤ (buffer_reserve realloc b n).1.size)
              × ((buffer_reserve realloc b n).1.len ≡ b.len)
              × (content (buffer_reserve realloc b n).1 ≡ content b))
            ((buffer_reserve realloc b n).1 ≡ b)
  buffer_reserve-room b n v =
      let r = buffer_reserve-Reserved realloc b n v in
      (r.valid, by_outcome _ (λ e. (r.room e, r.len, r.same)) r.failed)

  -- Putting `s` into a valid buffer leaves a valid buffer. Either it succeeds and the content is
  -- `s`, or it fails and the buffer is the old one.
  pub buffer_put-put :
      (b : Buffer) (s : List ℕ)
      → IsValid b
      → IsValid (buffer_put realloc b s).1
        × Either
            (buffer_put realloc b s).0
            (content (buffer_put realloc b s).1 ≡ s)
            ((buffer_put realloc b s).1 ≡ b)
  buffer_put-put b s v = let r = buffer_put-content realloc b s v in (r.0, by_outcome _ r.1 r.2)

-- Removing `n` bytes at `at` from a valid buffer leaves a valid buffer. It succeeds exactly if the
-- span, whose signed arguments may be negative, lies within the content. The content then loses the
-- span, and else the buffer is the old one.
pub buffer_remove-removed :
    (b : Buffer) (at n : ℤ)
    → IsValid b
    → IsValid (buffer_remove b at n).1
      × ((buffer_remove b at n).0 ≡ (between_zero at b.len && between_zero n (b.len - to_ℕ at)))
      × Either
          (buffer_remove b at n).0
          (content (buffer_remove b at n).1
            ≡ take (to_ℕ at) (content b) ++ drop (to_ℕ at + to_ℕ n) (content b))
          ((buffer_remove b at n).1 ≡ b)
buffer_remove-removed b at n v =
    let r = buffer_remove-content b at n v in (r.0, r.1, by_outcome _ r.2 r.3)
