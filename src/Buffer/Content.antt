-- ===== src/Buffer/Content.antt =====
-- What reserving space and replacing the content do (`buffer_reserve`, `buffer_put`, `buffer_grow`).
use vis.Prelude.{
  ℕ, ◌≤◌, ◌≡◌, refl, ◌∙◌, true, false, Option, none, some, List, length, take-append_eq, inl, inr,
  arith, ltb, Bool-cases,
}
use vis.Prelude.Slices.{write_at, length-write_at}
use vis.Range.{c_max}
use vis.Buffer.{
  Buffer, Realloc, Outcome, IsValid, content, array, resized, buffer_size, buffer_reserve,
  put_bytes, buffer_put,
}

-- What a request for `n` bytes yields: the same content, and room for `n` if it succeeds.
pub record Reserved (b : Buffer) (n : ℕ) (o : Outcome) : Type 0 where
  pub valid : IsValid o.1
  pub same : content o.1 ≡ content b
  pub len : o.1.len ≡ b.len
  pub room : o.0 ≡ true → n ≤ o.1.size
  pub failed : o.0 ≡ false → o.1 ≡ b

put_bytes-content :
    (b : Buffer) (s : List ℕ) (o : Outcome)
    → Reserved b (length s) o
    → IsValid (put_bytes o s).1
      × ((put_bytes o s).0 ≡ true → content (put_bytes o s).1 ≡ s)
      × ((put_bytes o s).0 ≡ false → (put_bytes o s).1 ≡ b)
unfolding put_bytes
put_bytes-content b s (false, c) r = (r.valid, λ f. cc, λ f. r.failed refl)
put_bytes-content b s (true, c) r = (
  record { allocated = r.valid.allocated ∙ fits; within = r.room refl },
  λ f. unfold write_at in take-append_eq (length s) s _ refl,
  λ f. cc,
)
  where
    fits : length (array c.bytes) ≡ length (write_at (array c.bytes) 0 s)
    fits = omega (arith, length-write_at (array c.bytes) 0 s, r.valid.allocated, r.room refl)

module _ (realloc : Realloc) where
  pub resized-Reserved :
      (b : Buffer) (n size : ℕ) (p : Option (List ℕ))
      → realloc.run b.bytes size ≡ p
      → n ≤ size
      → b.size ≤ size
      → IsValid b
      → Reserved b n (resized b size p)
  unfolding resized
  resized-Reserved b n size none e h k v = record {
    valid = v;
    same = refl;
    len = refl;
    room = λ f. cc;
    failed = λ f. refl;
  }
  resized-Reserved b n size (some d) e h k v = record {
    valid = record {
      allocated = omega (arith, realloc.length_run b.bytes size d e);
      within = omega (arith, v.within);
    };
    same =
        realloc.keeps b.bytes size d e (omega (arith, v.allocated)) b.len
          (omega (arith, v.allocated, v.within));
    len = refl;
    room = λ f. h;
    failed = λ f. cc;
  }

  -- Reserving keeps the content and the invariant, makes the room that was asked for if it reports
  -- success, and changes nothing if it reports failure.
  pub buffer_reserve-Reserved :
      (b : Buffer) (n : ℕ) → IsValid b → Reserved b n (buffer_reserve realloc b n)
  unfolding buffer_reserve
  buffer_reserve-Reserved b n v = elim (Bool-cases (ltb b.size (c_max n buffer_size))) [
    | inl small ↦ rw small (resized-Reserved b n _ _ refl (ground arith) (ground arith) v)
    | inr large ↦ rw large (record {
      valid = v;
      same = refl;
      len = refl;
      room = λ f. ground arith;
      failed = λ f. refl;
    })
  ]

  -- Putting replaces the whole content, or reports failure and changes nothing.
  pub buffer_put-content :
      (b : Buffer) (s : List ℕ)
      → IsValid b
      → IsValid (buffer_put realloc b s).1
        × ((buffer_put realloc b s).0 ≡ true → content (buffer_put realloc b s).1 ≡ s)
        × ((buffer_put realloc b s).0 ≡ false → (buffer_put realloc b s).1 ≡ b)
  unfolding buffer_put
  buffer_put-content b s v =
      put_bytes-content b s (buffer_reserve realloc b (length s))
        (buffer_reserve-Reserved b (length s) v)
