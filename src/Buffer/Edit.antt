-- ===== src/Buffer/Edit.antt =====
-- Insertion and removal (`vis_buffer_insert`, `buffer_append`, `buffer_remove`).
use vis.Prelude.{
  Option, none, some, zero, suc, le→leb, ◌||◌, sym, ℕ, ◌+◌, ◌-◌, lt→ltb, ◌&&◌, length-take,
  take-append-drop, ◌≤◌, ◌≡◌, refl, ap, ◌∙◌, Bool, true, false, List, [], ◌∷◌, length, take, drop,
  ◌++◌, inl, inr, arith, ltb, Bool-cases, leb, leb→le, take_all, append-nil, drop_all,
  if◌then◌else◌,
}
use vis.Prelude.Int.{ℤ, pos, negsuc, between_zero, to_ℕ}
use vis.Prelude.Slices.{
  inserted, write_at, move_within, length-write_at, length-move_within, take-write_at-move,
  take-write_at_end, take-move_within,
}
use vis.Buffer.{
  Buffer, Realloc, Outcome, IsValid, content, array, changed, buffer_grow, insert_bytes,
  place_bytes, buffer_append, buffer_remove,
}
use vis.Buffer.Content.{Reserved, buffer_reserve-Reserved}

-- The array after the tail has been moved up, if there is one.
moved : Buffer → ℕ → ℕ → List ℕ
moved b at n =
    if ltb 0 (b.len - at)
    then move_within (array b.bytes) (at + n) at (b.len - at)
    else array b.bytes

length-moved :
    (b : Buffer) (at n : ℕ)
    → at ≤ b.len
    → b.len + n ≤ length (array b.bytes)
    → length (moved b at n) ≡ length (array b.bytes)
unfolding moved
length-moved b at n h k = elim (Bool-cases (ltb 0 (b.len - at))) [
  | inl e ↦
      rw e (length-move_within (array b.bytes) (at + n) at (b.len - at) (omega arith) (omega arith))
  | inr e ↦ rw e
]

take-write_at-moved :
    (b : Buffer) (at : ℕ) (s : List ℕ)
    → at ≤ b.len
    → b.len + length s ≤ length (array b.bytes)
    → take (b.len + length s) (write_at (moved b at (length s)) at s) ≡ inserted (content b) at s
unfolding moved
take-write_at-moved b at s h k = elim (Bool-cases (ltb 0 (b.len - at))) [
  | inl e ↦ rw e (take-write_at-move (array b.bytes) at b.len s h k)
  | inr e ↦ rw e (take-write_at_end (array b.bytes) at b.len s h (ground arith) k)
]

and_true : (t : Bool) → (t && true) ≡ t
and_true true = refl
and_true false = refl

and_false : (t : Bool) → (t && false) ≡ false
and_false true = refl
and_false false = refl

length-content : (b : Buffer) → IsValid b → length (content b) ≡ b.len
length-content b v = rw length-take (omega (arith, v.allocated, v.within))

inserted_end : (b : Buffer) (s : List ℕ) → IsValid b → inserted (content b) b.len s ≡ content b ++ s
inserted_end b s v = rw (
  take_all b.len (content b) (omega (arith, length-content b v)),
  drop_all b.len (content b) (omega (arith, length-content b v)),
  append-nil,
)

abbrev pub is_empty : List ℕ → Bool
is_empty [] = true
is_empty (x ∷ s) = false

-- Both outcomes of an insertion: success puts `s` at `at` in the content, failure changes nothing
-- of it; the invariant holds either way. `roomy` says whether room for `s` could be made.
pub record Insertion (b : Buffer) (at : ℕ) (s : List ℕ) (roomy : Bool) (o : Outcome) : Type 0 where
  pub accepted : o.0 ≡ (leb at b.len && (is_empty s || roomy))
  pub valid : IsValid o.1
  pub done : o.0 ≡ true → (at ≤ b.len) × (content o.1 ≡ inserted (content b) at s)
  pub failed : o.0 ≡ false → content o.1 ≡ content b

insert_bytes-Insertion :
    (b : Buffer) (at : ℕ) (s : List ℕ) (o : Outcome)
    → Reserved b (b.len + length s) o
    → at ≤ b.len
    → is_empty s ≡ false
    → Insertion b at s (o.0) (insert_bytes o at s)
unfolding insert_bytes moved
insert_bytes-Insertion b at s (false, c) r h some_bytes = record {
  accepted = rw (le→leb at b.len h, some_bytes) refl;
  valid = r.valid;
  done = λ f. cc;
  failed = λ f. r.same;
}
insert_bytes-Insertion b at s (true, c) r h some_bytes = record {
  accepted = rw (le→leb at b.len h, some_bytes) refl;
  valid = record {
    allocated = r.valid.allocated ∙ sym fits;
    within = omega (arith, r.room refl, r.len);
  };
  done =
      λ f. (h, unfold moved in take-write_at-moved c at s h' k ∙ ap (λ t. inserted t at s) r.same);
  failed = λ f. cc;
}
  where
    h' : at ≤ c.len
    h' = omega (arith, r.len)

    k : c.len + length s ≤ length (array c.bytes)
    k = omega (arith, r.room refl, r.len, r.valid.allocated)

    same_size : length (moved c at (length s)) ≡ length (array c.bytes)
    same_size = length-moved c at (length s) h' k

    fits : length (write_at (moved c at (length s)) at s) ≡ length (array c.bytes)
    fits =
        length-write_at (moved c at (length s)) at s (omega (arith, same_size, k, h')) ∙ same_size

-- Where the code makes no change: it refuses a place beyond the end, and inserts no bytes.
refused-Insertion :
    (b : Buffer) (at : ℕ) (s : List ℕ) (roomy : Bool)
    → leb at b.len ≡ false
    → IsValid b
    → Insertion b at s roomy (false, b)
refused-Insertion b at s roomy e v = record {
  accepted = rw e refl;
  valid = v;
  done = λ f. cc;
  failed = λ f. refl;
}

nothing-Insertion :
    (b : Buffer) (at : ℕ) (roomy : Bool) → IsValid b → Insertion b at [] roomy (leb at b.len, b)
nothing-Insertion b at roomy v = record {
  accepted = sym (and_true (leb at b.len));
  valid = v;
  done = λ f. (leb→le at b.len f, rw (append-nil, take-append-drop at (content b)));
  failed = λ f. refl;
}

module _ (realloc : Realloc) where
  -- Inserting `s` at `at` either succeeds, only at a place within the content, and the content then
  -- has `s` there between its two old parts; or it fails and the content is the old one. The
  -- invariant is kept in both cases.
  pub place_bytes-Insertion :
      (b : Buffer) (at : ℕ) (s : List ℕ)
      → IsValid b
      → Insertion b at s (buffer_grow realloc b (length s)).0 (place_bytes realloc b at s)
  unfolding place_bytes buffer_grow
  place_bytes-Insertion b at [] v = rw (and_false (leb at b.len)) (nothing-Insertion b at _ v)
  place_bytes-Insertion b at (x ∷ s) v = elim (Bool-cases (leb at b.len)) [
    | inl e ↦
        rw (e, lt→ltb 0 (length (x ∷ s)) (omega arith))
          (insert_bytes-Insertion b at (x ∷ s) _
            (buffer_reserve-Reserved realloc b (b.len + length (x ∷ s)) v) (leb→le at b.len e) refl)
    | inr e ↦ rw e (refused-Insertion b at (x ∷ s) _ e v)
  ]

  -- Appending never refuses: it fails only if the memory does, and then changes nothing of the
  -- content; else the content grows by `s` at its end.
  pub buffer_append-content :
      (b : Buffer) (s : List ℕ)
      → IsValid b
      → ((buffer_append realloc b s).0 ≡ (is_empty s || (buffer_grow realloc b (length s)).0))
        × IsValid (buffer_append realloc b s).1
        × ((buffer_append realloc b s).0 ≡ true
            → content (buffer_append realloc b s).1 ≡ content b ++ s)
        × ((buffer_append realloc b s).0 ≡ false
            → content (buffer_append realloc b s).1 ≡ content b)
  unfolding buffer_append
  buffer_append-content b s v =
      let i = place_bytes-Insertion b b.len s v in
      (
        i.accepted ∙ rw (le→leb b.len b.len (omega arith)) refl,
        i.valid,
        λ f. (i.done f).1 ∙ inserted_end b s v,
        i.failed,
      )

take_nil : (n : ℕ) → take {A = ℕ} n [] ≡ []
take_nil zero = refl
take_nil (suc n) = refl

drop_nil : (n : ℕ) → drop {A = ℕ} n [] ≡ []
drop_nil zero = refl
drop_nil (suc n) = refl

nothing_moved : (dst src n : ℕ) → move_within [] dst src n ≡ []
unfolding move_within write_at
nothing_moved dst src n = rw (drop_nil src, take_nil n, take_nil dst) (drop_nil (dst + 0))

array-changed :
    (dst src n : ℕ) (p : Option (List ℕ))
    → array (changed (λ d. move_within d dst src n) p) ≡ move_within (array p) dst src n
array-changed dst src n none = sym (nothing_moved dst src n)
array-changed dst src n (some d) = refl

-- Removing is accepted exactly for a span within the content, signed arguments included; the
-- content then loses that span, and else nothing changes. The invariant is kept.
pub buffer_remove-content :
    (b : Buffer) (at n : ℤ)
    → IsValid b
    → IsValid (buffer_remove b at n).1
      × ((buffer_remove b at n).0 ≡ (between_zero at b.len && between_zero n (b.len - to_ℕ at)))
      × ((buffer_remove b at n).0 ≡ true
          → content (buffer_remove b at n).1
            ≡ take (to_ℕ at) (content b) ++ drop (to_ℕ at + to_ℕ n) (content b))
      × ((buffer_remove b at n).0 ≡ false → (buffer_remove b at n).1 ≡ b)
unfolding buffer_remove
buffer_remove-content b (negsuc i) n v = (v, refl, λ f. cc, λ f. refl)
buffer_remove-content b (pos i) (negsuc n) v =
    rw (and_false (leb i b.len)) (v, refl, λ f. cc, λ f. refl)
buffer_remove-content b (pos i) (pos n) v = elim (Bool-cases (leb i b.len && leb n (b.len - i))) [
  | inl e ↦ rw e (
    record {
      allocated =
          v.allocated
          ∙ sym (
              ap length (array-changed i (i + n) (b.len - i - n) b.bytes)
              ∙ length-move_within (array b.bytes) i (i + n) (b.len - i - n)
                  (ground (arith, e, v.within, v.allocated))
                  (ground (arith, e, v.within, v.allocated)));
      within = omega (arith, v.within);
    },
    refl,
    λ f.
        ap (take (b.len - n)) (array-changed i (i + n) (b.len - i - n) b.bytes)
        ∙ take-move_within (array b.bytes) i n b.len (ground arith)
            (omega (arith, v.within, v.allocated)),
    λ f. cc,
  )
  | inr e ↦ rw e (v, refl, λ f. cc, λ f. refl)
]
