-- ===== src/Buffer/Examples.antt =====
-- A `realloc` that never fails, and the theorems on buffers at a buffer of three bytes (buffer.c).
use vis.Prelude.{
  none, ℕ, zero, suc, ◌≤◌, ◌≡◌, ◌&&◌, ◌-◌, ◌+◌, refl, sym, ◌∙◌, ap, Bool, true, ◌⊎◌, some, List, [],
  ◌∷◌, ◌++◌, length, take, drop, arith,
}
use vis.Prelude.Slices.{write_at}
use vis.Prelude.Int.{pos, negsuc, between_zero}
use vis.Buffer.{
  Outcome, buffer_grow, Buffer, Realloc, IsValid, array, content, buffer_reserve, buffer_put,
  vis_buffer_insert, buffer_append, buffer_remove,
}
use vis.Buffer.Outcomes.{Either, buffer_reserve-room, buffer_put-put, buffer_remove-removed}
use vis.Buffer.Print.{vis_buffer_vappendf, string, format_error}
use vis.Buffer.Print.Shown.{
  Fits, Grown, Stuck, fresh, vis_buffer_vappendf-Appended, vis_buffer_vappendf-cut,
}

-- `n` bytes that begin with those of a list.
pub fit : ℕ → List ℕ → List ℕ
fit zero xs = []
fit (suc n) [] = 0 ∷ fit n []
fit (suc n) (x ∷ xs) = x ∷ fit n xs

pub length-fit : (n : ℕ) (xs : List ℕ) → length (fit n xs) ≡ n
unfolding fit
length-fit zero xs = refl
length-fit (suc n) [] = omega (arith, length-fit n [])
length-fit (suc n) (x ∷ xs) = omega (arith, length-fit n xs)

pub take-fit :
    (n : ℕ) (xs : List ℕ) (k : ℕ) → length xs ≤ n → k ≤ length xs → take k (fit n xs) ≡ take k xs
unfolding fit
take-fit n xs zero h l = refl
take-fit n [] (suc k) h l = absurd (omega arith)
take-fit zero (x ∷ xs) (suc k) h l = absurd (omega arith)
take-fit (suc n) (x ∷ xs) (suc k) h l =
    ap (λ ys. x ∷ ys) (take-fit n xs k (omega arith) (omega arith))

unfoldable pub allocator : Realloc
unfolding fit
allocator = record {
  run = λ p n. some (fit n (array p));
  length_run = λ p n d e. ap (λ o. length (array o)) (sym e) ∙ length-fit n (array p);
  keeps = λ p n d e h k l. ap (λ o. take k (array o)) (sym e) ∙ take-fit n (array p) k h l;
}

abbrev three_bytes : Buffer
three_bytes = record { bytes = some (5 ∷ 6 ∷ 7 ∷ 0 ∷ []); len = 3; size = 4 }

three_bytes-IsValid : IsValid three_bytes
three_bytes-IsValid = record { allocated = refl; within = omega arith }

abbrev put_two : Bool × Buffer
put_two = buffer_put allocator three_bytes (8 ∷ 9 ∷ [])

abbrev reserve_nine : Bool × Buffer
reserve_nine = buffer_reserve allocator three_bytes 9

-- A place in front of the buffer is not refused.
insert_before : vis_buffer_insert allocator three_bytes (negsuc 0) (8 ∷ []) ≡ none
unfolding vis_buffer_insert buffer_grow buffer_reserve allocator
insert_before = refl

abbrev append_one : Bool × Buffer
append_one = buffer_append allocator three_bytes (8 ∷ [])

abbrev remove_two : Bool × Buffer
remove_two = buffer_remove three_bytes (pos 0) (pos 2)

buffer_reserve-room_example :
    IsValid reserve_nine.1
    × Either reserve_nine.0
        ((9 ≤ reserve_nine.1.size)
          × (reserve_nine.1.len ≡ 3)
          × (content reserve_nine.1 ≡ content three_bytes))
        (reserve_nine.1 ≡ three_bytes)
buffer_reserve-room_example = buffer_reserve-room allocator three_bytes 9 three_bytes-IsValid

buffer_put-put_example :
    IsValid put_two.1 × Either put_two.0 (content put_two.1 ≡ 8 ∷ 9 ∷ []) (put_two.1 ≡ three_bytes)
buffer_put-put_example = buffer_put-put allocator three_bytes (8 ∷ 9 ∷ []) three_bytes-IsValid

buffer_remove-removed_example :
    IsValid remove_two.1
    × (remove_two.0 ≡ (between_zero (pos 0) 3 && between_zero (pos 2) (3 - 0)))
    × Either remove_two.0
        (content remove_two.1 ≡ take 0 (content three_bytes) ++ drop (0 + 2) (content three_bytes))
        (remove_two.1 ≡ three_bytes)
buffer_remove-removed_example =
    buffer_remove-removed three_bytes (pos 0) (pos 2) three_bytes-IsValid

-- One byte fits the buffer, but not the terminator behind it.
vis_buffer_vappendf-Appended_example :
    (o : Outcome) × (vis_buffer_vappendf allocator three_bytes (string (8 ∷ [])) ≡ some o)
    × IsValid o.1
    × (Fits three_bytes (8 ∷ []) o
        ⊎ (Grown allocator three_bytes (8 ∷ []) o ⊎ Stuck allocator three_bytes (8 ∷ []) o))
vis_buffer_vappendf-Appended_example =
    vis_buffer_vappendf-Appended allocator three_bytes (8 ∷ []) three_bytes-IsValid

-- An error counts as a success that shortens the buffer.
print_error :
    vis_buffer_vappendf allocator three_bytes (format_error [])
    ≡ some (true, record three_bytes { len = 2 })
unfolding vis_buffer_vappendf write_at
print_error = refl

-- 1024 bytes.
long_string : List ℕ
long_string = fit 1024 (65 ∷ 66 ∷ [])

vis_buffer_vappendf-cut_example :
    (c : Buffer) × (vis_buffer_vappendf allocator fresh (string long_string) ≡ some (true, c))
    × (content c ≡ take 1023 long_string ++ (0 ∷ []))
unfolding long_string allocator
vis_buffer_vappendf-cut_example =
    vis_buffer_vappendf-cut allocator long_string (fit 1024 []) (length-fit 1024 (65 ∷ 66 ∷ []))
      refl
