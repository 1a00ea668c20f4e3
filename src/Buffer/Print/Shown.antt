-- ===== src/Buffer/Print/Shown.antt =====
-- What is in a buffer after a formatted string was printed at its end (buffer.c).
use vis.Prelude.{
  le→ltb_false, le→leb, lt→ltb, ℕ, zero, suc, ◌+◌, ◌-◌, ◌≤◌, ◌<◌, ◌≡◌, refl, subst, sym, ap, ◌∙◌,
  true, false, none, some, List, [], ◌∷◌, ◌++◌, length, length-append, length-take, take, take_all,
  drop, ltb, ltb→lt, ne→==_false, Option, if◌then◌else◌, ◌*◌, leb, leb→le, ==_iff, ◌==◌, Bool-cases,
  inl, inr, arith, append-nil, append_assoc, take-append_eq, ◌⊎◌,
}
use vis.Prelude.Slices.{write_at, length-write_at, take-write_at_below}
use vis.Range.{c_max}
use vis.Buffer.{
  buffer_size, resized, Buffer, Realloc, Outcome, IsValid, content, array, buffer_reserve,
}
use vis.Buffer.Content.{Reserved, resized-Reserved}
use vis.Buffer.Print.{
  cut_print, print, printed, print_again, append_print, vis_buffer_vappendf, string,
}

length-cut_print : (n : ℕ) (s : List ℕ) → length (cut_print n s) ≤ n
unfolding cut_print
length-cut_print zero s = omega arith
length-cut_print (suc n) s = rw (length-append, length-take) (omega arith)

record Same (b c : Buffer) : Type 0 where
  valid : IsValid c
  same : content c ≡ content b
  len : c.len ≡ b.len
  size : c.size ≡ b.size

fits :
    (b : Buffer) (s : List ℕ)
    → IsValid b
    → (b.size - b.len == 0) ≡ false
    → b.len + length (cut_print (b.size - b.len) s) ≤ length (array b.bytes)
fits b s v e = omega (arith, length-cut_print (b.size - b.len) s, v.allocated, v.within)

print-Same : (b : Buffer) (s : List ℕ) → IsValid b → Same b (print b s)
unfolding print
print-Same b s v = elim (Bool-cases (b.size - b.len == 0)) [
  | inl e ↦ rw e (record { valid = v; same = refl; len = refl; size = refl })
  | inr e ↦ rw e (record {
    valid = record {
      allocated = v.allocated ∙ sym (length-write_at (array b.bytes) b.len _ (fits b s v e));
      within = v.within;
    };
    same =
        take-write_at_below (array b.bytes) b.len b.len _ (omega arith)
          (omega (arith, v.within, v.allocated));
    len = refl;
    size = refl;
  })
]

-- The first bytes of what was written, behind the old ones.
take-write_at_front :
    (d : List ℕ) (i n : ℕ) (x y : List ℕ)
    → i ≤ length d
    → n ≡ length x
    → take (i + n) (write_at d i (x ++ y)) ≡ take i d ++ x
unfolding write_at
take-write_at_front d i n x y h e =
    rw
      (← append_assoc (take i d) x y, append_assoc (take i d ++ x) y (drop (i + length (x ++ y)) d))
      (take-append_eq (i + n) (take i d ++ x) (y ++ drop (i + length (x ++ y)) d)
        (rw (length-append, length-take) (omega (arith, e))))

cut_print-fits : (n : ℕ) (s : List ℕ) → length s < n → cut_print n s ≡ s ++ (0 ∷ [])
unfolding cut_print
cut_print-fits zero s h = absurd (omega arith)
cut_print-fits (suc n) s h = rw (take_all n s (omega arith))

-- What is behind the old bytes, where there is room for the string: the string, or, if there is none
-- for the terminator, the string with the terminator in the place of its last byte.
abbrev pub shown : List ℕ → ℕ → List ℕ
shown s room = if ltb (length s) room then s else cut_print (length s) s

cut_nothing : (s : List ℕ) → length s ≡ 0 → s ≡ cut_print (length s) s
unfolding cut_print
cut_nothing [] e = refl
cut_nothing (x ∷ s) e = absurd (omega (arith, e))

longer : Buffer → ℕ → Buffer
longer b n = record b { len = b.len + n }

content-longer :
    (b : Buffer) (s x y : List ℕ)
    → IsValid b
    → (b.size - b.len == 0) ≡ false
    → cut_print (b.size - b.len) s ≡ x ++ y
    → length s ≡ length x
    → content (longer (print b s) (length s)) ≡ content b ++ x
unfolding print longer
content-longer b s x y v e c l =
    rw (e, c)
      (take-write_at_front (array b.bytes) b.len (length s) x y
        (omega (arith, v.within, v.allocated)) l)

full_length : (n : ℕ) (s : List ℕ) → 0 < n → length s ≡ n → length s ≡ length (cut_print n s)
unfolding cut_print
full_length zero s h e = absurd (omega arith)
full_length (suc n) s h e = rw (length-append, length-take) (omega arith)

content-nothing :
    (b : Buffer) (s : List ℕ)
    → (b.size - b.len == 0) ≡ true
    → length s ≡ 0
    → content (longer (print b s) (length s)) ≡ content b ++ s
unfolding print longer
content-nothing b [] z e =
    let same : b.len + 0 ≡ b.len = omega arith in rw (z, same) (sym (append-nil (content b)))
content-nothing b (c ∷ s) z e = absurd (omega arith)

-- The content after a print that had room for the string, if not for the terminator.
print-shown :
    (b : Buffer) (s : List ℕ)
    → IsValid b
    → length s ≤ b.size - b.len
    → content (longer (print b s) (length s)) ≡ content b ++ shown s (b.size - b.len)
print-shown b s v h = elim (Bool-cases (ltb (length s) (b.size - b.len))) [
  | inl e ↦
      let lt = ltb→lt _ _ e in
      rw e (
        content-longer b s s (0 ∷ []) v (ne→==_false _ 0 (omega arith)) (cut_print-fits _ s lt)
          refl)
  | inr e ↦
      let full : length s ≡ b.size - b.len = ground (arith, h, e) in
      elim (Bool-cases (b.size - b.len == 0)) [
        | inl z ↦
            let none_left : length s ≡ 0 = omega (arith, full, (==_iff (b.size - b.len) 0).0 z) in
            rw e
              (content-nothing b s z none_left ∙ ap (λ x. content b ++ x) (cut_nothing s none_left))
        | inr z ↦ rw e (
            content-longer b s (cut_print (length s) s) [] v z
              (sym (append-nil _ ∙ ap (λ n. cut_print n s) full))
              (full_length (length s) s (ground (arith, full, z)) refl))
      ]
]

-- The result where there is room for the string and where there is none.
record Printed (b : Buffer) (s : List ℕ) (room : ℕ) (o : Outcome) : Type 0 where
  valid : IsValid o.1
  done : o.0 ≡ leb (length s) room
  text : content o.1 ≡ content b ++ (if leb (length s) room then shown s room else [])

-- Printing into a valid buffer `c` with the content of `b`.
print-Printed :
    (b c : Buffer) (s : List ℕ)
    → IsValid c
    → content c ≡ content b
    → Printed b s (c.size - c.len) (printed (print c s) s)
unfolding printed longer
print-Printed b c s v e =
    let p = print-Same c s v in
    let same : (print c s).size - (print c s).len ≡ c.size - c.len = omega (arith, p.size, p.len) in
    elim (Bool-cases (leb (length s) (c.size - c.len))) [
      | inl t ↦
          let le = leb→le _ _ t in
          rw (same, t)
            (record {
              valid = record {
                allocated = p.valid.allocated;
                within = omega (arith, le, same, p.valid.within, p.size, p.len);
              };
              done = rw t refl;
              text = rw t (print-shown c s v le ∙ ap (λ z. z ++ shown s (c.size - c.len)) e);
            })
      | inr t ↦
          rw (same, t)
            (record {
              valid = p.valid;
              done = rw t refl;
              text = rw t (p.same ∙ e ∙ sym (append-nil (content b)));
            })
    ]

-- The same buffer is looked at again where no room could be made.
again-Printed :
    (b c : Buffer) (s : List ℕ)
    → c ≡ print b s
    → IsValid b
    → Printed b s (b.size - b.len) (printed c s)
again-Printed b c s e v =
    subst (λ z. Printed b s (b.size - b.len) (printed z s)) (sym e) (print-Printed b b s v refl)

-- The capacity that is asked for where the string and its terminator do not fit.
abbrev pub wanted : Buffer → List ℕ → ℕ
wanted b s = c_max (c_max (b.size + c_max 1 (length s - (b.size - b.len))) buffer_size) (b.size * 2)

abbrev pub fresh : Buffer
fresh = record { bytes = none; len = 0; size = 0 }

cut_full :
    (d s : List ℕ)
    → length s ≡ 1024
    → take 1024 (write_at d 0 (cut_print 1024 s)) ≡ take 1023 s ++ (0 ∷ [])
unfolding cut_print write_at
cut_full d s l =
    take-append_eq 1024 (take 1023 s ++ (0 ∷ [])) (drop _ d) (rw (length-append, length-take, l))

size-printed : (c : Buffer) (s : List ℕ) → (printed c s).1.size ≡ c.size
unfolding printed
size-printed c s = elim (Bool-cases (leb (length s) (c.size - c.len))) [
  | inl e ↦ rw e refl
  | inr e ↦ rw e refl
]

wanted_room :
    (b : Buffer) (s : List ℕ)
    → b.len ≤ b.size
    → (b.len + length s ≤ wanted b s) × (b.size ≤ wanted b s)
wanted_room b s k = (ground arith, ground arith)

resized-IsValid :
    (c : Buffer) (d : List ℕ) (n size : ℕ)
    → Reserved c n (resized c size (some d))
    → IsValid (record c { bytes = some d; size = size })
unfolding resized
resized-IsValid c d n size r = r.valid

content-resized :
    (c : Buffer) (d : List ℕ) (n size : ℕ)
    → Reserved c n (resized c size (some d))
    → content (record c { bytes = some d; size = size }) ≡ content c
unfolding resized
content-resized c d n size r = r.same

-- There was room for the string and its terminator.
abbrev pub Fits : Buffer → List ℕ → Outcome → Type 0
Fits b s o = (length s < b.size - b.len) × (o.0 ≡ true) × (content o.1 ≡ content b ++ s)

-- There was none, and more was allocated: the string is there, but for its last byte where the new
-- capacity is exactly that of the string.
abbrev pub Grown : Realloc → Buffer → List ℕ → Outcome → Type 0
Grown realloc b s o =
    (b.size - b.len ≤ length s)
    × ((d : List ℕ) × (realloc.run (print b s).bytes (wanted b s) ≡ some d))
    × (o.0 ≡ true)
    × (o.1.size ≡ wanted b s)
    × (content o.1 ≡ content b ++ shown s (wanted b s - b.len))

-- There was none, and no more could be allocated: the call succeeds only where there was exactly the
-- room for the string, which then lacks its last byte.
abbrev pub Stuck : Realloc → Buffer → List ℕ → Outcome → Type 0
Stuck realloc b s o =
    (b.size - b.len ≤ length s)
    × (realloc.run (print b s).bytes (wanted b s) ≡ none)
    × (o.0 ≡ leb (length s) (b.size - b.len))
    × (content o.1
        ≡ content b ++ (if leb (length s) (b.size - b.len) then cut_print (length s) s else []))

module _ (realloc : Realloc) (b : Buffer) (s : List ℕ) (v : IsValid b) where
  -- The second attempt, by what the allocation yields.
  second_print :
      (p : Option (List ℕ))
      → realloc.run (print b s).bytes (wanted b s) ≡ p
      → b.size - b.len ≤ length s
      → IsValid (print_again (resized (print b s) (wanted b s) p) s).1
        × (Grown realloc b s (print_again (resized (print b s) (wanted b s) p) s)
            ⊎ Stuck realloc b s (print_again (resized (print b s) (wanted b s) p) s))
  unfolding print_again resized
  second_print none e k =
      let p = again-Printed b (print b s) s refl v in
      let cut : shown s (b.size - b.len) ≡ cut_print (length s) s =
        rw (le→ltb_false (length s) (b.size - b.len) k) refl in
      (
        p.valid,
        inr (
          k,
          e,
          p.done,
          p.text ∙ ap (λ z. content b ++ (if leb (length s) (b.size - b.len) then z else [])) cut,
        ),
      )
  second_print (some d) e k =
      let p = print-Same b s v in
      let w = wanted_room b s v.within in
      let r =
        resized-Reserved realloc (print b s) (b.len + length s) (wanted b s) (some d) e w.0
          (omega (arith, w.1, p.size)) p.valid in
      let c : Buffer = record (print b s) { bytes = some d; size = wanted b s } in
      let q =
        print-Printed b c s (resized-IsValid (print b s) d (b.len + length s) (wanted b s) r)
          (content-resized (print b s) d (b.len + length s) (wanted b s) r ∙ p.same) in
      let room : wanted b s - (print b s).len ≡ wanted b s - b.len =
        ap (λ n. wanted b s - n) p.len in
      let fits : leb (length s) (wanted b s - b.len) ≡ true = le→leb _ _ (omega (arith, w.0)) in
      (
        q.valid,
        inl (
          k,
          (d, e),
          q.done ∙ ap (leb (length s)) room ∙ fits,
          size-printed (print c s) s
              ∙ (print-Same c s
                  (resized-IsValid (print b s) d (b.len + length s) (wanted b s) r)).size,
          q.text
              ∙ ap (λ n. content b ++ (if leb (length s) n then shown s n else [])) room
              ∙ rw fits refl,
        ),
      )

  appended :
      IsValid (append_print realloc b s).1
      × (Fits b s (append_print realloc b s)
          ⊎ (Grown realloc b s (append_print realloc b s)
              ⊎ Stuck realloc b s (append_print realloc b s)))
  unfolding append_print buffer_reserve
  appended = elim (Bool-cases (ltb (length s) (b.size - b.len))) [
    | inl e ↦
        let lt = ltb→lt _ _ e in
        let p = print-Printed b b s v refl in
        let le : leb (length s) (b.size - b.len) ≡ true = le→leb _ _ (omega (arith, lt)) in
        rw e (p.valid, inl (lt, p.done ∙ le, p.text ∙ rw (le, e) refl))
    | inr e ↦
        let k : b.size - b.len ≤ length s = ground (arith, e) in
        let same = (print-Same b s v).size in
        let small : ltb b.size (c_max (b.size + c_max 1 (length s - (b.size - b.len))) buffer_size)
            ≡ true =
          lt→ltb _ _ (ground arith) in
        rw (e, same, small)
          (let r = second_print (realloc.run (print b s).bytes (wanted b s)) refl k in
            (r.0, inr r.1))
  ]

  -- Printing a string at the end of a valid buffer leaves a valid one, in one of three ways. Where
  -- there is room for the string and its terminator, the call succeeds and the string is behind the old
  -- content. Where there is none and more is allocated, the capacity is the one asked for, the call
  -- succeeds, and the string is behind the old content, with a NUL for its last byte where that capacity
  -- has no room for the terminator. Where no more can be allocated, the call succeeds exactly if there
  -- was the room for the string alone, which then has a NUL for its last byte; else the content is the
  -- old one.
  pub vis_buffer_vappendf-Appended :
      (o : Outcome) × (vis_buffer_vappendf realloc b (string s) ≡ some o)
      × IsValid o.1
      × (Fits b s o ⊎ (Grown realloc b s o ⊎ Stuck realloc b s o))
  unfolding vis_buffer_vappendf
  vis_buffer_vappendf-Appended = (append_print realloc b s, refl, appended.0, appended.1)

module _ (realloc : Realloc) where
  -- A string of 1024 bytes that is printed into a fresh buffer, where the allocation succeeds, loses
  -- its last byte: the call succeeds, and the content ends with a NUL in its place.
  pub vis_buffer_vappendf-cut :
      (s d : List ℕ)
      → length s ≡ 1024
      → realloc.run none 1024 ≡ some d
      → (c : Buffer) × (vis_buffer_vappendf realloc fresh (string s) ≡ some (true, c))
        × (content c ≡ take 1023 s ++ (0 ∷ []))
  unfolding vis_buffer_vappendf append_print buffer_reserve print resized printed print_again
  vis_buffer_vappendf-cut s d l r = rw (l, r) (_, refl, cut_full d s l)
