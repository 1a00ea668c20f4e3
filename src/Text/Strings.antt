-- ===== src/Text/Strings.antt =====
-- The characters of a string and the columns that it takes up (`text_char_count` and
-- `text_string_width` of text-util.c).
pub mod Examples
use vis.Prelude.{
  ℕ, zero, suc, ◌+◌, ◌-◌, ◌<◌, ◌≤◌, ◌%◌, ◌^◌, ◌≡◌, refl, true, false, Bool, Option, none, some,
  List, [], ◌∷◌, length, take, drop, ◌==◌, if◌then◌else◌, arith, ne→==_false, length-drop,
  Bool-cases, inl, inr,
}
use vis.Text.Iterator.Chars.{Locale, Decoded, invalid, incomplete, nul, char, is_utf8}

-- `while (!ISUTF8(*data)) data++, len--`, over the memory from `bytes` on: `none` where the loop
-- leaves that memory.
unfoldable skip_continuation : List ℕ → ℕ → Option (List ℕ × ℕ)
unfolding is_utf8
skip_continuation [] len = none
skip_continuation (x ∷ xs) len =
    let rest = skip_continuation xs ((len + 2 ^ 64 - 1) % 2 ^ 64) in
    if is_utf8 x then some (x ∷ xs, len) else rest

-- The columns of a character with the `wcwidth` given, where -1 is shown as `^` and a letter.
abbrev columns : Option ℕ → ℕ
columns none = 2
columns (some w) = w

abbrev counts : Option ℕ → ℕ
counts none = 1
counts (some w) = if w == 0 then 0 else 1

-- The bytes that are taken and the columns that they take up.
unfoldable width_of : Bool → Decoded → ℕ × ℕ
width_of tab invalid = (1, 1)
width_of tab incomplete = (1, 0)
width_of tab nul = (1, 2)
width_of tab (char n w) = if tab then (1, 1) else (n, columns w)

-- A character takes at least one byte.
abbrev pub Advances : Decoded → Type 0
Advances invalid = Unit
Advances incomplete = Unit
Advances nul = Unit
Advances (char n w) = 0 < n

width_of_positive : (tab : Bool) (d : Decoded) → Advances d → 0 < (width_of tab d).0
unfolding width_of
width_of_positive tab invalid a = omega arith
width_of_positive tab incomplete a = omega arith
width_of_positive tab nul a = omega arith
width_of_positive true (char n w) a = omega arith
width_of_positive false (char n w) a = a

module _ (locale : Locale) where
  open locale use {Shift, initial, mbrtowc}

  -- The loop with the memory from `bytes` on and the bytes that are left. `none` is a loop that has
  -- not ended after the rounds given or that has left the memory.
  unfoldable char_count_loop : ℕ → Shift → List ℕ → ℕ → ℕ → Option ℕ
  unfolding skip_continuation
  char_count_loop zero ps bytes len count = if len == 0 then some count else none
  char_count_loop (suc k) ps bytes len count =
      let (d, ps') = mbrtowc ps (take len bytes) in
      if len == 0 then some count else elim d [
        | invalid ↦ elim (skip_continuation bytes len) [
          | none ↦ none
          | some r ↦ char_count_loop k initial (r.0) (r.1) (count + 1)
        ]
        | incomplete ↦ some count
        | nul ↦ char_count_loop k ps' (drop 1 bytes) (len - 1) (count + 1)
        | char n w ↦ char_count_loop k ps' (drop n bytes) (len - n) (count + counts w)
      ]

  -- `text_char_count`, with a bound on the rounds of its loop.
  unfoldable pub text_char_count : ℕ → List ℕ → ℕ → Option ℕ
  unfolding char_count_loop
  text_char_count rounds bytes len = char_count_loop rounds initial bytes len 0

  -- The shift state is cleared after an error.
  abbrev reset : Decoded → Shift → Shift
  reset invalid ps = initial
  reset incomplete ps = ps
  reset nul ps = ps
  reset (char n w) ps = ps

  module _ (is_tab : Shift → List ℕ → Bool) where
    -- The loop of `text_string_width`; `is_tab` says whether the decoded character is a tab.
    unfoldable string_width_loop : ℕ → Shift → List ℕ → ℕ → Option ℕ
    unfolding width_of
    string_width_loop zero ps s width = if length s == 0 then some width else none
    string_width_loop (suc k) ps s width =
        let (d, ps') = mbrtowc ps s in
        let (n, w) = width_of (is_tab ps s) d in
        let rest = string_width_loop k (reset d ps') (drop n s) (width + w) in
        if length s == 0 then some width else rest

    unfoldable pub text_string_width : List ℕ → Option ℕ
    unfolding string_width_loop
    text_string_width s = string_width_loop (length s) initial s 0

    string_width_loop-some :
        ((ps : Shift) (s : List ℕ) → Advances ((mbrtowc ps s).0))
        → (k : ℕ) (ps : Shift) (s : List ℕ) (width : ℕ) → length s ≤ k
        → (w : ℕ) × (string_width_loop k ps s width ≡ some w)
    unfolding string_width_loop
    string_width_loop-some a zero ps [] width h = (width, refl)
    string_width_loop-some a (suc k) ps [] width h = (width, refl)
    string_width_loop-some a zero ps (x ∷ s) width h = absurd (omega arith)
    string_width_loop-some a (suc k) ps (x ∷ s) width h =
        let (d, ps') = mbrtowc ps (x ∷ s) in
        let r = width_of (is_tab ps (x ∷ s)) d in
        rw (ne→==_false (length (x ∷ s)) 0 (omega arith)) (
          string_width_loop-some a k (reset d ps') (drop (r.0) (x ∷ s)) (width + r.1) (
            omega (
              arith,
              h,
              length-drop (r.0) (x ∷ s),
              width_of_positive (is_tab ps (x ∷ s)) d (a ps (x ∷ s)),
            )))

    -- If every character that is decoded takes at least one byte, the loop ends within as many rounds
    -- as there are bytes, with a number of columns.
    pub text_string_width-some :
        ((ps : Shift) (s : List ℕ) → Advances ((mbrtowc ps s).0))
        → (s : List ℕ) → (w : ℕ) × (text_string_width s ≡ some w)
    unfolding text_string_width
    text_string_width-some a s = string_width_loop-some a (length s) initial s 0 (omega arith)

  char_count-none :
      (x : ℕ) (xs : List ℕ) (len : ℕ)
      → is_utf8 x ≡ true
      → 0 < len
      → (mbrtowc initial (take len (x ∷ xs))).0 ≡ invalid
      → (k count : ℕ) → char_count_loop k initial (x ∷ xs) len count ≡ none
  unfolding char_count_loop skip_continuation
  char_count-none x xs len u more d zero count = rw (ne→==_false len 0 (omega arith)) refl
  char_count-none x xs len u more d (suc k) count =
      rw (ne→==_false len 0 (omega arith), d, u) (char_count-none x xs len u more d k (count + 1))

  -- A byte that could begin a character, but does not where it stands, first in the string, is
  -- counted for ever: after any number of rounds the loop has not ended.
  pub text_char_count-none :
      (x : ℕ) (xs : List ℕ) (len rounds : ℕ)
      → is_utf8 x ≡ true
      → 0 < len
      → (mbrtowc initial (take len (x ∷ xs))).0 ≡ invalid
      → text_char_count rounds (x ∷ xs) len ≡ none
  unfolding text_char_count
  text_char_count-none x xs len rounds u more d = char_count-none x xs len u more d rounds 0
