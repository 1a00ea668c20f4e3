-- ===== src/Util/Paths.antt =====
-- `path_split`: where a path is parted, and what its parts are (util.c).
use vis.Prelude.{
  All, ℕ, suc, ◌+◌, ◌≤◌, ◌<◌, ◌≡◌, ◌≢◌, ◌⊎◌, refl, ap, Bool, Option, none, some, [], ◌∷◌, ◌++◌,
  length, drop, take-append_length, ◌==◌, ==_iff, ==_refl, ne→==_false, le→leb, Bool-cases, inl,
  inr, arith,
}
use native.Mathlib.Numerals.{add-one}
use vis.Util.{
  Str8, slash, dot, memory_scan_reverse, str8_split_at, split_path_at, path_split, resolved_path,
  vis_absolute_path,
}

abbrev pub Without : ℕ → Str8 → Type 0
Without byte s = All (λ c. c ≢ byte) s

-- Where the last such byte is found.
abbrev Scanned : Str8 → ℕ → Option ℕ → Type 0
Scanned s byte o =
    ((o ≡ none) × Without byte s)
    ⊎ ((l : Str8) × (r : Str8) × (o ≡ some (length l)) × (s ≡ l ++ byte ∷ r) × Without byte r)

memory_scan_reverse-Scanned : (s : Str8) (byte : ℕ) → Scanned s byte (memory_scan_reverse s byte)
unfolding memory_scan_reverse
memory_scan_reverse-Scanned [] byte = inl (refl, tt)
memory_scan_reverse-Scanned (x ∷ xs) byte = elim (memory_scan_reverse-Scanned xs byte) [
  | inl (e, w) ↦ elim (Bool-cases (x == byte)) [
    | inl f ↦ inr ([], xs, rw (e, f), ap (λ z. z ∷ xs) ((==_iff x byte).0 f), w)
    | inr f ↦ inl (rw (e, f), (ground (arith, f), w))
  ]
  | inr (l, r, e, p, w) ↦ inr (x ∷ l, r, rw e, ap (λ zs. x ∷ zs) p, w)
]

-- No byte parts the path: the directory is `.`.
abbrev pub Whole : Str8 → Str8 × Str8 → Type 0
Whole path r = (r ≡ (dot, path)) × Without slash path

-- The only one is the first byte: the directory is `.`, too.
abbrev pub Rooted : Str8 → Str8 × Str8 → Type 0
Rooted path r = (base : Str8) × (r ≡ (dot, base)) × (path ≡ slash ∷ base) × Without slash base

abbrev pub Parted : Str8 → Str8 × Str8 → Type 0
Parted path r =
    (dir : Str8) × (base : Str8) × (r ≡ (dir, base))
    × (path ≡ dir ++ slash ∷ base)
    × (0 < length dir)
    × Without slash base

drop_past : (l r : Str8) (byte : ℕ) → drop (suc (length l)) (l ++ byte ∷ r) ≡ r
drop_past [] r byte = refl
drop_past (x ∷ l) r byte = drop_past l r byte

drop_behind : (l r : Str8) (byte : ℕ) → drop (length l + 1) (l ++ byte ∷ r) ≡ r
drop_behind l r byte = rw add-one (drop_past l r byte)

length_before : (l r : Str8) (byte : ℕ) → length l ≤ length (l ++ byte ∷ r)
length_before [] r byte = omega arith
length_before (x ∷ l) r byte = omega (arith, length_before l r byte)

str8_split_at-parts :
    (l r : Str8) (byte : ℕ) → str8_split_at (l ++ byte ∷ r) (some (length l)) ≡ (l, r)
unfolding str8_split_at
str8_split_at-parts l r byte = rw (
  le→leb (length l) (length (l ++ byte ∷ r)) (length_before l r byte),
  take-append_length l (byte ∷ r),
  drop_behind l r byte,
)

split_whole : (path : Str8) → split_path_at path none ≡ (dot, path)
unfolding split_path_at str8_split_at
split_whole [] = refl
split_whole (x ∷ xs) = refl

split_rooted : (r : Str8) → split_path_at (slash ∷ r) (some 0) ≡ (dot, r)
unfolding split_path_at str8_split_at
split_rooted [] = refl
split_rooted (y ∷ ys) = rw (le→leb 0 (suc (suc (length ys))) (omega arith))

split_parted :
    (x : ℕ) (l r : Str8) → split_path_at ((x ∷ l) ++ slash ∷ r) (some (length (x ∷ l))) ≡ (x ∷ l, r)
unfolding split_path_at
split_parted x l [] =
    rw (str8_split_at-parts (x ∷ l) [] slash, ne→==_false (suc (length l)) 0 (omega arith))
split_parted x l (y ∷ ys) = rw (str8_split_at-parts (x ∷ l) (y ∷ ys) slash)

split-Scanned :
    (path : Str8) (o : Option ℕ)
    → Scanned path slash o
    → Whole path (split_path_at path o)
      ⊎ (Rooted path (split_path_at path o) ⊎ Parted path (split_path_at path o))
split-Scanned path o (inl (e, w)) = inl (rw e (split_whole path), w)
split-Scanned path o (inr ([], r, e, p, w)) = inr (inl (r, rw (e, p) (split_rooted r), p, w))
split-Scanned path o (inr (x ∷ l, r, e, p, w)) =
    inr (inr (x ∷ l, r, rw (e, p) (split_parted x l r), p, omega arith, w))

-- A path without a `/` is split into `.` and itself, one whose only `/` comes first into `.` and what
-- is behind it, and any other at its last `/`, into a directory that is not empty and a name without
-- a `/`.
pub path_split-parts :
    (path : Str8)
    → Whole path (path_split path) ⊎ (Rooted path (path_split path) ⊎ Parted path (path_split path))
unfolding path_split
path_split-parts path =
    split-Scanned path (memory_scan_reverse path slash) (memory_scan_reverse-Scanned path slash)

scan-Without : (s : Str8) (byte : ℕ) → Without byte s → memory_scan_reverse s byte ≡ none
unfolding memory_scan_reverse
scan-Without [] byte w = refl
scan-Without (x ∷ xs) byte w = rw (scan-Without xs byte w.1, ne→==_false x byte w.0)

scan_first : (s : Str8) (byte : ℕ) → Without byte s → memory_scan_reverse (byte ∷ s) byte ≡ some 0
unfolding memory_scan_reverse
scan_first s byte w = rw (scan-Without s byte w, ==_refl byte)

path_split-rooted : (base : Str8) → Without slash base → path_split (slash ∷ base) ≡ path_split base
unfolding path_split
path_split-rooted base w =
    rw (scan_first base slash w, scan-Without base slash w, split_rooted base, split_whole base)

-- The absolute path of a file in the root directory is that of the file with its name in the current
-- directory, whatever directories resolve to, since a leading `/` is taken for no directory.
pub vis_absolute_path-rooted :
    (realpath : Str8 → Option Str8) (malloc : ℕ → Bool) (base : Str8)
    → Without slash base
    → vis_absolute_path realpath malloc (slash ∷ base) ≡ vis_absolute_path realpath malloc base
unfolding vis_absolute_path
vis_absolute_path-rooted realpath malloc base w =
    ap (resolved_path realpath malloc) (path_split-rooted base w)
