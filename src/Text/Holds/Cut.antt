-- ===== src/Text/Holds/Cut.antt =====
-- The bytes that a deletion leaves of the pieces at its two ends (text.c).
use vis.Prelude.{
  ℕ, ◌+◌, ◌-◌, ◌≤◌, ◌<◌, ◌≡◌, sym, ap, ◌∙◌, List, [], ◌∷◌, ◌++◌, append_assoc, append-nil, length,
  length-append, take, drop, take-append_eq, drop-append_eq, arith,
}
use vis.Prelude.Slices.{removed}
use vis.Text.State.{Ptr, slice, advance}
use vis.Text.Chain.{Store, last_of, total}
use vis.Text.Content.{Blocks, AllPlaced, content, length-slice}
use vis.Text.Holds.Middle.{slice-cut, Placed-front}

-- A span of `n` bytes at `pos` that begins behind `Y` and ends behind `X`, in the middle part of
-- three.
pub removed_between :
    (P C Q Y Z X W : List ℕ) (pos n : ℕ)
    → C ≡ Y ++ Z
    → C ≡ X ++ W
    → pos ≡ length P + length Y
    → pos + n ≡ length P + length X
    → removed (P ++ C ++ Q) pos n ≡ P ++ (Y ++ W) ++ Q
removed_between P C Q Y Z X W pos n y x hy hx =
    let front : P ++ C ++ Q ≡ (P ++ Y) ++ (Z ++ Q) = rw y (simp append_assoc) in
    let back : P ++ C ++ Q ≡ (P ++ X) ++ (W ++ Q) = rw x (simp append_assoc) in
    let before =
      ap (take pos) front ∙ take-append_eq pos (P ++ Y) (Z ++ Q) (rw length-append (sym hy)) in
    let after =
      ap (drop (pos + n)) back
      ∙ drop-append_eq (pos + n) (P ++ X) (W ++ Q) (rw length-append (sym hx)) in
    rw (before, after) (simp append_assoc)

-- The last `m` bytes of some pieces, which the last piece holds, and those before them.
pub record Tail (block : Blocks) (h : Store) (p : Ptr) (r : List Ptr) (m : ℕ) : Type 0 where
  pub before : List ℕ
  pub bytes :
      content block h (p ∷ r)
      ≡ before ++ slice (advance (h (last_of p r)).source ((h (last_of p r)).len - m)) m block
  pub counted : length before + m ≡ total h (p ∷ r)

pub content-Tail :
    (block : Blocks) (count : ℕ) (h : Store) (p : Ptr) (r : List Ptr) (m : ℕ)
    → AllPlaced block count h (p ∷ r)
    → 0 < m
    → m ≤ (h (last_of p r)).len
    → Tail block h p r m
unfolding content
content-Tail block count h p [] m k more le =
    let off = (h p).len - m in
    let rest : (h p).len - off ≡ m = omega arith in
    record {
      before = slice (h p).source off block;
      bytes =
          append-nil _
          ∙ slice-cut block (h p).source off (h p).len (omega arith)
          ∙ ap (λ z. slice (h p).source off block ++ slice (advance (h p).source off) z block) rest;
      counted = omega (
        arith,
        length-slice block count (h p).source off
            (Placed-front block count (h p).source off (h p).len (omega arith) k.0),
      );
    }
content-Tail block count h p (q ∷ r) m k more le =
    let t = content-Tail block count h q r m k.1 more le in
    record {
      before = slice (h p).source (h p).len block ++ t.before;
      bytes =
          ap (λ z. slice (h p).source (h p).len block ++ z) t.bytes
          ∙ sym (append_assoc (slice (h p).source (h p).len block) t.before _);
      counted =
          rw length-append
            (omega (arith, t.counted, length-slice block count (h p).source (h p).len k.0));
    }
