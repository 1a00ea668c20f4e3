-- ===== src/Text/Chain/Apart.antt =====
-- Distinct pieces, and stores that agree below an address.
use vis.Prelude.{
  All, All-left, All-right, All-append, All-without, All-map, ℕ, ◌≤◌, ◌<◌, ◌≡◌, ◌≢◌, List, [], ◌∷◌,
  ◌++◌, ◌∙◌, refl, sym, ap, arith, append_assoc,
}
use vis.Text.State.{Ptr}
use vis.Text.Chain.{Store, Linked, Avoids, Distinct, total}
use vis.Text.Chain.Relink.{Apart}

pub Distinct-Avoids :
    (xs : List Ptr) (a : Ptr) (zs : List Ptr) → Distinct (xs ++ a ∷ zs) → Avoids a xs × Avoids a zs
Distinct-Avoids [] a zs d = (tt, d.0)
Distinct-Avoids (x ∷ xs) a zs d =
    let r = Distinct-Avoids xs a zs d.1 in
    ((λ e. (All-right (λ q. q ≢ x) xs (a ∷ zs) d.0).0 (sym e), r.0), r.1)

pub Distinct-right : (xs zs : List Ptr) → Distinct (xs ++ zs) → Distinct zs
Distinct-right [] zs d = d
Distinct-right (x ∷ xs) zs d = Distinct-right xs zs d.1

-- A span in a chain of distinct pieces stands apart from the rest.
pub Apart-of_Distinct :
    (a b : Ptr) (xs l ys : List Ptr) → Distinct (xs ++ a ∷ (l ++ b ∷ ys)) → Apart a b xs l ys
Apart-of_Distinct a b xs l ys d =
    let da = Distinct-Avoids xs a (l ++ b ∷ ys) d in
    let db = Distinct-Avoids (xs ++ a ∷ l) b ys (rw append_assoc d) in
    record {
      ends = λ e. (All-right (λ q. q ≢ a) l (b ∷ ys) da.1).0 (sym e);
      a_front = da.0;
      b_front = All-left (λ q. q ≢ b) xs (a ∷ l) db.0;
      a_span = All-left (λ q. q ≢ a) l (b ∷ ys) da.1;
      b_span = (All-right (λ q. q ≢ b) xs (a ∷ l) db.0).1;
      a_back = (All-right (λ q. q ≢ a) l (b ∷ ys) da.1).1;
      b_back = db.1;
    }

-- Another span, of other pieces than `a` and `b`.
pub Apart-span :
    {a b : Ptr} {xs l ys : List Ptr} (news : List Ptr)
    → Apart a b xs l ys
    → Avoids a news
    → Avoids b news
    → Apart a b xs news ys
Apart-span news o av bv = record {
  ends = o.ends;
  a_front = o.a_front;
  b_front = o.b_front;
  a_span = av;
  b_span = bv;
  a_back = o.a_back;
  b_back = o.b_back;
}

abbrev pub Below : ℕ → List Ptr → Type 0
Below n l = All (λ p. p < n) l

-- From `m` on, and below `n`.
abbrev pub Fresh : ℕ → ℕ → List Ptr → Type 0
Fresh m n l = All (λ p. (m ≤ p) × (p < n)) l

pub Distinct-without : (xs ys zs : List Ptr) → Distinct (xs ++ (ys ++ zs)) → Distinct (xs ++ zs)
Distinct-without [] ys zs d = Distinct-right ys zs d
Distinct-without (x ∷ xs) ys zs d =
    (All-without (λ q. q ≢ x) xs ys zs d.0, Distinct-without xs ys zs d.1)

-- Fresh pieces put in front of, or between, older ones leave all of them distinct.
Distinct-Fresh_front :
    (m n : ℕ) (news zs : List Ptr)
    → Fresh m n news
    → Distinct news
    → Below m zs
    → Distinct zs
    → Distinct (news ++ zs)
Distinct-Fresh_front m n [] zs f d b e = e
Distinct-Fresh_front m n (x ∷ news) zs f d b e = (
  All-append (λ q. q ≢ x) news zs d.0
      (All-map (λ q. q < m) (λ q. q ≢ x) zs (λ q k. omega (arith, f.0)) b),
  Distinct-Fresh_front m n news zs f.1 d.1 b e,
)

pub Distinct-Fresh :
    (m n : ℕ) (xs news zs : List Ptr)
    → Fresh m n news
    → Distinct news
    → Below m (xs ++ zs)
    → Distinct (xs ++ zs)
    → Distinct (xs ++ (news ++ zs))
Distinct-Fresh m n [] news zs f d b e = Distinct-Fresh_front m n news zs f d b e
Distinct-Fresh m n (x ∷ xs) news zs f d b e = (
  All-append (λ q. q ≢ x) xs (news ++ zs) (All-left (λ q. q ≢ x) xs zs e.0)
      (All-append (λ q. q ≢ x) news zs
        (All-map (λ q. (m ≤ q) × (q < n)) (λ q. q ≢ x) news (λ q k. omega (arith, b.0, k.0)) f)
        (All-right (λ q. q ≢ x) xs zs e.0)),
  Distinct-Fresh m n xs news zs f d b.1 e.1,
)

abbrev pub AgreeBelow : ℕ → Store → Store → Type 0
AgreeBelow n h g = (p : Ptr) → p < n → g p ≡ h p

pub Avoids-of_Below : (n p : ℕ) (xs : List Ptr) → n ≤ p → Below n xs → Avoids p xs
Avoids-of_Below n p xs k h = All-map (λ x. x < n) (λ x. x ≢ p) xs (λ x b. omega arith) h

module _ {n : ℕ} {h g : Store} (agree : AgreeBelow n h g) where
  pub Linked-agree : (l : List Ptr) → Below n l → Linked h l → Linked g l
  Linked-agree [] b k = tt
  Linked-agree (p ∷ []) b k = tt
  Linked-agree (p ∷ q ∷ l) b k = (
    ap (λ c. c.next) (agree p b.0) ∙ k.0,
    ap (λ c. c.prev) (agree q b.1.0) ∙ k.1,
    Linked-agree (q ∷ l) b.1 k.2,
  )

  pub total-agree : (l : List Ptr) → Below n l → total g l ≡ total h l
  total-agree [] b = refl
  total-agree (p ∷ l) b = omega (arith, ap (λ c. c.len) (agree p b.0), total-agree l b.1)
