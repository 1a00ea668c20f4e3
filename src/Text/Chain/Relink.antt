-- ===== src/Text/Chain/Relink.antt =====
-- A store with two links changed: the `next` of `a` and the `prev` of `b`.
use vis.Prelude.{◌≡◌, ◌≢◌, List, [], ◌∷◌, ◌++◌, ◌∙◌, sym}
use vis.Text.State.{Ptr}
use vis.Text.Chain.{Store, Linked, Follows, Inside, Avoids, first_of, last_of, Linked-glue}

pub record Relinked (h g : Store) (a s b e : Ptr) : Type 0 where
  pub next_new : (g a).next ≡ s
  pub prev_new : (g b).prev ≡ e
  pub next_same : (p : Ptr) → p ≢ a → (g p).next ≡ (h p).next
  pub prev_same : (p : Ptr) → p ≢ b → (g p).prev ≡ (h p).prev
  pub len_same : (p : Ptr) → (g p).len ≡ (h p).len
  pub source_same : (p : Ptr) → (g p).source ≡ (h p).source
  pub text_same : (p : Ptr) → (g p).text ≡ (h p).text

module _ {h g : Store} {a s b e : Ptr} (r : Relinked h g a s b e) where
  pub Linked-front_kept :
      (xs : List Ptr)
      → Avoids a xs
      → Avoids b xs
      → a ≢ b
      → Linked h (xs ++ a ∷ [])
      → Linked g (xs ++ a ∷ [])
  Linked-front_kept [] av bv ab l = tt
  Linked-front_kept (x ∷ []) av bv ab l = (r.next_same x av.0 ∙ l.0, r.prev_same a ab ∙ l.1, tt)
  Linked-front_kept (x ∷ y ∷ xs) av bv ab l = (
    r.next_same x av.0 ∙ l.0,
    r.prev_same y bv.1.0 ∙ l.1,
    Linked-front_kept (y ∷ xs) av.1 bv.1 ab l.2,
  )

  pub Linked-back_kept :
      (p : Ptr) (ys : List Ptr)
      → Avoids a (p ∷ ys)
      → Avoids b ys
      → Linked h (p ∷ ys)
      → Linked g (p ∷ ys)
  Linked-back_kept p [] av bv l = tt
  Linked-back_kept p (y ∷ ys) av bv l =
      (r.next_same p av.0 ∙ l.0, r.prev_same y bv.0 ∙ l.1, Linked-back_kept y ys av.1 bv.1 l.2)

  pub Follows-kept :
      (p : Ptr) (l : List Ptr) (c : Ptr)
      → Avoids a (p ∷ l)
      → Avoids b l
      → Follows h p l c
      → Follows g p l c
  Follows-kept p [] c av bv f = r.next_same p av.0 ∙ f
  Follows-kept p (q ∷ l) c av bv f =
      (r.next_same p av.0 ∙ f.0, r.prev_same q bv.0 ∙ f.1, Follows-kept q l c av.1 bv.1 f.2)

  pub Inside-kept :
      (l : List Ptr) (c d : Ptr) → Avoids a l → Avoids b l → Inside h c l d → Inside g c l d
  Inside-kept [] c d av bv i = tt
  Inside-kept (p ∷ l) c d av bv i = (r.prev_same p bv.0 ∙ i.0, Follows-kept p l d av bv.1 i.1)

-- A span that follows `p`, closed by a link back from `b`, is a chain.
Linked-of_Follows :
    (g : Store) (p : Ptr) (l : List Ptr) (b : Ptr)
    → Follows g p l b
    → (g b).prev ≡ last_of p l
    → Linked g (p ∷ (l ++ b ∷ []))
Linked-of_Follows g p [] b f e = (f, e, tt)
Linked-of_Follows g p (q ∷ l) b f e = (f.0, f.1, Linked-of_Follows g q l b f.2 e)

-- With both ends linked to it, a span that fits between `a` and `b` is a chain from `a` to `b`.
Linked-of_Inside :
    (g : Store) (a : Ptr) (l : List Ptr) (b : Ptr)
    → Inside g a l b
    → (g a).next ≡ first_of l b
    → (g b).prev ≡ last_of a l
    → Linked g (a ∷ (l ++ b ∷ []))
Linked-of_Inside g a [] b i n p = (n, p, tt)
Linked-of_Inside g a (q ∷ l) b i n p = (n, i.0, Linked-of_Follows g q l b i.1 p)

-- The pieces before `a`, those of a span, and those behind `b` are all other pieces.
pub record Apart (a b : Ptr) (xs l ys : List Ptr) : Type 0 where
  pub ends : a ≢ b
  pub a_front : Avoids a xs
  pub b_front : Avoids b xs
  pub a_span : Avoids a l
  pub b_span : Avoids b l
  pub a_back : Avoids a ys
  pub b_back : Avoids b ys

-- Linking `a` and `b` to the ends of a span that fits between them puts it into the chain.
pub Relinked-Linked :
    {h g : Store} {a b : Ptr} (xs news ys : List Ptr)
    → Relinked h g a (first_of news b) b (last_of a news)
    → Apart a b xs news ys
    → Linked h (xs ++ a ∷ [])
    → Inside h a news b
    → Linked h (b ∷ ys)
    → Linked g (xs ++ a ∷ (news ++ b ∷ ys))
Relinked-Linked {g} {a} {b} xs news ys r o front mid back =
    Linked-glue g xs a (news ++ b ∷ ys) (Linked-front_kept r xs o.a_front o.b_front o.ends front) (
      Linked-glue g (a ∷ news) b ys
        (Linked-of_Inside g a news b (Inside-kept r news a b o.a_span o.b_span mid) r.next_new
          r.prev_new)
        (Linked-back_kept r b ys ((λ e. o.ends (sym e)), o.a_back) o.b_back back))
