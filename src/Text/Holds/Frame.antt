-- ===== src/Text/Holds/Frame.antt =====
-- Steps that leave the pieces as they are: revisions, changes, the cache and the line cache.
use vis.Prelude.{ℕ, ◌≡◌, refl, ◌∙◌, Bool-cases, inl, inr, true, ◌==◌, List, not, ltb, ◌&&◌}
use vis.Text.State.{Run, ok, Ptr, null, Text, Env}
use vis.Text.Revisions.{
  add_revision, link_later, link_child, revision_alloc, push_change, text_change_alloc,
}
use vis.Text.Cache.{cache_piece, is_none, ends_block}
use vis.Text.Blocks.{last_block}
use vis.Text.Holds.Defs.{Holds, text_of}
use vis.Text.Insert.{invalidate_before}

-- The parts of a text that its content depends on are the same.
pub record SamePieces (t u : Text) : Type 0 where
  pub block : u.block ≡ t.block
  pub count : u.count ≡ t.count
  pub piece : u.piece ≡ t.piece
  pub next_piece : u.next_piece ≡ t.next_piece
  pub size : u.size ≡ t.size

pub SamePieces-refl : (t : Text) → SamePieces t t
SamePieces-refl t = record {
  block = refl;
  count = refl;
  piece = refl;
  next_piece = refl;
  size = refl;
}

pub SamePieces-trans : {t u v : Text} → SamePieces t u → SamePieces u v → SamePieces t v
SamePieces-trans p q = record {
  block = q.block ∙ p.block;
  count = q.count ∙ p.count;
  piece = q.piece ∙ p.piece;
  next_piece = q.next_piece ∙ p.next_piece;
  size = q.size ∙ p.size;
}

pub SamePieces-link_later : (t : Text) (r : Ptr) → SamePieces t (link_later t r)
unfolding link_later
SamePieces-link_later t r = elim (Bool-cases (t.last_revision == null)) [
  | inl e ↦
      rw e (record { block = refl; count = refl; piece = refl; next_piece = refl; size = refl })
  | inr e ↦
      rw e (record { block = refl; count = refl; piece = refl; next_piece = refl; size = refl })
]

pub SamePieces-link_child : (t : Text) (r : Ptr) → SamePieces t (link_child t r)
unfolding link_child
SamePieces-link_child t r = elim (Bool-cases (t.history == null)) [
  | inl e ↦
      rw e (record { block = refl; count = refl; piece = refl; next_piece = refl; size = refl })
  | inr e ↦
      rw e (record { block = refl; count = refl; piece = refl; next_piece = refl; size = refl })
]

pub SamePieces-cache_piece : (t : Text) (p : Ptr) → SamePieces t (cache_piece t p)
unfolding cache_piece
SamePieces-cache_piece t p =
    elim (Bool-cases
      (not (is_none (last_block t)) && ends_block t (t.piece p).source (t.piece p).len)) [
        | inl e ↦
            rw e
              (record { block = refl; count = refl; piece = refl; next_piece = refl; size = refl })
        | inr e ↦ rw e (SamePieces-refl t)
      ]

pub SamePieces-invalidate_before : (t : Text) (pos : ℕ) → SamePieces t (invalidate_before t pos)
SamePieces-invalidate_before t pos = elim (Bool-cases (ltb pos t.lines.pos)) [
  | inl e ↦
      rw e (record { block = refl; count = refl; piece = refl; next_piece = refl; size = refl })
  | inr e ↦ rw e (SamePieces-refl t)
]

-- A change allocated for a text leaves its pieces alone.
pub record Allocated (t : Text) (r : Run Ptr) : Type 0 where
  pub address : Ptr
  pub after : Text
  pub result : r ≡ ok (address, after)
  pub same : SamePieces t after

push_change-Allocated :
    (env : Env) (pos : ℕ) (r : Ptr) (t u : Text)
    → ((v : Text) → env.calloc v ≡ true)
    → SamePieces t u
    → Allocated t (push_change env pos r u)
unfolding push_change
push_change-Allocated env pos r t u a s = rw (a u) (record {
  address = r;
  after = _;
  result = refl;
  same =
      SamePieces-trans s
        (record { block = refl; count = refl; piece = refl; next_piece = refl; size = refl });
})

linked_revision-SamePieces :
    (env : Env) (t : Text) (r : Ptr)
    → SamePieces t (link_child (link_later (add_revision env t) r) r)
linked_revision-SamePieces env t r =
    SamePieces-trans {u = link_later (add_revision env t) r}
      (SamePieces-trans {u = add_revision env t}
        (record { block = refl; count = refl; piece = refl; next_piece = refl; size = refl })
        (SamePieces-link_later (add_revision env t) r))
      (SamePieces-link_child (link_later (add_revision env t) r) r)

pub text_change_alloc-Allocated :
    (env : Env) (t : Text) (pos : ℕ)
    → ((v : Text) → env.calloc v ≡ true)
    → Allocated t (text_change_alloc env t pos)
unfolding text_change_alloc revision_alloc
text_change_alloc-Allocated env t pos a = elim (Bool-cases (t.current_revision == null)) [
  | inl e ↦
      rw (e, a t)
        (push_change-Allocated env pos t.next_revision t
          (link_child (link_later (add_revision env t) t.next_revision) t.next_revision) a
          (linked_revision-SamePieces env t t.next_revision))
  | inr e ↦ rw e (push_change-Allocated env pos t.current_revision t t a (SamePieces-refl t))
]

-- The invariant and the content carry over.
module _ {t u : Text} (s : SamePieces t u) where
  pub Holds-SamePieces : (l : List Ptr) → Holds t l → Holds u l
  Holds-SamePieces l h = record {
    starts = h.starts;
    linked = rw s.piece h.linked;
    end_next = rw s.piece h.end_next;
    distinct = h.distinct;
    nonnull = h.nonnull;
    below = rw s.next_piece h.below;
    begin_len = rw s.piece h.begin_len;
    placed = rw (s.block, s.count, s.piece) h.placed;
    sized = rw (s.size, s.piece) h.sized;
    fuel = rw s.next_piece h.fuel;
  }

  pub text_of-SamePieces : (l : List Ptr) → text_of u l ≡ text_of t l
  text_of-SamePieces l = rw (s.block, s.piece)
