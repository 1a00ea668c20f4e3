-- ===== src/Registers/Put.antt =====
-- Putting text into a register (vis-registers.c).
use vis.Prelude.{
  ℕ, ◌+◌, ◌^◌, ◌≤◌, ◌<◌, ◌≡◌, ◌≢◌, ◌⊎◌, Bool, true, false, Option, some, length, get_elem?, set,
  ltb, ltb→lt, le→ltb_false, ◌==◌, ==_iff, Bool-cases, inl, inr, arith,
}
use vis.Prelude.Elements.{
  get_elem?-some, get_elem?-set, get_elem?-set_other, length-set, All-set, All-get_elem?,
}
use vis.Buffer.{Buffer, Realloc, IsValid, content, buffer_put}
use vis.Buffer.Outcomes.{Either, buffer_put-put}
use vis.Util.{Str8}
use vis.Registers.{
  Register, at_slot, is_normal, and_then, register_resize, and_resize, register_slot_put,
  register_put,
}
use vis.Registers.Slots.{IsRegister, Ready, register_buffer-Ready}

-- The bytes of a slot, if there is one.
abbrev pub slot_content : Register → ℕ → Option Str8
slot_content r j = and_then (get_elem? r.slots j) (λ b. some (content b))

-- The register that a put into a slot leaves, where `done` says whether it succeeded: the slot is in
-- use and has the string if so, and the other slots that there were have what they had.
abbrev pub Stored : Register → ℕ → Str8 → Bool → Register → Type 0
Stored reg slot s done r =
    IsRegister r
    × (slot < r.count)
    × ((done ≡ false) ⊎ (slot_content r slot ≡ some s))
    × ((j : ℕ) → (slot_content r j ≡ slot_content reg j) ⊎ ((j ≡ slot) ⊎ (length reg.slots ≤ j)))

by_success : {P Q : Type 0} (t : Bool) → Either t P Q → (t ≡ false) ⊎ P
by_success t (inl (e, p)) = inr p
by_success t (inr (e, q)) = inl e

slot_content-set :
    (r : Register) (slot : ℕ) (b : Buffer) (s : Str8)
    → slot < length r.slots
    → content b ≡ s
    → slot_content (record r { slots = set r.slots slot b }) slot ≡ some s
slot_content-set r slot b s h e = rw (get_elem?-set r.slots slot b h, e)

kept_or_new :
    (reg r : Register) (slot : ℕ) (b : Buffer)
    → Ready reg slot r
    → (j : ℕ)
    → (slot_content (record r { slots = set r.slots slot b }) j ≡ slot_content reg j)
      ⊎ ((j ≡ slot) ⊎ (length reg.slots ≤ j))
kept_or_new reg r slot b ready j = elim (Bool-cases (j == slot)) [
  | inl e ↦ inr (inl ((==_iff j slot).0 e))
  | inr e ↦ elim (Bool-cases (ltb j (length reg.slots))) [
    | inr g ↦ inr (inr (ground (arith, g)))
    | inl g ↦
        let other : j ≢ slot = λ f. ground (arith, e, f) in
        inl (rw (get_elem?-set_other r.slots slot j b other, ready.kept j (ltb→lt _ _ g)))
  ]
]

module _ (realloc : Realloc) where
  put_slot-Stored :
      (reg r : Register) (slot : ℕ) (s : Str8) (b : Buffer) (o : Bool × Buffer)
      → Ready reg slot r
      → slot < length r.slots
      → IsValid o.1 × Either o.0 (content o.1 ≡ s) (o.1 ≡ b)
      → Stored reg slot s o.0 (record r { slots = set r.slots slot o.1 })
  put_slot-Stored reg r slot s b o ready lt p =
      let v = ready.is_register in
      (
        record {
          within = rw (length-set r.slots slot o.1) v.within;
          bounded = rw (length-set r.slots slot o.1) v.bounded;
          valid = All-set IsValid r.slots slot o.1 p.0 v.valid;
        },
        ready.in_use,
        (elim (by_success o.0 p.1) [
          | inl e ↦ inl e
          | inr e ↦ inr (slot_content-set r slot o.1 s lt e)
        ]),
        kept_or_new reg r slot o.1 ready,
      )

  at_slot-Stored :
      (reg r : Register) (slot : ℕ) (s : Str8)
      → Ready reg slot r
      → (done : Bool) × (r' : Register) × (at_slot r slot (λ b. buffer_put realloc b s)
          ≡ some (done, r'))
        × Stored reg slot s done r'
  unfolding at_slot
  at_slot-Stored reg r slot s ready =
      let v = ready.is_register in
      let lt : slot < length r.slots = omega (arith, ready.in_use, v.within) in
      let (b, e) = get_elem?-some r.slots slot lt in
      let o = buffer_put realloc b s in
      (
        o.0,
        record r { slots = set r.slots slot o.1 },
        rw e,
        put_slot-Stored reg r slot s b o ready lt
            (buffer_put-put realloc b s (All-get_elem? IsValid r.slots slot b e v.valid)),
      )

  -- Putting a string into a slot of a valid register of the normal type, the slot being in use or the
  -- next one, and 2 ^ 30 bounding the sum of the slot and the number of those in use: no memory out
  -- of bounds is touched, the register is valid and the slot in use afterwards; the slot has the
  -- string if the call succeeded, and all other slots that there were are what they were.
  pub register_slot_put-Stored :
      (reg : Register) (slot : ℕ) (s : Str8)
      → is_normal reg.kind ≡ true
      → IsRegister reg
      → slot ≤ reg.count
      → reg.count + slot ≤ 2 ^ 30
      → (done : Bool) × (r : Register) × (register_slot_put realloc reg slot s ≡ some (done, r))
        × Stored reg slot s done r
  unfolding register_slot_put
  register_slot_put-Stored reg slot s k v h l =
      let (r, e, ready) = register_buffer-Ready reg slot v h l in
      rw (k, e) (at_slot-Stored reg r slot s ready)

  -- Where the put into the first slot leaves no more than one slot in use, `register_put` returns
  -- `false` and leaves the same register, also where that put succeeded.
  pub register_put-register_slot_put :
      (reg r : Register) (s : Str8) (done : Bool)
      → register_slot_put realloc reg 0 s ≡ some (done, r)
      → r.count ≤ 1
      → register_put realloc reg s ≡ some (false, r)
  unfolding register_put and_resize register_resize
  register_put-register_slot_put reg r s true e h = rw (e, le→ltb_false 1 r.count h)
  register_put-register_slot_put reg r s false e h = rw e
