-- ===== src/Registers/Slots.antt =====
-- The slots of a register before and after a put (vis-registers.c).
use vis.Prelude.{
  All, All-append, ℕ, zero, suc, ◌+◌, ◌-◌, ◌^◌, ◌≤◌, ◌<◌, ◌≡◌, refl, ap, some, ◌++◌, length,
  length-append, get_elem?, leb, leb→le, leb_false→lt, if◌then◌else◌, Bool-cases, inl, inr, arith,
}
use vis.Prelude.Elements.{get_elem?-append_left}
use vis.Buffer.{Buffer, IsValid}
use vis.Util.Capacity.{da_reserve-Enough}
use vis.Registers.{Register, no_buffer, repeat, more_slots, register_buffer}

no_buffer-IsValid : IsValid no_buffer
no_buffer-IsValid = record { allocated = refl; within = omega arith }

length-repeat : (n : ℕ) (b : Buffer) → length (repeat n b) ≡ n
length-repeat zero b = refl
length-repeat (suc n) b = ap suc (length-repeat n b)

All-repeat : (n : ℕ) (b : Buffer) → IsValid b → All IsValid (repeat n b)
All-repeat zero b v = tt
All-repeat (suc n) b v = (v, All-repeat n b v)

-- The slots in use are slots of the register, whose buffers are valid.
pub record IsRegister (reg : Register) : Type 0 where
  pub within : reg.count ≤ length reg.slots
  pub bounded : length reg.slots < 2 ^ 31
  pub valid : All IsValid reg.slots

-- A register with a slot that is in use, where the slots of another one are kept.
pub record Ready (reg : Register) (slot : ℕ) (r : Register) : Type 0 where
  pub is_register : IsRegister r
  pub in_use : slot < r.count
  pub same_kind : r.kind ≡ reg.kind
  pub kept : (j : ℕ) → j < length reg.slots → get_elem? r.slots j ≡ get_elem? reg.slots j

counted : Register → ℕ → Register
counted r slot = if leb r.count slot then record r { count = slot + 1 } else r

-- Counting a slot that is there.
counted-Ready :
    (reg r : Register) (slot : ℕ)
    → slot < length r.slots
    → IsRegister r
    → r.kind ≡ reg.kind
    → ((j : ℕ) → j < length reg.slots → get_elem? r.slots j ≡ get_elem? reg.slots j)
    → Ready reg slot (counted r slot)
unfolding counted
counted-Ready reg r slot h v k f = elim (Bool-cases (leb r.count slot)) [
  | inl e ↦ rw e (record {
    is_register = record { within = omega (arith, h); bounded = v.bounded; valid = v.valid };
    in_use = omega arith;
    same_kind = k;
    kept = f;
  })
  | inr e ↦ rw e (record { is_register = v; in_use = leb_false→lt _ _ e; same_kind = k; kept = f })
]

more_slots-Ready :
    (reg : Register) (slot : ℕ)
    → IsRegister reg
    → slot ≤ reg.count
    → length reg.slots ≤ slot
    → reg.count + slot ≤ 2 ^ 30
    → (r : Register) × (more_slots reg slot ≡ some r) × Ready reg slot (counted r slot)
unfolding more_slots
more_slots-Ready reg slot v h g l =
    let (c, e, room, grown, full, small) =
      da_reserve-Enough (length reg.slots) (reg.count + slot) v.bounded l in
    (
      record reg { slots = reg.slots ++ repeat (c - length reg.slots) no_buffer },
      rw e,
      counted-Ready reg _ slot
          (rw (length-append, length-repeat) (omega (arith, room, grown, full, v.within)))
          (record {
            within = rw (length-append, length-repeat) (omega (arith, v.within));
            bounded = rw (length-append, length-repeat) (omega (arith, small, grown));
            valid =
                All-append IsValid reg.slots _ v.valid (All-repeat _ no_buffer no_buffer-IsValid);
          })
          refl (λ j i. get_elem?-append_left reg.slots _ j i),
    )

pub register_buffer-Ready :
    (reg : Register) (slot : ℕ)
    → IsRegister reg
    → slot ≤ reg.count
    → reg.count + slot ≤ 2 ^ 30
    → (r : Register) × (register_buffer reg slot ≡ some r) × Ready reg slot r
unfolding register_buffer counted
register_buffer-Ready reg slot v h l = elim (Bool-cases (leb (length reg.slots) slot)) [
  | inl e ↦
      let (r, f, ready) = more_slots-Ready reg slot v h (leb→le _ _ e) l in
      (counted r slot, rw (e, f), ready)
  | inr e ↦
      (counted reg slot, rw e, counted-Ready reg reg slot (leb_false→lt _ _ e) v refl (λ j i. refl))
]
