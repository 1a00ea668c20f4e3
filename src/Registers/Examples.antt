-- ===== src/Registers/Examples.antt =====
-- A fresh register, a put into it, and names of registers and marks (vis-registers.c, vis-marks.c).
use vis.Prelude.{◌≡◌, refl, Bool, true, false, none, some, [], ◌∷◌, arith}
use vis.Buffer.Examples.{allocator}
use vis.Util.{Str8}
use vis.Registers.{Register, normal, register_slot_put, register_put}
use vis.Registers.Names.{vis_register_from, vis_register_to, vis_mark_from, vis_mark_to}
use vis.Registers.RoundTrip.{vis_register_to-vis_register_from, vis_mark_to-vis_mark_from}
use vis.Registers.Slots.{IsRegister}
use vis.Registers.Put.{Stored, register_slot_put-Stored, register_put-register_slot_put}

abbrev new : Register
new = record { slots = []; count = 0; kind = normal; linewise = false; append = false }

new-IsRegister : IsRegister new
new-IsRegister = record { within = omega arith; bounded = omega arith; valid = tt }

abbrev word : Str8
word = 104 ∷ 105 ∷ []

register_slot_put-Stored_example :
    (done : Bool) × (r : Register) × (register_slot_put allocator new 0 word ≡ some (done, r))
    × Stored new 0 word done r
register_slot_put-Stored_example =
    register_slot_put-Stored allocator new 0 word refl new-IsRegister (omega arith) (omega arith)

-- What the put leaves.
outcome : Bool × Register
unfolding register_slot_put allocator
outcome = elim (register_slot_put allocator new 0 word) [ none ↦ (false, new) | some o ↦ o ]

register_put-register_slot_put_example : register_put allocator new word ≡ some (false, outcome.1)
unfolding outcome register_slot_put vis.Util.double_capacity vis.Buffer.buffer_put
    vis.Buffer.buffer_reserve
register_put-register_slot_put_example =
    register_put-register_slot_put allocator new outcome.1 word true refl (omega arith)

-- "b and "B.
vis_register_to-vis_register_from_example : vis_register_to (vis_register_from 66) ≡ 66
unfolding vis_register_from
vis_register_to-vis_register_from_example = vis_register_to-vis_register_from 66 (omega arith)

vis_mark_to-vis_mark_from_example : vis_mark_to (vis_mark_from 98) ≡ 98
unfolding vis_mark_from
vis_mark_to-vis_mark_from_example = vis_mark_to-vis_mark_from 98 (omega arith)
