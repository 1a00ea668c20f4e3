-- ===== src/Registers.antt =====
-- vis-registers.c: registers, each a list of slots, and the names of the registers.
pub mod Names
pub mod RoundTrip
pub mod Slots
pub mod Put
pub mod Examples
use vis.Prelude.{
  ℕ, zero, suc, ◌+◌, ◌-◌, ◌*◌, ◌/◌, ◌%◌, Bool, true, false, Option, none, some, List, [], ◌∷◌, ◌++◌,
  map, length, get_elem?, set, take, ltb, leb, ◌==◌, if◌then◌else◌, ◌&&◌, ◌||◌,
}
use vis.Range.{Filerange, text_range_size, epos}
use vis.Text.State.{Text}
use vis.Text.Iterator.Bytes.{text_bytes_get}
use vis.Buffer.{
  Buffer, Realloc, array, content, buffer_reserve, buffer_grow, buffer_put, buffer_append,
  vis_buffer_terminate,
}
use vis.Buffer.Print.{append_print}
use vis.Prelude.Slices.{write_at}
use vis.Util.{Str8, da_reserve}

pub data RegisterType : Type 0 where
  normal number blackhole clipboard : RegisterType

-- `Register`, where the length of `slots` is its capacity.
pub record Register : Type 0 where
  pub slots : List Buffer
  pub count : ℕ
  pub kind : RegisterType
  pub linewise : Bool
  pub append : Bool

abbrev pub no_buffer : Buffer
no_buffer = record { bytes = none; len = 0; size = 0 }

abbrev pub repeat : ℕ → Buffer → List Buffer
repeat zero b = []
repeat (suc n) b = b ∷ repeat n b

abbrev pub and_then {ℓ κ} : {A : Type ℓ} {B : Type κ} → Option A → (A → Option B) → Option B
and_then none f = none
and_then (some a) f = f a

-- `da_reserve(vis, reg, slot)`: the new slots are zero; `none` where the capacity would overflow.
unfoldable pub more_slots : Register → ℕ → Option Register
unfolding da_reserve
more_slots reg n =
    and_then (da_reserve (length reg.slots) (reg.count + n))
      (λ c. some (record reg { slots = reg.slots ++ repeat (c - length reg.slots) no_buffer }))

-- `register_buffer`, without the pointer to the slot.
unfoldable pub register_buffer : Register → ℕ → Option Register
unfolding more_slots
register_buffer reg slot =
    and_then (if leb (length reg.slots) slot then more_slots reg slot else some reg)
      (λ r. some (if leb r.count slot then record r { count = slot + 1 } else r))

-- An operation on the buffer of a slot; `none` for an access out of bounds.
unfoldable pub at_slot : Register → ℕ → (Buffer → Bool × Buffer) → Option (Bool × Register)
at_slot r slot f =
    and_then (get_elem? r.slots slot)
      (λ b. some ((f b).0, record r { slots = set r.slots slot (f b).1 }))

abbrev pub is_normal : RegisterType → Bool
is_normal normal = true
is_normal number = false
is_normal blackhole = false
is_normal clipboard = false

unfoldable pub register_resize : Register → ℕ → Bool × Register
register_resize reg count =
    let result = ltb count reg.count in
    (result, if result then record reg { count = count } else reg)

-- `first && register_resize(reg, count)`.
unfoldable pub and_resize : Option (Bool × Register) → ℕ → Option (Bool × Register)
unfolding register_resize
and_resize none count = none
and_resize (some (done, r)) count = some (if done then register_resize r count else (false, r))

module _ (realloc : Realloc) where
  unfoldable pub register_slot_put : Register → ℕ → Str8 → Option (Bool × Register)
  unfolding register_buffer at_slot
  register_slot_put reg slot s =
      if is_normal reg.kind
      then and_then (register_buffer reg slot) (λ r. at_slot r slot (λ b. buffer_put realloc b s))
      else some (false, reg)

  unfoldable pub register_put : Register → Str8 → Option (Bool × Register)
  unfolding register_slot_put and_resize
  register_put reg s = and_resize (register_slot_put reg 0 s) 1

  -- The bytes of a range at a place in a buffer that has room for them.
  abbrev pub fill : Text → Filerange → Buffer → (ℕ → Bool × Buffer) → ℕ → Bool × Buffer
  fill txt range old reserve at =
      let len = text_range_size range in
      let bytes = text_bytes_get txt range.start len in
      let (done, b) = reserve len in
      let filled = record b {
        bytes = some (write_at (array b.bytes) at bytes);
        len = at + length bytes;
      } in
      if len == epos then (false, old) else if done then (true, filled) else (false, b)

  unfoldable pub register_slot_append_range :
      Register → ℕ → Text → Filerange → Option (Bool × Register)
  unfolding register_buffer at_slot
  register_slot_append_range reg slot txt range =
      if is_normal reg.kind
      then and_then (register_buffer reg slot)
          (λ r. at_slot r slot (λ b. fill txt range b (buffer_grow realloc b) b.len))
      else some (false, reg)

  -- Where `copy` says whether the clipboard's command takes the range with status 0.
  unfoldable pub register_slot_put_range :
      (copy : Filerange → Bool) → Register → ℕ → Text → Filerange → Option (Bool × Register)
  unfolding register_slot_append_range
  register_slot_put_range copy reg slot txt range =
      let appended = register_slot_append_range reg slot txt range in
      let replaced =
        and_then (register_buffer reg slot)
          (λ r. at_slot r slot (λ b. fill txt range b (buffer_reserve realloc b) 0)) in
      if reg.append then appended else (elim reg.kind [
        | normal ↦ replaced
        | clipboard ↦ some (copy range, reg)
        | blackhole ↦ some (true, reg)
        | number ↦ some (false, reg)
      ])

  unfoldable pub register_put_range :
      (copy : Filerange → Bool) → Register → Text → Filerange → Option (Bool × Register)
  unfolding register_slot_put_range and_resize
  register_put_range copy reg txt range =
      and_resize (register_slot_put_range copy reg 0 txt range) 1

  -- `%zu`: the digits of a number, the last of which is that of `n`.
  abbrev pub digits_before : ℕ → ℕ → Str8 → Str8
  digits_before zero n s = s
  digits_before (suc fuel) n s =
      let rest = digits_before fuel (n / 10) ((48 + n % 10) ∷ s) in
      if n / 10 == 0 then (48 + n % 10) ∷ s else rest

  abbrev pub decimal : ℕ → Str8
  decimal n = digits_before 20 n []

  -- A slot's buffer after an operation, and its bytes.
  abbrev pub show_slot : Register → ℕ → (Buffer → Buffer) → Option Str8 × Register
  show_slot reg i f = elim (get_elem? reg.slots i) [
    | none ↦ (none, reg)
    | some b ↦ (some (content (f b)), record reg { slots = set reg.slots i (f b) })
  ]

  -- The bytes that a slot shows, `none` for `NULL`, where `paste` are those that the clipboard's
  -- command writes.
  unfoldable pub register_slot_get : (paste : Str8) → Register → ℕ → Option Str8 × Register
  unfolding vis_buffer_terminate append_print buffer_append
  register_slot_get paste reg slot = elim reg.kind [
    | normal ↦
        if ltb slot reg.count
        then show_slot reg slot (λ b. vis_buffer_terminate realloc b)
        else (none, reg)
    | number ↦
        if ltb 0 reg.count
        then show_slot reg 0
            (λ b. (append_print realloc (record b { len = 0 }) (decimal (slot + 1))).1)
        else (none, reg)
    | clipboard ↦
        if ltb slot reg.count
        then show_slot reg slot (λ b. (buffer_append realloc (record b { len = 0 }) paste).1)
        else (none, reg)
    | blackhole ↦ (none, reg)
  ]

  -- The strings of `vis_register_set`, from a slot on.
  unfoldable pub put_strings : Register → ℕ → List Str8 → Option (Bool × Register)
  unfolding register_buffer at_slot
  put_strings reg slot [] = some (true, reg)
  put_strings reg slot (s ∷ ss) =
      and_then
        (and_then (register_buffer reg slot) (λ r. at_slot r slot (λ b. buffer_put realloc b s)))
        (λ o. let rest = put_strings o.1 (slot + 1) ss in if o.0 then rest else some (false, o.1))

  -- `vis_register_set` on the register that it finds.
  unfoldable pub register_set : Register → List Str8 → Option (Bool × Register)
  unfolding put_strings and_resize
  register_set reg strings = and_resize (put_strings reg 0 strings) (length strings)

-- `vis_register_get` on the register that it finds: the slots in use.
unfoldable pub register_strings : Register → List Str8
register_strings reg = map content (take reg.count reg.slots)

-- `vis_register_count`, where a window has so many selections.
unfoldable pub vis_register_count : (selections : Option ℕ) → Register → ℕ
vis_register_count selections reg = elim reg.kind [
  | number ↦ elim selections [ none ↦ 0 | some n ↦ n ]
  | _ ↦ reg.count
]
