-- ===== src/Registers/Names.antt =====
-- The names of the registers and of the marks as characters, and the choice of a register
-- (vis-registers.c, vis-marks.c, vis.h). The members of `enum VisRegister` and `enum VisMark` are
-- their numbers.
use vis.Prelude.{
  ℕ, ◌+◌, ◌-◌, Bool, true, false, Option, none, some, List, [], ◌∷◌, get_elem?, ltb, leb, ◌==◌,
  if◌then◌else◌, ◌&&◌,
}
use vis.Registers.{Register}

abbrev pub reg_a : ℕ
reg_a = 20

abbrev pub reg_z : ℕ
reg_z = 45

abbrev pub reg_invalid : ℕ
reg_invalid = 48

abbrev pub reg_upper_a : ℕ
reg_upper_a = 49

abbrev pub reg_upper_z : ℕ
reg_upper_z = 74

abbrev pub macro_last_recorded : ℕ
macro_last_recorded = 75

abbrev pub mark_selection : ℕ
mark_selection = 1

abbrev pub mark_a : ℕ
mark_a = 2

abbrev pub mark_z : ℕ
mark_z = 27

abbrev pub mark_invalid : ℕ
mark_invalid = 28

-- `vis_registers`, the names in the order of the enumeration.
abbrev pub register_names : List ℕ
register_names =
    34 ∷ 48 ∷ 38 ∷ 49 ∷ 50 ∷ 51 ∷ 52 ∷ 53 ∷ 54 ∷ 55 ∷ 56 ∷ 57 ∷ 95 ∷ 43 ∷ 42 ∷ 46 ∷ 47 ∷ 58 ∷ 33
    ∷ 35 ∷ []

-- `vis_marks`.
abbrev pub mark_names : List ℕ
mark_names = 39 ∷ 94 ∷ []

-- The loop over the table.
unfoldable pub index_of : List ℕ → ℕ → ℕ → ℕ → ℕ
index_of [] i c invalid = invalid
index_of (x ∷ xs) i c invalid =
    let rest = index_of xs (i + 1) c invalid in if x == c then i else rest

abbrev pub name_or_nul : Option ℕ → ℕ
name_or_nul none = 0
name_or_nul (some c) = c

unfoldable pub vis_register_from : ℕ → ℕ
unfolding index_of
vis_register_from reg =
    if reg == 64
    then macro_last_recorded
    else if leb 97 reg && leb reg 122
    then reg_a + reg - 97
    else if leb 65 reg && leb reg 90
    then reg_upper_a + reg - 65
    else index_of register_names 0 reg reg_invalid

unfoldable pub vis_register_to : ℕ → ℕ
vis_register_to reg =
    if reg == macro_last_recorded
    then 64
    else if leb reg_a reg && leb reg reg_z
    then 97 + reg - reg_a
    else if leb reg_upper_a reg && leb reg reg_upper_z
    then 65 + reg - reg_upper_a
    else name_or_nul (get_elem? register_names reg)

unfoldable pub vis_mark_from : ℕ → ℕ
unfolding index_of
vis_mark_from mark =
    if leb 97 mark && leb mark 122
    then mark_a + mark - 97
    else index_of mark_names 0 mark mark_invalid

unfoldable pub vis_mark_to : ℕ → ℕ
vis_mark_to mark =
    if leb mark_a mark && leb mark mark_z
    then 97 + mark - mark_a
    else name_or_nul (get_elem? mark_names mark)

-- `vis->registers` and `vis->action.reg`.
pub record State : Type 0 where
  pub registers : ℕ → Register
  pub reg : Option ℕ

abbrev pub with_append : State → ℕ → Bool → State
with_append s i append = record {
  registers = λ j. if j == i then record (s.registers i) { append = append } else s.registers j;
  reg = some i;
}

unfoldable pub vis_register : State → ℕ → State
vis_register s reg =
    if leb reg_upper_a reg && leb reg reg_upper_z
    then with_append s (reg_a + reg - reg_upper_a) true
    else if ltb reg reg_invalid
    then with_append s reg false
    else s

unfoldable pub vis_register_used : State → ℕ
vis_register_used s = elim s.reg [ none ↦ 0 | some i ↦ i ]

-- `register_from`: the index of the register.
unfoldable pub register_from : ℕ → Option ℕ
register_from id =
    let lower = if leb reg_upper_a id && leb id reg_upper_z then reg_a + id - reg_upper_a else id in
    if ltb lower reg_invalid then some lower else none
