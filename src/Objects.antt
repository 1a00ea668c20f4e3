-- ===== src/Objects.antt =====
-- text-objects.c: functions from a position to a range. A value `c0` is that of the variable that
-- the motions read uninitialised, taken to be the same in every call.
pub mod Word
pub mod Bracket
pub mod Line
