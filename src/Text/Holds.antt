-- ===== src/Text/Holds.antt =====
-- The invariant of the piece table of text.c under its operations.
pub mod Defs
pub mod Frame
pub mod Prepared
pub mod Kept
pub mod Middle
pub mod Split
pub mod Insertion
pub mod Inserted
pub mod Gone
pub mod Cut
pub mod Removal
pub mod Deleted
pub mod Boundary
pub mod Midway
pub mod Deletion
pub mod Erasure
pub mod RoundTrip
pub mod Between
