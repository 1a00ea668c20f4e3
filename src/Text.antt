-- ===== src/Text.antt =====
-- text.c: the piece table. A `Text` is a store of pieces, blocks and revisions at numbered
-- addresses, with 0 for `NULL`. `begin` and `end` are the sentinel pieces inside of `struct Text`.
pub mod State
pub mod Blocks
pub mod Spans
pub mod Chain
pub mod Content
pub mod Revisions
pub mod Cache
pub mod Insert
pub mod Delete
pub mod History
pub mod Holds
pub mod Load
pub mod Loaded
pub mod Iterator
pub mod Strings
pub mod Reading
pub mod Undone
pub mod Examples
