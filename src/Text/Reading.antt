-- ===== src/Text/Reading.antt =====
-- What the reading of a text finds (`piece_get_extern` of text.c, `text_bytes_get` of text-common.c).
pub mod Lookup
pub mod Bytes
