-- ===== src/Lib.antt =====
-- A model of the core of the editor vis: the piece table with its history, the byte buffer, ranges,
-- iterators, motions and text objects, the map of names, registers, marks and the string helpers.
--
-- The parts, the files that model them and their sources:
--   Range            text-util.c, the macros of text.h: ranges of positions.
--   Buffer           buffer.c: a growing byte buffer over the C library's realloc, a parameter.
--     Buffer.Print   vis_buffer_vappendf.
--   Map              map.c: the crit-bit tree from names to commands, options and key bindings.
--     Map.Bytes, Map.Bits, Map.WellFormed, Map.Lookup, Map.Laws, Map.Leftover
--                    the place where two keys part, the invariant, and look-ups after a change.
--   Util             util.c, util.h: strings with a length, paths, dynamic arrays, UTF-8, and in
--                    Util.Integers integer_conversion.
--   Registers        vis-registers.c: slots, each a Buffer; Registers.Names the names and the choice
--                    of a register, and the names of marks.
--   Marks            vis-marks.c: sets of ranges and marks; Marks.Jumps the jump list.
--   Text             text.c, with text-io.c for blocks and text-iterator.c, text-common.c for reading.
--     Text.State     the structures: Piece, Location, Span, TextChange, Revision, Block, Text.
--     Text.Blocks    block_alloc to block_delete, and block_store.
--     Text.Spans     piece_alloc, piece_init, span_init, span_swap, piece_get_intern and _extern.
--     Text.Revisions revision_alloc, text_change_alloc, text_snapshot, revision_undo, revision_redo.
--     Text.Cache     cache_piece, cache_contains, cache_insert, cache_delete.
--     Text.Insert, Text.Delete, Text.History, Text.Load
--                    text_insert; text_delete; undo, redo, earlier, later, restore; vis_text_load.
--     Text.Iterator  iterators by byte, code point and character, line counting, marks.
--     Text.Strings   text-util.c: text_char_count, text_string_width.
--     Text.Chain, Text.Content, Text.Holds, Text.Loaded, Text.Reading,
--     Text.Undone
--                    the chain of pieces, the bytes it stands for, the invariant and its proofs.
--   Motions          text-motions.c: functions from a position to a position, over the iterators.
--   Objects          text-objects.c: functions from a position to a range, over the motions.
--   Prelude          helpers: tests, lists over native numbers, changes of a part of a list.
--
-- How a `Text` is modelled. Pieces, blocks and revisions live at numbered addresses in maps of the
-- record `Text`; 0 is NULL, pieces 1 and 2 are the sentinels `begin` and `end`, and a counter gives
-- the next fresh address. A pointer into a block is the index of the block and an offset. A block
-- keeps only the bytes in use, the first `len` ones of its memory. Whether an allocation succeeds is
-- the record `Env`'s to say, so every failing branch is there: an operation that returns `false` is
-- `failed` with the text it leaves behind. Bytes and positions are natural numbers; where the source
-- guards against overflow (`addu`), the bound 2 ^ 64 is written out. Bytes are unsigned; the tests
-- of the source compare them with ASCII characters only, or cast them.
--
-- Where the source leaves what C defines, the model says so: `none` is the redo of a revision
-- without a change, which reads through NULL, an insertion in front of a buffer, and a buffer of
-- negative length; `overflow` is a directory that is longer than the array it is copied to.
--
-- How a `Map` is modelled. An item or a node is a tree, and a change of a child through a pointer is
-- the tree rebuilt on the way back. A key is the list of its bytes without the terminator, which is
-- read as 0 behind them. The map without items is `empty`, with the value field that it still has.
-- Strings with a length are the lists of their bytes. A dynamic array is the list of its items;
-- where its capacity matters, in `Register`, it is the list of all slots that there is memory for.
-- An access out of bounds yields `none`.
--
-- Loops. A walk over the pieces has `next_piece + 1` rounds, more than there are pieces, each of
-- which has its own address below that counter; a walk over the revisions has `next_revision +
-- 1`. A walk byte by byte has `size + next_piece + 2` rounds. The search for a string starts anew
-- behind a match that broke off, so its rounds are multiplied by the length of the string. The
-- doubling of a capacity has 32 rounds, one for each bit of the number. The count of characters
-- takes its rounds as an argument, since no number is enough for every string; the columns have
-- one round for each byte.
--
-- Parameters. `Realloc` states of the C library's realloc that the new array has the size asked
-- for and begins with the old bytes. `Formatted` is what `vsnprintf` makes of a format. `Locale`
-- is the multi-byte decoder with its shift state, and an argument of `text_string_width` says
-- whether it yields a tab. `Memory` says which allocations of the map succeed, `Qsort` that a
-- sort keeps the number of the items. `realpath`, the commands of the clipboard, and
-- the saving and restoring of regions by a view are arguments. The file system's answer is an
-- argument of `vis_text_load`. An uninitialised variable that the source reads is an argument of
-- the motion.
--
-- Not modelled: reading and saving files, regular expressions, the indentation object, the command
-- language of sam.c, the view, the modes and operators, the terminal, Lua, subprocesses, the
-- formatting of strings, and the freeing of memory.
pub mod Prelude
pub mod Range
pub mod Buffer
pub mod Text
pub mod Motions
pub mod Objects
pub mod Map
pub mod Util
pub mod Registers
pub mod Marks
