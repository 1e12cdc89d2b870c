-- ===== src/Buffer.antt =====
-- src/io/buffer.c and include/io/buffer.h: a byte queue over a list of 512-byte blocks. `Node` has
-- the structs, `Fill` the two functions that append, `Drain` those that take from the front, and
-- `Find` the search for a byte; the proofs stand below and beside them.
pub mod Node
pub mod Fill
pub mod Ownership
pub mod Drain
pub mod Find
