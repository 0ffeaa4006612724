-- ===== src/Types.antt =====
-- src/types.c and src/types.h: the number parser and the byte buffers.
pub mod Number
pub mod Memory
pub mod Buffer
pub mod Array
pub mod Trim
mod Tests
