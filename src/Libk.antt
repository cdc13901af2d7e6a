-- ===== src/Libk.antt =====
-- fckrnl/libk: memory blocks, and the heap.
pub mod Text
pub mod Log
pub mod Malloc
