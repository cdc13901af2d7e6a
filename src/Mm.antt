-- ===== src/Mm.antt =====
-- fckrnl/mm: the page bitmap, the page allocator, zeroed pages, the slab allocator, page tables.
pub mod Bitmap
pub mod Memmap
pub mod Phys
pub mod Zeroed
pub mod Kept
pub mod Slab
pub mod Virt
