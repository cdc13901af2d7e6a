-- ===== src/Dd.antt =====
-- fckrnl/dd: the drivers.
pub mod Pic
pub mod Com
pub mod Apic
