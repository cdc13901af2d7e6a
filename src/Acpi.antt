-- ===== src/Acpi.antt =====
-- fckrnl/acpi: the tables of the firmware, over byte-addressed memory.
pub mod Sdt
pub mod Rsdp
pub mod Madt
pub mod Init
