-- ===== src/Cpu.antt =====
-- fckrnl/cpu: descriptor tables, interrupts and processor features.
pub mod Gdt
pub mod Idt
pub mod State
pub mod Isr
pub mod Features
