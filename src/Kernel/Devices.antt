-- ===== src/Kernel/Devices.antt =====
-- fckrnl/kernel.c: `kinit` from the firmware's tables to the interrupt controllers.
