-- ===== src/Examples.antt =====
-- The program's functions run on small inputs, where the hypotheses of the theorems hold.
mod Pages
mod Holding
mod Memory
mod Text
mod Devices
mod Firmware
mod Acpi
mod Processor
mod Reports
mod Requests
mod Space
mod Slabs
mod Kernel
