-- ===== src/Examples/Devices.antt =====
-- The drivers against devices that answer from a fixed table.
use fusioncore.Base.{
  ℕ, zero, suc, ◌<◌, ◌+◌, ◌≡◌, ◌≢◌, refl, inl, true, false, [], ◌∷◌, ◌++◌, map, arith, ◌==◌,
  if◌then◌else◌, u8,
}
use fusioncore.Asm.{was_read, Trace, Device, done}
use fusioncore.Machine.Bytes.{Memory}
use fusioncore.Acpi.Madt.{Madt}
use fusioncore.Dd.Com.{com1, com_send_string, com_recv}
use fusioncore.Dd.Com.Received.{is_waiting, polled_times, com_recv-waits}
use fusioncore.Dd.Com.Sent.{sent, com_send_string-sent}
use fusioncore.Dd.Pic.Ports.{set_mask, run, reaches_slave, run-misses_slave}
use fusioncore.Dd.Apic.Ioapic.{redirect_entry_of, ioapic_set_irq_redir}
use fusioncore.Dd.Apic.Program.{Programmed, ioapic_set_irq_redir-Programmed}

-- Every port reads as 0x60: both ready bits of a serial port, and lines 5 and 6 masked.
abbrev steady : Device
steady t port = 0x60

com_send_string-sent_example :
    (t' : Trace) × (com_send_string steady 1 com1 (0x6f ∷ 0x6b ∷ []) [] ≡ done tt t')
    × (sent com1 t' ≡ sent com1 [] ++ map u8 (0x6f ∷ 0x6b ∷ []))
    × ((other : ℕ) → other ≢ com1 → sent other t' ≡ sent other [])
com_send_string-sent_example =
    com_send_string-sent steady com1 1 (λ t. inl refl) (0x6f ∷ 0x6b ∷ []) []

run-misses_slave_example :
    (t : Trace) × (run steady (set_mask 12) ≡ done tt t) × (reaches_slave t ≡ false)
run-misses_slave_example = run-misses_slave steady (set_mask 12)

-- Two controllers, with bases 0 and 24; each answers with 23 as the number of its last pin.
abbrev io_memory : Memory
io_memory a = if a == 0x208 then 24 else 0

abbrev io_tables : Madt
io_tables = record { lapics = []; ioapics = 0x100 ∷ 0x200 ∷ []; isos = []; lapic_nmis = [] }

abbrev io_device : Device
io_device t addr = 0x17_0020

ioapic_set_irq_redir-Programmed_example :
    Programmed io_device io_memory io_tables 9
      (λ e. 23)
      9
      (redirect_entry_of 0 41 0 true)
      []
      (ioapic_set_irq_redir io_device io_memory io_tables 0 41 9 true [])
ioapic_set_irq_redir-Programmed_example =
    ioapic_set_irq_redir-Programmed io_device io_memory io_tables (λ e. 23) 0 41 9 true []
      (λ e t. refl)

-- The first poll finds no byte, the second one.
abbrev slow : Device
slow [] port = 0
slow (a ∷ t) port = 0x41

com_recv-waits_example :
    com_recv slow 5 com1 []
    ≡ done 0x41 (was_read (com1 + 5) ∷ was_read (com1 + 5) ∷ was_read com1 ∷ [])
com_recv-waits_example = com_recv-waits slow com1 5 1 [] (omega arith) (λ k lt. first k lt) refl
  where
    first : (k : ℕ) → k < 1 → is_waiting slow com1 (polled_times slow com1 k []) ≡ false
    first zero lt = refl
    first (suc k) lt = absurd (omega arith)
