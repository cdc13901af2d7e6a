-- ===== src/Dd/Apic.antt =====
-- fckrnl/dd/apic/apic.c and apic.h: the local interrupt controller, and how both are set up.
pub mod Ioapic
pub mod Redirect
pub mod Pins
pub mod Accesses
pub mod Program
pub mod Pinned
pub mod Lines
use fusioncore.Base.{
  ℕ, zero, suc, ◌+◌, ◌*◌, ◌/◌, ◌^◌, bit_or, Bool, true, not, Option, none, some, List, replicate,
  ◌==◌, if◌then◌else◌, u8, u32, u64,
}
use fusioncore.Asm.{Device, Out, Io, halt, fault, done, pure, ◌>>=◌, ◌>>◌, write_reg32, read_reg32}
use fusioncore.Machine.Bytes.{Memory}
use fusioncore.Mm.Memmap.{phys_to_higher_half_data}
use fusioncore.Mm.Bitmap.{Bitmap, bitmap_set, bitmap_get}
use fusioncore.Acpi.Madt.{Madt, madt_lapic_addr}
use fusioncore.Cpu.Isr.{spurious_int}
use fusioncore.Dd.Pic.{pic_disable}
use fusioncore.Dd.Apic.Ioapic.{ioapic_set_irq_redir}

-- Registers of the local controller, by their distance from `lapic_addr`.
abbrev pub lapic_id_reg : ℕ
lapic_id_reg = 0x020

abbrev pub lapic_eoi_reg : ℕ
lapic_eoi_reg = 0x0b0

abbrev pub lapic_spurious_reg : ℕ
lapic_spurious_reg = 0x0f0

abbrev pub lapic_icr0_reg : ℕ
lapic_icr0_reg = 0x300

abbrev pub lapic_icr1_reg : ℕ
lapic_icr1_reg = 0x310

abbrev pub lapic_enable_bit : ℕ
lapic_enable_bit = 2 ^ 8

unfoldable pub lapic_write_reg : ℕ → ℕ → ℕ → Io (Unit {0})
lapic_write_reg lapic_addr reg val = write_reg32 (u64 (lapic_addr + reg)) val

unfoldable pub lapic_signal_eoi : ℕ → Io (Unit {0})
lapic_signal_eoi lapic_addr = lapic_write_reg lapic_addr lapic_eoi_reg 0

unfoldable pub lapic_signal_ipi : ℕ → ℕ → ℕ → Io (Unit {0})
lapic_signal_ipi lapic_addr lapic_id vector = do
  lapic_write_reg lapic_addr lapic_icr1_reg (u32 (lapic_id * 2 ^ 24))
  lapic_write_reg lapic_addr lapic_icr0_reg vector

-- `irq_bitmap`; `none` of the bitmap's functions is an access outside its 16 bytes.
abbrev pub irq_bitmap : Bitmap
irq_bitmap = record { map = replicate 16 0; size = 16 }

abbrev from_bitmap : {A : Type 0} → Option A → Io A
from_bitmap none t = fault
from_bitmap (some a) t = done a t

module _ (dev : Device) where
  unfoldable pub lapic_read_reg : ℕ → ℕ → Io ℕ
  lapic_read_reg lapic_addr reg = read_reg32 dev (u64 (lapic_addr + reg))

  unfoldable pub lapic_enable : ℕ → Io (Unit {0})
  lapic_enable lapic_addr = do
    old ← lapic_read_reg lapic_addr lapic_spurious_reg
    lapic_write_reg lapic_addr lapic_spurious_reg
        (bit_or (bit_or old lapic_enable_bit) spurious_int)

  unfoldable pub lapic_get_id : ℕ → Io ℕ
  lapic_get_id lapic_addr = do id ← lapic_read_reg lapic_addr lapic_id_reg; pure (u8 (id / 2 ^ 24))

  module _ (m : Memory) (tables : Madt) (lapic_addr : ℕ) where
    -- The first loop of `apic_init`, with `left` rounds to go.
    unfoldable pub redirect_all : ℕ → ℕ → Io (Unit {0})
    redirect_all zero i = pure tt
    redirect_all (suc left) i = do
      id ← lapic_get_id lapic_addr
      _ ← ioapic_set_irq_redir dev m tables id (u8 (i + 32)) i true
      redirect_all left (i + 1)

    -- A round of the second loop for a line that the map does not have.
    unfoldable pub redirect_next : ℕ → Bitmap → Io Bitmap
    redirect_next i bits = do
      id ← lapic_get_id lapic_addr
      irq ← ioapic_set_irq_redir dev m tables id (u8 (i + 32)) i true
      from_bitmap (bitmap_set bits irq)

    -- The second loop, which passes over the lines that the map has.
    unfoldable pub redirect_rest : ℕ → ℕ → Bitmap → Io (Unit {0})
    redirect_rest zero i bits = pure tt
    redirect_rest (suc left) i bits = do
      taken ← from_bitmap (bitmap_get bits i)
      new_bits ← if taken == 0 then redirect_next i bits else pure bits
      redirect_rest left (i + 1) new_bits

  -- `apic_init`: `available` is what `apic_is_avail` answers, `madt` the address of the table.
  -- The answer is `lapic_addr`. The map comes from `malloc`, and is taken as given.
  unfoldable pub apic_init : Memory → Madt → ℕ → Bool → Io ℕ
  apic_init m tables madt available =
      let lapic_addr = phys_to_higher_half_data (madt_lapic_addr m madt) in
      if available
      then pic_disable
        >> lapic_enable lapic_addr
        >> redirect_all m tables lapic_addr 16 0
        >> redirect_rest m tables lapic_addr 16 0 irq_bitmap
        >> pure lapic_addr
      else halt
