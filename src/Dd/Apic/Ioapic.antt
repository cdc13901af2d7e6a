-- ===== src/Dd/Apic/Ioapic.antt =====
-- fckrnl/dd/apic/apic.c and apic.h: the I/O interrupt controllers. Their registers lie behind a
-- selector and a window.
use fusioncore.Base.{
  ℕ, ◌+◌, ◌*◌, ◌/◌, ◌^◌, ◌-◌, bit_and, bit_or, Bool, ◌&&◌, Option, none, some, List, [], ◌∷◌,
  get_elem?, ltb, leb, ◌==◌, if◌then◌else◌, u8, u32, u64,
}
use fusioncore.Asm.{Device, Io, halt, fault, done, pure, ◌>>=◌, ◌>>◌, write_reg32, read_reg32}
use fusioncore.Machine.Bytes.{Memory}
use fusioncore.Mm.Memmap.{phys_to_higher_half_data}
use fusioncore.Acpi.Madt.{Madt, ioapic_addr, ioapic_gsi_base, iso_irq_src, iso_gsi, iso_flags}

abbrev pub ioregsel : ℕ
ioregsel = 0

abbrev pub iowin : ℕ
iowin = 0x10

abbrev pub ioapicver_reg : ℕ
ioapicver_reg = 1

abbrev pub ioapic_pinpol_bit : ℕ
ioapic_pinpol_bit = 2 ^ 13

abbrev pub ioapic_trigmode_bit : ℕ
ioapic_trigmode_bit = 2 ^ 15

abbrev pub ioapic_mask_bit : ℕ
ioapic_mask_bit = 2 ^ 16

-- `a - b` on `uint32_t`.
abbrev pub sub32 : ℕ → ℕ → ℕ
sub32 a b = u32 (a + 2 ^ 32 - u32 b)

-- `IRQ_TO_IOREDTBL_REG(gsi - gsi_base)` as the macro's text puts it, which has no parentheses
-- around its argument: `((gsi - gsi_base * 2) + 0x10)` on `uint32_t`.
abbrev pub irq_to_ioredtbl_reg : ℕ → ℕ → ℕ
irq_to_ioredtbl_reg gsi gsi_base = u32 (sub32 gsi (u32 (gsi_base * 2)) + 0x10)

-- The first half of `ioapic_set_gsi_redir`, which puts the entry's bits together. `~` of the mask
-- bit is that of an `int`, extended to 64 bits.
unfoldable pub redirect_entry_of : ℕ → ℕ → ℕ → Bool → ℕ
redirect_entry_of lapic_id vector flags mask =
    let entry0 = vector in
    let entry1 = if bit_and flags 2 == 0 then entry0 else bit_or entry0 ioapic_pinpol_bit in
    let entry2 = if bit_and flags 8 == 0 then entry1 else bit_or entry1 ioapic_trigmode_bit in
    let entry3 =
      if mask
      then bit_or entry2 ioapic_mask_bit
      else bit_and entry2 (2 ^ 64 - 1 - ioapic_mask_bit) in
    bit_or entry3 (u64 (lapic_id * 2 ^ 56))

abbrev pub from_table : Option ℕ → Io ℕ
from_table none t = fault
from_table (some e) t = done e t

module _ (dev : Device) (m : Memory) (tables : Madt) where
  -- `madt_ioapics[ioapic_i]`; out of range it is a fault.
  abbrev pub ioapic_at : ℕ → Io ℕ
  ioapic_at i = from_table (get_elem? tables.ioapics i)

  -- The address of a controller's registers.
  abbrev pub ioapic_base : ℕ → ℕ
  ioapic_base e = phys_to_higher_half_data (ioapic_addr m e)

  unfoldable pub ioapic_read_reg : ℕ → ℕ → Io ℕ
  ioapic_read_reg ioapic_i reg = do
    e ← ioapic_at ioapic_i
    write_reg32 (u64 (ioapic_base e + ioregsel)) (u8 reg)
    read_reg32 dev (u64 (ioapic_base e + iowin))

  unfoldable pub ioapic_write_reg : ℕ → ℕ → ℕ → Io (Unit {0})
  ioapic_write_reg ioapic_i reg val = do
    e ← ioapic_at ioapic_i
    write_reg32 (u64 (ioapic_base e + ioregsel)) (u8 reg)
    write_reg32 (u64 (ioapic_base e + iowin)) val

  unfoldable pub ioapic_get_max_redir : ℕ → Io ℕ
  ioapic_get_max_redir ioapic_i = do
    version ← ioapic_read_reg ioapic_i ioapicver_reg
    pure (bit_and version 0xff_0000 / 2 ^ 16)

  -- The loop of `ioapic_i_from_gsi`, over the controllers that are left; the end of the loop is
  -- a panic.
  unfoldable pub search_ioapics : ℕ → ℕ → List ℕ → Io ℕ
  search_ioapics gsi i [] = halt
  search_ioapics gsi i (e ∷ es) = do
    max_redir ← ioapic_get_max_redir i
    let start_gsi = ioapic_gsi_base m e
    let end_gsi = u32 (start_gsi + max_redir)
    let rest = search_ioapics gsi (i + 1) es
    if leb start_gsi gsi && ltb gsi end_gsi then pure i else rest

  unfoldable pub ioapic_i_from_gsi : ℕ → Io ℕ
  ioapic_i_from_gsi gsi = search_ioapics gsi 0 tables.ioapics

  unfoldable pub ioapic_set_gsi_redir : ℕ → ℕ → ℕ → ℕ → Bool → Io (Unit {0})
  ioapic_set_gsi_redir lapic_id vector gsi flags mask = do
    let redirect_entry = redirect_entry_of lapic_id vector flags mask
    ioapic_i ← ioapic_i_from_gsi gsi
    e ← ioapic_at ioapic_i
    let ioredtbl = irq_to_ioredtbl_reg gsi (ioapic_gsi_base m e)
    ioapic_write_reg ioapic_i ioredtbl (u32 redirect_entry)
    ioapic_write_reg ioapic_i (ioredtbl + 1) (u32 (redirect_entry / 2 ^ 32))

  -- The loop of `ioapic_set_irq_redir` over the source overrides that are left.
  unfoldable pub redirect_override : ℕ → ℕ → ℕ → Bool → List ℕ → Io ℕ
  redirect_override lapic_id vector irq mask [] = do
    ioapic_set_gsi_redir lapic_id vector irq 0 mask
    pure irq
  redirect_override lapic_id vector irq mask (iso ∷ isos) =
      let rest = redirect_override lapic_id vector irq mask isos in
      let found =
        ioapic_set_gsi_redir lapic_id vector (iso_gsi m iso) (iso_flags m iso) mask
        >> pure (iso_gsi m iso) in
      if iso_irq_src m iso == irq then found else rest

  unfoldable pub ioapic_set_irq_redir : ℕ → ℕ → ℕ → Bool → Io ℕ
  ioapic_set_irq_redir lapic_id vector irq mask =
      redirect_override lapic_id vector irq mask tables.isos
