-- ===== src/Acpi/Madt.antt =====
-- fckrnl/acpi/tbl/madt.c and madt.h: the table of interrupt controllers.
pub mod Walk
pub mod Stuck
use fusioncore.Base.{ℕ, zero, suc, ◌+◌, List, [], ◌∷◌, ◌++◌, ltb, ◌==◌, if◌then◌else◌, length}
use fusioncore.Acpi.Sdt.{
  Outcome, returned, overrun, spinning, ◌>>=◌, sizeof_sdt, sdt_len, acpi_find_sdt,
}
use fusioncore.Machine.Bytes.{Memory, load}
use fusioncore.Base.{Bool}

-- `madt_lapics`, `madt_ioapics`, `madt_isos` and `madt_lapic_nmis`: the addresses of the entries
-- of each type, in the order of the table. Each array has room for 32 pointers.
pub record Madt : Type 0 where
  pub lapics : List ℕ
  pub ioapics : List ℕ
  pub isos : List ℕ
  pub lapic_nmis : List ℕ

abbrev pub empty_madt : Madt
empty_madt = record { lapics = []; ioapics = []; isos = []; lapic_nmis = [] }

-- Fields of a `madt_ioapic_t` and of a `madt_iso_t`, packed.
abbrev pub ioapic_addr : Memory → ℕ → ℕ
ioapic_addr m e = load 4 m (e + 4)

abbrev pub ioapic_gsi_base : Memory → ℕ → ℕ
ioapic_gsi_base m e = load 4 m (e + 8)

abbrev pub iso_irq_src : Memory → ℕ → ℕ
iso_irq_src m e = m (e + 3)

abbrev pub iso_gsi : Memory → ℕ → ℕ
iso_gsi m e = load 4 m (e + 4)

abbrev pub iso_flags : Memory → ℕ → ℕ
iso_flags m e = load 2 m (e + 8)

-- `madt->lapic_addr`, and `&madt->entries`
abbrev pub madt_lapic_addr : Memory → ℕ → ℕ
madt_lapic_addr m madt = load 4 m (madt + sizeof_sdt)

abbrev pub madt_entries : ℕ → ℕ
madt_entries madt = madt + sizeof_sdt + 8

-- A store behind the last pointer of one of the arrays, `malloc(256)`, with room for 32.
abbrev pub push : List ℕ → ℕ → Outcome (List ℕ)
push held e = if ltb (length held) 32 then returned (held ++ e ∷ []) else overrun

-- The `switch` on an entry's type.
unfoldable pub add_entry : ℕ → ℕ → Madt → Outcome Madt
add_entry kind e t =
    if kind == 0
    then push t.lapics e >>= (λ held. returned (record t { lapics = held }))
    else (if kind == 1
        then push t.ioapics e >>= (λ held. returned (record t { ioapics = held }))
        else (if kind == 2
            then push t.isos e >>= (λ held. returned (record t { isos = held }))
            else (if kind == 4
                then push t.lapic_nmis e >>= (λ held. returned (record t { lapic_nmis = held }))
                else returned t)))

-- The loop of `_acpi_madt_init`, which moves on by the entry's second byte.
unfoldable pub madt_walk : ℕ → Memory → ℕ → ℕ → Madt → Outcome Madt
unfolding add_entry
madt_walk zero m end e t = spinning
madt_walk (suc fuel) m end e t =
    let rest = add_entry (m e) e t >>= λ added. madt_walk fuel m end (e + m (e + 1)) added in
    if ltb e end then rest else returned t

unfoldable pub madt_collect : ℕ → Memory → ℕ → Outcome Madt
unfolding madt_walk
madt_collect fuel m madt = madt_walk fuel m (madt + sdt_len m madt) (madt_entries madt) empty_madt

-- `_acpi_madt_init`: `madt`, and what its entries are.
unfoldable pub acpi_madt_init : ℕ → Memory → ℕ → Bool → ℕ → Outcome (ℕ × Madt)
unfolding madt_collect
acpi_madt_init fuel m root has_xsdt apic_sig = do
  madt ← acpi_find_sdt fuel m root has_xsdt apic_sig
  t ← madt_collect fuel m madt
  returned (madt, t)
