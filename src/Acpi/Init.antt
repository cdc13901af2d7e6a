-- ===== src/Acpi/Init.antt =====
-- fckrnl/acpi/acpi.c: `acpi_init`, from the boot loader's tags to the interrupt controllers' table.
pub mod Finds
use fusioncore.Base.{ℕ, ◌+◌, Bool, Option, none, some}
use fusioncore.Machine.Bytes.{Memory, load}
use fusioncore.Boot.{stivale2_get_tag}
use fusioncore.Acpi.Sdt.{Outcome, returned, spinning, ◌>>=◌}
use fusioncore.Acpi.Rsdp.{acpi_root}
use fusioncore.Acpi.Madt.{Madt, acpi_madt_init}

-- `STIVALE2_STRUCT_TAG_RSDP_ID`, and `rsdp_tag->rsdp`
abbrev pub tag_rsdp_id : ℕ
tag_rsdp_id = 0x9e17_8693_0a37_5e78

abbrev pub tag_rsdp : Memory → ℕ → ℕ
tag_rsdp m tag = load 8 m (tag + 16)

-- Where the kernel's three strings stand.
pub record Signatures : Type 0 where
  pub xsdt : ℕ
  pub rsdt : ℕ
  pub apic : ℕ

-- `has_xsdt`, `xsdt` or `rsdt`, `madt` and its sorted entries.
pub record AcpiTables : Type 0 where
  pub has_xsdt : Bool
  pub root : ℕ
  pub madt : ℕ
  pub entries : Madt

abbrev from_tags : Option ℕ → Outcome ℕ
from_tags none = spinning
from_tags (some tag) = returned tag

-- `acpi_init`. The field of a tag that is not there is read behind address 0, as the source does.
unfoldable pub acpi_init : ℕ → Memory → ℕ → Signatures → Outcome AcpiTables
acpi_init fuel m stivale2_struct sigs = do
  rsdp_tag ← from_tags (stivale2_get_tag fuel m stivale2_struct tag_rsdp_id)
  (has_xsdt, root) ← acpi_root fuel m (tag_rsdp m rsdp_tag) sigs.xsdt sigs.rsdt
  (madt, entries) ← acpi_madt_init fuel m root has_xsdt sigs.apic
  returned (record { has_xsdt = has_xsdt; root = root; madt = madt; entries = entries })
