-- ===== src/Acpi/Rsdp.antt =====
-- fckrnl/acpi/tbl/rsdt.c and rsdt.h: the root pointer.
use fusioncore.Base.{ℕ, zero, suc, ◌+◌, Bool, false, not, leb, ◌==◌, if◌then◌else◌, u8}
use fusioncore.Acpi.Sdt.{Outcome, returned, halted, ◌>>=◌, acpi_verify_sdt}
use fusioncore.Machine.Bytes.{Memory, load}
use fusioncore.Mm.Memmap.{phys_to_higher_half_data}

-- Fields of an `rsdp_t`, packed.
abbrev pub rsdp_rev : Memory → ℕ → ℕ
rsdp_rev m rsdp = m (rsdp + 15)

abbrev pub rsdp_rsdt_addr : Memory → ℕ → ℕ
rsdp_rsdt_addr m rsdp = load 4 m (rsdp + 16)

abbrev pub rsdp_xsdt_addr : Memory → ℕ → ℕ
rsdp_xsdt_addr m rsdp = load 8 m (rsdp + 24)

-- The loop of `_acpi_rsdp_validate` at byte `i`, with `left` bytes to go.
unfoldable pub rsdp_sum : ℕ → Memory → ℕ → ℕ → ℕ → ℕ
rsdp_sum zero m rsdp i cs = cs
rsdp_sum (suc left) m rsdp i cs = rsdp_sum left m rsdp (i + 1) (u8 (cs + m (rsdp + i)))

unfoldable pub acpi_rsdp_validate : Memory → ℕ → Outcome (Unit {0})
unfolding rsdp_sum
acpi_rsdp_validate m rsdp = if rsdp_sum 20 m rsdp 0 0 == 0 then returned tt else halted

-- `_acpi_rsdp_init`: the result is `has_xsdt`, which is false at the start.
unfoldable pub acpi_rsdp_init : Memory → ℕ → Outcome Bool
unfolding acpi_rsdp_validate
acpi_rsdp_init m rsdp = do
  _ ← acpi_rsdp_validate m rsdp
  returned (if leb 2 (rsdp_rev m rsdp) then not (rsdp_xsdt_addr m rsdp == 0) else false)

-- `acpi_init` up to the table of interrupt controllers: `has_xsdt`, and the address of the root
-- table. The signatures stand at the two addresses.
unfoldable pub acpi_root : ℕ → Memory → ℕ → ℕ → ℕ → Outcome (Bool × ℕ)
unfolding acpi_rsdp_init
acpi_root fuel m rsdp xsdt_sig rsdt_sig = do
  has_xsdt ← acpi_rsdp_init m rsdp
  let root =
      phys_to_higher_half_data (if has_xsdt then rsdp_xsdt_addr m rsdp else rsdp_rsdt_addr m rsdp)
  ok ← acpi_verify_sdt fuel m root (if has_xsdt then xsdt_sig else rsdt_sig)
  if ok then returned (has_xsdt, root) else halted
