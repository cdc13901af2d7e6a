-- ===== src/Acpi/Sdt.antt =====
-- fckrnl/acpi/acpi.c and tbl/sdt.h: finding a table, and its check sum.
pub mod Checksum
pub mod Find
use fusioncore.Base.{
  ℕ, zero, suc, ◌+◌, ◌-◌, ◌*◌, ◌/◌, Bool, true, false, ltb, ◌==◌, if◌then◌else◌, u8, u32, u64,
  sub64,
}
use fusioncore.Base.Int.{ℤ, pos, negsuc}
use fusioncore.Libk.Text.{memcmp}
use fusioncore.Machine.Bytes.{Memory, load}
use fusioncore.Mm.Memmap.{phys_to_higher_half_data}

-- `returned`, or `log(PANIC, ...)`, or an access outside an array, or a loop that was not at its end
-- when the fuel ran out.
pub data Outcome (A : Type 0) : Type 0 where
  returned : A → Outcome A
  halted overrun spinning : Outcome A

infixl 5 ◌>>=◌
abbrev pub ◌>>=◌ : {A B : Type 0} → Outcome A → (A → Outcome B) → Outcome B
returned a >>= f = f a
halted >>= f = halted
overrun >>= f = overrun
spinning >>= f = spinning

-- `sizeof(sdt_t)`, and the field `len` of an `sdt_t`; `sig` is its first field.
abbrev pub sizeof_sdt : ℕ
sizeof_sdt = 36

abbrev pub sdt_len : Memory → ℕ → ℕ
sdt_len m sdt = load 4 m (sdt + 4)

-- The loop of `_acpi_verify_sdt_checksum`. Its index `i` is a `uint8_t`, and so is the sum.
unfoldable pub checksum_loop : ℕ → Memory → ℕ → ℕ → ℕ → Outcome ℕ
checksum_loop zero m sdt i cs = spinning
checksum_loop (suc fuel) m sdt i cs =
    let rest = checksum_loop fuel m sdt (u8 (i + 1)) (u8 (cs + m (sdt + i))) in
    if ltb i (sdt_len m sdt) then rest else returned cs

-- A sum that is not 0 is logged as a panic, so `false` is never returned.
unfoldable pub acpi_verify_sdt_checksum : ℕ → Memory → ℕ → Outcome Bool
unfolding checksum_loop
acpi_verify_sdt_checksum fuel m sdt = do
  cs ← checksum_loop fuel m sdt 0 0
  if cs == 0 then returned true else halted

abbrev pub is_zero : ℤ → Bool
is_zero (pos n) = n == 0
is_zero (negsuc n) = false

-- `sig` is the address of the four bytes of the signature that is asked for.
unfoldable pub acpi_verify_sdt : ℕ → Memory → ℕ → ℕ → Outcome Bool
unfolding acpi_verify_sdt_checksum
acpi_verify_sdt fuel m sdt sig =
    if is_zero (memcmp m sdt sig 4) then acpi_verify_sdt_checksum fuel m sdt else returned false

-- Entry `i` of the root table: of type `uint32_t` in an `rsdt_t` and in an `xsdt_t` too.
abbrev pub entry_of : Memory → ℕ → ℕ → ℕ
entry_of m root i = load 4 m (root + sizeof_sdt + 4 * i)

-- The number of entries, from the length of the root table.
abbrev pub entry_count : Memory → ℕ → Bool → ℕ
entry_count m root has_xsdt = sub64 (sdt_len m root) sizeof_sdt / (if has_xsdt then 8 else 4)

-- The loop of `_acpi_find_sdt` at entry `i`, with `left` entries to go. No table is a panic.
unfoldable pub find_loop : ℕ → ℕ → Memory → ℕ → ℕ → ℕ → Outcome ℕ
unfolding acpi_verify_sdt
find_loop fuel zero m root sig i = halted
find_loop fuel (suc left) m root sig i =
    let rest = find_loop fuel left m root sig (i + 1) in
    do
      matches ← acpi_verify_sdt fuel m (entry_of m root i) sig
      if matches then returned (phys_to_higher_half_data (entry_of m root i)) else rest

-- `root` is the table at `xsdt` or at `rsdt`, as `has_xsdt` says.
unfoldable pub acpi_find_sdt : ℕ → Memory → ℕ → Bool → ℕ → Outcome ℕ
unfolding find_loop
acpi_find_sdt fuel m root has_xsdt sig = find_loop fuel (entry_count m root has_xsdt) m root sig 0
