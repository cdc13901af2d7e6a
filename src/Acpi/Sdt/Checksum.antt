-- ===== src/Acpi/Sdt/Checksum.antt =====
-- `_acpi_verify_sdt_checksum`: when it ends, and with what.
use fusioncore.Base.{
  ℕ, zero, suc, ◌+◌, ◌%◌, ◌≤◌, ◌<◌, ◌≡◌, refl, ◌∙◌, true, false, arith, ltb, lt→ltb, ◌==◌,
  if◌then◌else◌, u8, ap,
}
use native.Mathlib.Nat.{add-zero}
use fusioncore.Machine.Bytes.{Memory}
use fusioncore.Acpi.Sdt.{
  returned, halted, spinning, sdt_len, checksum_loop, acpi_verify_sdt_checksum,
}

-- The sum of the `n` bytes from `a` on.
unfoldable pub sum_bytes : Memory → ℕ → ℕ → ℕ
sum_bytes m a zero = 0
sum_bytes m a (suc n) = m a + sum_bytes m (a + 1) n

module _ (m : Memory) (sdt : ℕ) where
  checksum_loop-sum :
      (left i cs fuel : ℕ)
      → i + left ≡ sdt_len m sdt
      → sdt_len m sdt < 256
      → left < fuel
      → cs < 256
      → checksum_loop fuel m sdt i cs ≡ returned ((cs + sum_bytes m (sdt + i) left) % 256)
  unfolding checksum_loop sum_bytes
  checksum_loop-sum left i cs zero e small enough byte = absurd (omega arith)
  checksum_loop-sum zero i cs (suc fuel) e small enough byte =
      rw (at_end) (ap returned (omega arith))
    where
      at_end : ltb i (sdt_len m sdt) ≡ false
      at_end = ground arith
  checksum_loop-sum (suc left) i cs (suc fuel) e small enough byte =
      rw (lt→ltb i (sdt_len m sdt) (omega arith), next_index)
        (checksum_loop-sum left (i + 1) (u8 (cs + m (sdt + i))) fuel (omega arith) small
            (omega arith) (omega arith)
          ∙ ap (λ a. returned ((u8 (cs + m (sdt + i)) + sum_bytes m a left) % 256)) next_byte
          ∙ ap returned (omega arith))
    where
      next_index : u8 (i + 1) ≡ i + 1
      next_index = omega arith

      next_byte : sdt + (i + 1) ≡ sdt + i + 1
      next_byte = omega arith

  -- With a length above 255 the index never reaches it.
  checksum_loop-spinning :
      (fuel i cs : ℕ) → 256 ≤ sdt_len m sdt → i < 256 → checksum_loop fuel m sdt i cs ≡ spinning
  unfolding checksum_loop
  checksum_loop-spinning zero i cs long small = refl
  checksum_loop-spinning (suc fuel) i cs long small =
      rw (lt→ltb i (sdt_len m sdt) (omega arith))
        (checksum_loop-spinning fuel (u8 (i + 1)) (u8 (cs + m (sdt + i))) long (omega arith))

  -- A table of at most 255 bytes is accepted exactly when its bytes add up to 0 mod 256, and the
  -- kernel halts otherwise; in both cases the check ends, if the fuel is more than the bytes.
  pub acpi_verify_sdt_checksum-sum :
      (fuel : ℕ)
      → sdt_len m sdt < 256
      → sdt_len m sdt < fuel
      → acpi_verify_sdt_checksum fuel m sdt
        ≡ (if sum_bytes m sdt (sdt_len m sdt) % 256 == 0 then returned true else halted)
  unfolding acpi_verify_sdt_checksum
  acpi_verify_sdt_checksum-sum fuel small enough =
      rw (checksum_loop-sum (sdt_len m sdt) 0 0 fuel (omega arith) small enough (omega arith)) (
        ap (λ t. if t == 0 then returned true else halted)
          (ap (λ a. (0 + sum_bytes m a (sdt_len m sdt)) % 256) (add-zero sdt) ∙ omega arith))

  -- On a table of 256 bytes or more the check does not end, however much fuel it has.
  pub acpi_verify_sdt_checksum-spinning :
      (fuel : ℕ) → 256 ≤ sdt_len m sdt → acpi_verify_sdt_checksum fuel m sdt ≡ spinning
  unfolding acpi_verify_sdt_checksum
  acpi_verify_sdt_checksum-spinning fuel long =
      rw (checksum_loop-spinning fuel 0 0 long (omega arith)) refl
