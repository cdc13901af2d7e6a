-- ===== src/Acpi/Sdt/Find.antt =====
-- `_acpi_find_sdt`: the first entry whose signature and check sum fit.
use fusioncore.Base.{
  ℕ, zero, suc, ◌+◌, ◌≤◌, ◌<◌, ◌≡◌, refl, ◌∙◌, ap, Bool, true, false, arith, eq_or_lt, inl, inr,
}
use native.Mathlib.Nat.{le_refl}
use fusioncore.Machine.Bytes.{Memory}
use fusioncore.Mm.Memmap.{phys_to_higher_half_data}
use fusioncore.Acpi.Sdt.{
  returned, halted, entry_of, entry_count, acpi_verify_sdt, find_loop, acpi_find_sdt,
}

module _ (fuel : ℕ) (m : Memory) (root sig : ℕ) where
  find_loop-first :
      (left i k : ℕ)
      → i ≤ k
      → k < i + left
      → ((j : ℕ) → i ≤ j → j < k → acpi_verify_sdt fuel m (entry_of m root j) sig ≡ returned false)
      → acpi_verify_sdt fuel m (entry_of m root k) sig ≡ returned true
      → find_loop fuel left m root sig i ≡ returned (phys_to_higher_half_data (entry_of m root k))
  unfolding find_loop
  find_loop-first zero i k lo hi before at_k = absurd (omega arith)
  find_loop-first (suc left) i k lo hi before at_k = elim (eq_or_lt i k lo) [
    | inl e ↦ rw (at_here e) (ap (λ j. returned (phys_to_higher_half_data (entry_of m root j))) e)
    | inr lt ↦ rw (before i (le_refl i) lt) (
        find_loop-first left (i + 1) k (omega arith) (omega arith)
          (λ j p q. before j (omega arith) q) at_k)
  ]
    where
      at_here : i ≡ k → acpi_verify_sdt fuel m (entry_of m root i) sig ≡ returned true
      at_here e = ap (λ j. acpi_verify_sdt fuel m (entry_of m root j) sig) e ∙ at_k

  find_loop-none :
      (left i : ℕ)
      → ((j : ℕ)
          → i ≤ j
          → j < i + left
          → acpi_verify_sdt fuel m (entry_of m root j) sig ≡ returned false)
      → find_loop fuel left m root sig i ≡ halted
  unfolding find_loop
  find_loop-none zero i none_fits = refl
  find_loop-none (suc left) i none_fits =
      rw (none_fits i (le_refl i) (omega arith))
        (find_loop-none left (i + 1) (λ j p q. none_fits j (omega arith) (omega arith)))

  -- Where an entry of the root table passes and all before it have another signature, that entry's
  -- address in the higher half is returned.
  pub acpi_find_sdt-first :
      (has_xsdt : Bool) (k : ℕ)
      → k < entry_count m root has_xsdt
      → ((j : ℕ) → j < k → acpi_verify_sdt fuel m (entry_of m root j) sig ≡ returned false)
      → acpi_verify_sdt fuel m (entry_of m root k) sig ≡ returned true
      → acpi_find_sdt fuel m root has_xsdt sig
        ≡ returned (phys_to_higher_half_data (entry_of m root k))
  unfolding acpi_find_sdt
  acpi_find_sdt-first has_xsdt k in_table before at_k =
      find_loop-first (entry_count m root has_xsdt) 0 k (omega arith) (omega arith)
        (λ j _ q. before j q) at_k

  -- If no entry has the signature the kernel halts.
  pub acpi_find_sdt-none :
      (has_xsdt : Bool)
      → ((j : ℕ)
          → j < entry_count m root has_xsdt
          → acpi_verify_sdt fuel m (entry_of m root j) sig ≡ returned false)
      → acpi_find_sdt fuel m root has_xsdt sig ≡ halted
  unfolding acpi_find_sdt
  acpi_find_sdt-none has_xsdt none_fits =
      find_loop-none (entry_count m root has_xsdt) 0 (λ j _ q. none_fits j (omega arith))
