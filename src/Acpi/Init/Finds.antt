-- ===== src/Acpi/Init/Finds.antt =====
-- `acpi_init` on firmware tables that are in order.
use mathlib.Core.Bool.{false≢true}
use fusioncore.Base.{
  ℕ, zero, suc, ◌+◌, ◌%◌, ◌<◌, ◌≡◌, refl, ap, ◌∙◌, Bool, true, false, not, Bool-cases, inl, inr,
  List, length, leb, ◌==◌, if◌then◌else◌, if-true, if-false, u8, arith, tests,
}
use fusioncore.Base.Int.{ℤ, pos, negsuc}
use fusioncore.Libk.Text.{memcmp}
use fusioncore.Libk.Text.Laws.{SameBytes, memcmp-zero_iff}
use fusioncore.Machine.Bytes.{Memory}
use fusioncore.Mm.Memmap.{phys_to_higher_half_data}
use fusioncore.Boot.{struct_tags}
use fusioncore.Boot.Tags.{TagList, first_tag, stivale2_get_tag-first}
use fusioncore.Acpi.Sdt.{returned, is_zero, sdt_len, entry_of, entry_count, acpi_verify_sdt}
use fusioncore.Acpi.Sdt.Checksum.{sum_bytes, acpi_verify_sdt_checksum-sum}
use fusioncore.Acpi.Sdt.Find.{acpi_find_sdt-first}
use fusioncore.Acpi.Rsdp.{
  rsdp_rev, rsdp_rsdt_addr, rsdp_xsdt_addr, rsdp_sum, acpi_rsdp_validate, acpi_rsdp_init, acpi_root,
}
use fusioncore.Acpi.Madt.{empty_madt, madt_entries, acpi_madt_init}
use fusioncore.Acpi.Madt.Walk.{Entries, Fits, sorted, madt_collect-sorted}
use fusioncore.Acpi.Init.{Signatures, tag_rsdp_id, tag_rsdp, acpi_init}

-- A table with the signature at `sig` whose bytes, at most 255, add up to 0.
pub record IsSdt (m : Memory) (sdt sig : ℕ) : Type 0 where
  pub signature : SameBytes m sdt sig 4
  pub short : sdt_len m sdt < 256
  pub sums : sum_bytes m sdt (sdt_len m sdt) % 256 ≡ 0

acpi_verify_sdt-passes :
    (fuel : ℕ) (m : Memory) (sdt sig : ℕ)
    → 256 < fuel
    → IsSdt m sdt sig
    → acpi_verify_sdt fuel m sdt sig ≡ returned true
unfolding acpi_verify_sdt
acpi_verify_sdt-passes fuel m sdt sig enough t = rw ((memcmp-zero_iff 4 m sdt sig).1 t.signature) (
    acpi_verify_sdt_checksum-sum m sdt fuel t.short (let s = t.short in omega arith)
    ∙ if-true (sum_bytes m sdt (sdt_len m sdt) % 256 == 0) _ _ (let s = t.sums in ground arith))

is_zero-pos : (z : ℤ) → is_zero z ≡ true → z ≡ pos 0
is_zero-pos (pos n) h = ap pos (grind tests)
is_zero-pos (negsuc n) h = absurd (false≢true h)

acpi_verify_sdt-other :
    (fuel : ℕ) (m : Memory) (sdt sig : ℕ)
    → ¬ SameBytes m sdt sig 4
    → acpi_verify_sdt fuel m sdt sig ≡ returned false
unfolding acpi_verify_sdt
acpi_verify_sdt-other fuel m sdt sig differ =
    if-false (is_zero (memcmp m sdt sig 4)) _ _ (elim (Bool-cases (is_zero (memcmp m sdt sig 4))) [
      | inl same ↦
          absurd (differ ((memcmp-zero_iff 4 m sdt sig).0 (is_zero-pos (memcmp m sdt sig 4) same)))
      | inr other ↦ other
    ])

rsdp_sum-lem :
    (left i cs : ℕ) (m : Memory) (rsdp : ℕ)
    → cs < 256
    → rsdp_sum left m rsdp i cs ≡ (cs + sum_bytes m (rsdp + i) left) % 256
unfolding rsdp_sum sum_bytes
rsdp_sum-lem zero i cs m rsdp byte = omega arith
rsdp_sum-lem (suc left) i cs m rsdp byte =
    rsdp_sum-lem left (i + 1) (u8 (cs + m (rsdp + i))) m rsdp (omega arith)
    ∙ ap (λ a. (u8 (cs + m (rsdp + i)) + sum_bytes m a left) % 256)
        (let e : rsdp + (i + 1) ≡ rsdp + i + 1 = omega arith in e)
    ∙ omega arith

-- `has_xsdt` and the address of the root table, as a root pointer gives them.
abbrev pub wide_root : Memory → ℕ → Bool
wide_root m rsdp = if leb 2 (rsdp_rev m rsdp) then not (rsdp_xsdt_addr m rsdp == 0) else false

abbrev pub root_of : Memory → ℕ → ℕ
root_of m rsdp =
    phys_to_higher_half_data
      (if wide_root m rsdp then rsdp_xsdt_addr m rsdp else rsdp_rsdt_addr m rsdp)

abbrev pub root_signature : Memory → ℕ → Signatures → ℕ
root_signature m rsdp sigs = if wide_root m rsdp then sigs.xsdt else sigs.rsdt

acpi_root-finds :
    (fuel : ℕ) (m : Memory) (rsdp : ℕ) (sigs : Signatures)
    → 256 < fuel
    → sum_bytes m rsdp 20 % 256 ≡ 0
    → IsSdt m (root_of m rsdp) (root_signature m rsdp sigs)
    → acpi_root fuel m rsdp sigs.xsdt sigs.rsdt ≡ returned (wide_root m rsdp, root_of m rsdp)
unfolding acpi_root acpi_rsdp_init acpi_rsdp_validate
acpi_root-finds fuel m rsdp sigs enough sums root =
    let sum : rsdp_sum 20 m rsdp 0 0 ≡ 0 =
      rsdp_sum-lem 20 0 0 m rsdp (omega arith)
      ∙ ap (λ a. (0 + sum_bytes m a 20) % 256) (let e : rsdp + 0 ≡ rsdp = omega arith in e)
      ∙ omega (arith, sums) in
    rw
      (sum, acpi_verify_sdt-passes fuel m (root_of m rsdp) (root_signature m rsdp sigs) enough root)
      refl

-- The firmware's tables are in order: a list of tags, with the one for the root pointer, whose sum
-- is 0; a root table whose entry `k` is the first with the signature of the table of interrupt
-- controllers, and the entries `es` of that table, at most 32 of each type that is kept.
pub record IsFirmware (m : Memory) (stivale2_struct : ℕ) (sigs : Signatures) (tags : List ℕ) (k : ℕ)
    (es : List ℕ) : Type 0 where
  pub list : TagList m (struct_tags m stivale2_struct) tags
  pub rsdp : ℕ
  pub pointer : rsdp ≡ tag_rsdp m (first_tag m tag_rsdp_id tags)
  pub sums : sum_bytes m rsdp 20 % 256 ≡ 0
  pub root : IsSdt m (root_of m rsdp) (root_signature m rsdp sigs)
  pub within : k < entry_count m (root_of m rsdp) (wide_root m rsdp)
  pub others : (j : ℕ) → j < k → ¬ SameBytes m (entry_of m (root_of m rsdp) j) sigs.apic 4
  pub madt : IsSdt m (entry_of m (root_of m rsdp) k) sigs.apic
  pub entries :
      let table = phys_to_higher_half_data (entry_of m (root_of m rsdp) k) in
      Entries m (table + sdt_len m table) (madt_entries table) es
  pub fits : Fits (sorted m empty_madt es)

-- Where the boot loader's tags end, the 20 bytes of the root pointer that the tag names add up to 0
-- mod 256, the root table that it gives has the right signature, its entry k is the first whose
-- table has the signature of the table of interrupt controllers, both tables have at most 255 bytes
-- with sum 0 mod 256, and that table's entries, at most 32 of each type that is kept, reach its
-- end, acpi_init returns that table's address in the higher half and its entries sorted by type;
-- the root table is the wide one exactly if the pointer's revision is 2 or more and it has an
-- address for it. The fuel is more than 256, the tags and the entries.
pub acpi_init-finds :
    (fuel : ℕ) (m : Memory) (stivale2_struct : ℕ) (sigs : Signatures) (tags : List ℕ) (k : ℕ)
    (es : List ℕ) (f : IsFirmware m stivale2_struct sigs tags k es)
    → 256 < fuel
    → length tags < fuel
    → length es < fuel
    → acpi_init fuel m stivale2_struct sigs
      ≡ returned (record {
        has_xsdt = wide_root m f.rsdp;
        root = root_of m f.rsdp;
        madt = phys_to_higher_half_data (entry_of m (root_of m f.rsdp) k);
        entries = sorted m empty_madt es;
      })
unfolding acpi_init acpi_madt_init
acpi_init-finds fuel m s sigs tags k es f enough more_tags more_entries =
    let root = root_of m f.rsdp in
    rw
      (
        stivale2_get_tag-first m tag_rsdp_id fuel s tags f.list more_tags,
        ← f.pointer,
        acpi_root-finds fuel m f.rsdp sigs enough f.sums f.root,
        acpi_find_sdt-first fuel m root sigs.apic (wide_root m f.rsdp) k f.within
            (λ j less. acpi_verify_sdt-other fuel m (entry_of m root j) sigs.apic (f.others j less))
            (acpi_verify_sdt-passes fuel m (entry_of m root k) sigs.apic enough f.madt),
        madt_collect-sorted m (phys_to_higher_half_data (entry_of m root k)) fuel es f.entries
            more_entries f.fits,
      )
      refl
