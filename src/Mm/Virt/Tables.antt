-- ===== src/Mm/Virt/Tables.antt =====
-- How a missing table is made.
use fusioncore.Base.{
  ℕ, ◌*◌, ◌^◌, ◌%◌, ◌/◌, ◌<◌, bit_or, ◌≡◌, refl, ap, ◌∙◌, Bool, true, false, not, some, arith, ◌==◌,
  if◌then◌else◌,
}
use fusioncore.Base.Bits.{bit_or_fields}
use fusioncore.Libk.Text.Laws.{in_block}
use fusioncore.Machine.{Machine, done, read64, write64}
use fusioncore.Machine.Bytes.{Memory}
use fusioncore.Machine.Laws.{word, put, word-put_self}
use fusioncore.Mm.Memmap.{page_size}
use fusioncore.Mm.Phys.{Pmm, pmm_alloc}
use fusioncore.Mm.Zeroed.{pmm_allocz}
use fusioncore.Mm.Zeroed.Cleared.{pmm_allocz-clears}
use fusioncore.Mm.Virt.{entry_at, table_of, vmm_get_or_create_pml}
use fusioncore.Mm.Virt.Indices.{table_of_lem, present_bit, size_bit, Leading}
use fusioncore.Mm.Virt.Walk.{is_present, is_table, get_present}

-- The word of an entry fits 64 bits.
pub entry_fits :
    (page flags : ℕ)
    → page % page_size ≡ 0
    → page < 2 ^ 64
    → flags < 512
    → bit_or page flags < 2 ^ 64
entry_fits page flags aligned fits small = omega (
  arith,
  bit_or_fields 9 (page / 512) flags small,
  ap (λ (t : ℕ). bit_or t flags) (as_field page aligned),
)
  where
    as_field : (page : ℕ) → page % page_size ≡ 0 → page ≡ page / 512 * 2 ^ 9
    as_field page aligned = omega arith

-- With such flags the entry of a page leads to a table.
pub leads-is_table :
    (page flags : ℕ)
    → page % page_size ≡ 0
    → flags < 512
    → Leading flags
    → is_table (bit_or page flags) ≡ true
leads-is_table page flags aligned small (present, table) =
    rw (present_bit page flags aligned small, size_bit page flags aligned small, present)
      (clear (flags / 128 % 2) (omega arith))
  where
    clear : (b : ℕ) → b ≡ 0 → (b * 128 == 0) ≡ true
    clear b zero = ground arith

create_missing :
    (pml i flags : ℕ) (m : Machine) (page : ℕ) (p' : Pmm) (cleared : Memory)
    → is_present (word m.mem (entry_at pml i)) ≡ false
    → pmm_allocz 1 m ≡ done page (record { mem = cleared; pmm = p' })
    → vmm_get_or_create_pml pml i flags m
      ≡ done
          (table_of (word (put cleared (entry_at pml i) (bit_or page flags)) (entry_at pml i)))
          (record { mem = put cleared (entry_at pml i) (bit_or page flags); pmm = p' })
unfolding vmm_get_or_create_pml read64 write64
create_missing pml i flags m page p' cleared missing got = rw (negated_is_true _ missing, got) refl
  where
    negated_is_true : (b : Bool) → not b ≡ false → b ≡ true
    negated_is_true true h = refl
    negated_is_true false h = cc h

-- Where an entry is not present and a page-aligned page below 2^64 can be had, and the flags are
-- below 512 with the present bit, that page is cleared, entered with the flags and returned as the
-- table; asked again, the call finds the same table and changes nothing.
pub vmm_get_or_create_pml-creates :
    (pml i flags : ℕ) (m : Machine) (page : ℕ) (p' : Pmm)
    → is_present (word m.mem (entry_at pml i)) ≡ false
    → pmm_alloc 1 m.pmm ≡ some (page, p')
    → page % page_size ≡ 0
    → page < 2 ^ 64
    → flags < 512
    → flags % 2 ≡ 1
    → (cleared : Memory) × (m' : Machine) × (m'
        ≡ record { mem = put cleared (entry_at pml i) (bit_or page flags); pmm = p' })
      × ((x : ℕ) → cleared x ≡ (if in_block page page_size x then 0 else m.mem x))
      × (vmm_get_or_create_pml pml i flags m ≡ done page m')
      × (vmm_get_or_create_pml pml i flags m' ≡ done page m')
vmm_get_or_create_pml-creates pml i flags m page p' missing got aligned fits small present =
    let (cleared, allocated, clears) = pmm_allocz-clears 1 m page p' got in
    let entry = entry_at pml i in
    let v = bit_or page flags in
    let m' : Machine = record { mem = put cleared entry v; pmm = p' } in
    let read_back = word-put_self cleared entry v (entry_fits page flags aligned fits small) in
    let table = ap table_of read_back ∙ table_of_lem page flags aligned fits small in
    (
      cleared,
      m',
      refl,
      clears,
      create_missing pml i flags m page p' cleared missing allocated ∙ ap (λ t. done t m') table,
      get_present pml i flags m' (
            ap is_present read_back
            ∙ ap (λ t. not (t == 0)) (present_bit page flags aligned small ∙ present))
          ∙ ap (λ t. done t m') table,
    )
