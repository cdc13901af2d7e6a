-- ===== src/Mm/Virt/Space/Map.antt =====
-- Mapping and unmapping a page as the update of one page of an address space.
use fusioncore.Base.{
  ℕ, suc, ◌/◌, ◌%◌, ◌^◌, ◌<◌, bit_or, ◌≡◌, refl, sym, subst, ap, ◌∙◌, not, Option, none, some,
  arith, ◌==◌, if◌then◌else◌, if-true,
}
use mathlib.Core.Option.{none-ne-some}
use fusioncore.Machine.{Machine, Run, done}
use fusioncore.Machine.Bytes.{Memory}
use fusioncore.Mm.Memmap.{page_size, align_down}
use fusioncore.Mm.Memmap.Align.{align_down_lem}
use fusioncore.Mm.Phys.Free.{HasFree}
use fusioncore.Mm.Virt.{vmm_set_pt_value, vmm_map_page, vmm_unmap_page}
use fusioncore.Mm.Virt.Indices.{present_bit, Leading}
use fusioncore.Mm.Virt.Tables.{entry_fits}
use fusioncore.Mm.Virt.Walk.{translate}
use fusioncore.Mm.Virt.Space.{Tables, IsSpace, leaf_of, lookup, present_word}
use fusioncore.Mm.Virt.Space.Leaf.{page_number, HasValue, vmm_set_pt_value-HasValue}
use fusioncore.Mm.Virt.Space.Translate.{translate-lookup, vmm_set_pt_value-there}

-- After the run the tables are a tree again, and the processor's walk finds `entry` for the page
-- with number `v` and for every other page what it found before.
pub record Updates (root : ℕ) (m : Machine) (v : ℕ) (entry : Option ℕ) (had n : ℕ)
    (r : Run (Unit {0})) : Type 0 where
  pub tables : Tables
  pub after : Machine
  pub returns : r ≡ done tt after
  pub space : IsSpace tables root after
  pub translates :
      (other : ℕ)
      → translate after.mem root other
        ≡ (if page_number other == v then entry else translate m.mem root other)
  pub free : HasFree had m.pmm → HasFree n after.pmm

HasValue-Updates :
    {tbl : Tables} {root : ℕ} (m : Machine) (s : IsSpace tbl root m) {v value had n : ℕ}
    (entry : Option ℕ) {r : Run (Unit {0})}
    → present_word value ≡ entry
    → HasValue tbl root m v value had n r
    → Updates root m v entry had n r
HasValue-Updates {tbl} {root} m s {v} entry is_entry h = record {
  tables = h.new;
  after = h.after;
  returns = h.returns;
  space = h.space;
  translates = λ other.
      translate-lookup h.after h.space other
      ∙ h.mapped (page_number other)
      ∙ ap (λ o. if page_number other == v then o else lookup tbl m.mem (page_number other))
          is_entry
      ∙ ap (λ o. if page_number other == v then entry else o) (sym (translate-lookup m s other));
  free = h.free;
}

-- The page number of an address is that of its page.
page_number-align_down :
    (virt : ℕ) → virt < 2 ^ 64 → page_number (align_down virt page_size) ≡ page_number virt
page_number-align_down virt wide = omega (arith, align_down_lem virt wide)

is_entry :
    (phys flags : ℕ)
    → phys % page_size ≡ 0
    → flags < 512
    → Leading flags
    → present_word (bit_or phys flags) ≡ some (bit_or phys flags)
is_entry phys flags aligned flags_small odd =
    if-true _ _ _ (ap (λ t. not (t == 0)) (present_bit phys flags aligned flags_small ∙ odd.0))

leaf_of-table :
    (mem : Memory) (o : Option ℕ) (v entry : ℕ)
    → leaf_of mem o v ≡ some entry
    → (b : ℕ) × (o ≡ some b)
leaf_of-table mem none v entry h = absurd (none-ne-some entry h)
leaf_of-table mem (some b) v entry h = (b, refl)

-- A page that the walk finds has its lowest table.
pub translate-table :
    {tbl : Tables} {root : ℕ} (m : Machine)
    → IsSpace tbl root m
    → (virt entry : ℕ) → translate m.mem root virt ≡ some entry
    → (b : ℕ) × (tbl 1 (page_number virt / 512) ≡ some b)
translate-table {tbl} m s virt entry mapped =
    leaf_of-table m.mem (tbl 1 (page_number virt / 512)) (page_number virt) entry
      (sym (translate-lookup m s virt) ∙ mapped)

module _ {tbl : Tables} {root : ℕ} (m : Machine) (s : IsSpace tbl root m) (virt n : ℕ)
    (wide : virt < 2 ^ 64) where
  -- Where the tables are a tree of pages in use, three pages are free, the virtual address has 64
  -- bits, the physical page is page-aligned and below 2^52 and the flags are below 512 with the
  -- present bit and without bit 7, mapping a page returns, the tables it makes included; then they
  -- are such a tree again, and the processor's walk, for which an upper entry with bit 7 leads to
  -- no table, ends for that page at an entry with the physical page and the flags, and for every
  -- other address where it ended before. The rights of the upper entries are not part of what the
  -- walk finds.
  pub vmm_map_page-Updates :
      (phys flags : ℕ)
      → phys % page_size ≡ 0
      → phys < 2 ^ 52
      → flags < 512
      → Leading flags
      → HasFree (suc (suc (suc n))) m.pmm
      → Updates root m
          (page_number virt)
          (some (bit_or phys flags))
          (suc (suc (suc n)))
          n
          (vmm_map_page root phys virt flags m)
  unfolding vmm_map_page
  vmm_map_page-Updates phys flags aligned small flags_small odd free =
      HasValue-Updates m s (some (bit_or phys flags)) (is_entry phys flags aligned flags_small odd)
        (subst
          (λ v.
            HasValue tbl root m v (bit_or phys flags) (suc (suc (suc n))) n
              (vmm_set_pt_value root (align_down virt page_size) flags (bit_or phys flags) m))
          (page_number-align_down virt wide)
          (vmm_set_pt_value-HasValue m s (align_down virt page_size) flags (bit_or phys flags) n
            (entry_fits phys flags aligned (omega arith) flags_small) free flags_small odd))

  -- Where the tables are a tree of pages in use and the processor's walk finds a page for an
  -- address of 64 bits, unmapping that page returns, the tables are a tree again, and the walk
  -- finds nothing for that page and for every other address what it found before.
  pub vmm_unmap_page-Updates :
      (entry : ℕ)
      → translate m.mem root virt ≡ some entry
      → Updates root m (page_number virt) none n n (vmm_unmap_page root virt m)
  unfolding vmm_unmap_page
  vmm_unmap_page-Updates entry mapped =
      let (b, there) = translate-table m s virt entry mapped in
      HasValue-Updates m s none refl (
        subst
          (λ v.
            HasValue tbl root m v 0 n n (vmm_set_pt_value root (align_down virt page_size) 0 0 m))
          (page_number-align_down virt wide)
          (vmm_set_pt_value-there m s (align_down virt page_size) 0 0 n b (omega arith)
            (ap (λ v. tbl 1 (v / 512)) (page_number-align_down virt wide) ∙ there)))

  -- Where the lowest table is there, no page is taken.
  pub vmm_map_page-there :
      (phys flags b : ℕ)
      → phys % page_size ≡ 0
      → phys < 2 ^ 52
      → flags < 512
      → Leading flags
      → tbl 1 (page_number virt / 512) ≡ some b
      → Updates root m
          (page_number virt)
          (some (bit_or phys flags))
          n
          n
          (vmm_map_page root phys virt flags m)
  unfolding vmm_map_page
  vmm_map_page-there phys flags b aligned small flags_small odd there =
      HasValue-Updates m s (some (bit_or phys flags)) (is_entry phys flags aligned flags_small odd)
        (subst
          (λ v.
            HasValue tbl root m v (bit_or phys flags) n n
              (vmm_set_pt_value root (align_down virt page_size) flags (bit_or phys flags) m))
          (page_number-align_down virt wide)
          (vmm_set_pt_value-there m s (align_down virt page_size) flags (bit_or phys flags) n b
            (entry_fits phys flags aligned (omega arith) flags_small)
            (ap (λ v. tbl 1 (v / 512)) (page_number-align_down virt wide) ∙ there)))
