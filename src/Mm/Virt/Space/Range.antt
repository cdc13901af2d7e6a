-- ===== src/Mm/Virt/Space/Range.antt =====
-- `vmm_map_range`: every page of the range, and no other.
use fusioncore.Base.{
  ℕ, zero, suc, ◌+◌, ◌-◌, ◌*◌, ◌/◌, ◌%◌, ◌^◌, ◌<◌, ◌≤◌, bit_or, ◌≡◌, refl, sym, subst, ap, ◌∙◌,
  Option, some, true, false, not, Bool, arith, ◌==◌, ltb, if◌then◌else◌, if-true, if-false, u64,
  ==_refl, ltb-false,
}
use mathlib.Core.Bool.{false≢true}
use fusioncore.Machine.{Machine, Run, done}
use fusioncore.Mm.Memmap.{page_size}
use fusioncore.Mm.Memmap.Align.{align_down_lem, align_up_lem}
use fusioncore.Mm.Phys.Free.{HasFree}
use fusioncore.Mm.Virt.{vmm_map_page, map_pages, vmm_map_range, rounds}
use fusioncore.Mm.Virt.Indices.{Leading}
use fusioncore.Mm.Virt.Walk.{translate}
use fusioncore.Mm.Virt.Space.{Tables, IsSpace}
use fusioncore.Mm.Virt.Space.Leaf.{page_number}
use fusioncore.Mm.Virt.Space.Map.{
  Updates, translate-table, vmm_map_page-Updates, vmm_map_page-there,
}
use fusioncore.Mm.Virt.Space.Need.{need, need_lem, lowest_tables}
use fusioncore.Mm.Virt.Space.Ranged.{distance, ranged, ranged-suc}

-- The run returns, the tables are a tree, and the processor's walk finds the range and, for every
-- other page, what it found before; `n` free pages are left.
pub record MapsRange (root : ℕ) (m : Machine) (virt phys flags left n : ℕ) (r : Run (Unit {0}))
    : Type 0 where
  pub tables : Tables
  pub after : Machine
  pub returns : r ≡ done tt after
  pub space : IsSpace tables root after
  pub translates :
      (other : ℕ)
      → translate after.mem root other ≡ ranged virt phys flags left (translate m.mem root) other
  pub free : HasFree n after.pmm

module _ (root flags offset : ℕ) (flags_small : flags < 512) (odd : Leading flags)
    (offset_aligned : offset % page_size ≡ 0) where
  map_pages-next :
      (left i virt next : ℕ) (m m1 : Machine)
      → u64 (i + offset) ≡ virt
      → u64 (i + page_size) ≡ next
      → vmm_map_page root i virt flags m ≡ done tt m1
      → map_pages (suc left) root i offset flags m ≡ map_pages left root next offset flags m1
  unfolding map_pages
  map_pages-next left i virt next m m1 at behind ran = rw (at, behind, ran) refl

  -- A page is mapped, with its lowest table there or with three pages for its tables.
  map_next :
      (ready : Bool) (rest i : ℕ) {tbl : Tables} (m : Machine)
      → IsSpace tbl root m
      → (ready ≡ true → (b : ℕ) × (tbl 1 (page_number (i + offset) / 512) ≡ some b))
      → i % page_size ≡ 0
      → i + offset < 2 ^ 64
      → i < 2 ^ 52
      → HasFree (if ready then rest else suc (suc (suc rest))) m.pmm
      → (had : ℕ) × HasFree had m.pmm
        × Updates root m
            (page_number (i + offset))
            (some (bit_or i flags))
            had
            rest
            (vmm_map_page root i (i + offset) flags m)
  map_next true rest i m s there aligned wide low free =
      let (b, here) = there refl in
      (
        rest,
        free,
        vmm_map_page-there m s (i + offset) rest wide i flags b aligned (omega arith) flags_small
            odd here,
      )
  map_next false rest i m s there aligned wide low free = (
    suc (suc (suc rest)),
    free,
    vmm_map_page-Updates m s (i + offset) rest wide i flags aligned (omega arith) flags_small odd
        free,
  )

  -- The next page's lowest table is there, if the next page does not start one.
  next_table :
      (i : ℕ) (before : Option ℕ) (tbl : Tables) (m : Machine)
      → IsSpace tbl root m
      → translate m.mem root (i + offset) ≡ (
          if page_number (i + offset) == page_number (i + offset)
          then some (bit_or i flags)
          else before)
      → not (suc ((i + offset) / page_size) % 512 == 0) ≡ true
      → (b : ℕ) × (tbl 1 (page_number (i + page_size + offset) / 512) ≡ some b)
  next_table i before tbl m s mapped within =
      let (b, here) =
        translate-table m s (i + offset) (bit_or i flags)
          (mapped ∙ if-true _ _ _ (==_refl (page_number (i + offset)))) in
      let same : page_number (i + page_size + offset) / 512 ≡ page_number (i + offset) / 512 =
        ground arith in
      (b, ap (tbl 1) same ∙ here)

  map_pages-MapsRange :
      (left i n : ℕ) (ready : Bool) {tbl : Tables} (m : Machine)
      → IsSpace tbl root m
      → (ready ≡ true → (b : ℕ) × (tbl 1 (page_number (i + offset) / 512) ≡ some b))
      → HasFree (need left ready ((i + offset) / page_size) n) m.pmm
      → left ≤ 2 ^ 36
      → i % page_size ≡ 0
      → i + left * page_size < 2 ^ 52
      → offset + i + left * page_size ≤ 2 ^ 64
      → MapsRange root m (i + offset) i flags left n (map_pages left root i offset flags m)
  unfolding map_pages
  map_pages-MapsRange zero i n ready {tbl} m s there free fits aligned low wide = record {
    tables = tbl;
    after = m;
    returns = refl;
    space = s;
    translates =
        λ other. sym (if-false _ _ _ (ltb-false (distance (i + offset) other) 0 (omega arith)));
    free = free;
  }
  map_pages-MapsRange (suc left) i n ready m s there free fits aligned low wide =
      let same : u64 (i + offset) ≡ i + offset = omega arith in
      let next : u64 (i + page_size) ≡ i + page_size = omega arith in
      let v = (i + offset) / page_size in
      let within = not (suc v % 512 == 0) in
      let (had, has, u) =
        map_next ready (need left within (suc v) n) i m s there aligned (omega arith) (omega arith)
          free in
      let rest =
        map_pages-MapsRange left (i + page_size) n within u.after u.space
          (λ yes_within.
            next_table i (translate m.mem root (i + offset)) u.tables u.after u.space
              (u.translates (i + offset)) yes_within)
          (subst (λ w. HasFree (need left within w n) u.after.pmm) (omega arith) (u.free has))
          (omega arith) (omega arith) (omega arith) (omega arith) in
      record {
        tables = rest.tables;
        after = rest.after;
        returns =
            map_pages-next left i (i + offset) (i + page_size) m u.after same next u.returns
            ∙ rest.returns;
        space = rest.space;
        translates = λ other.
            rest.translates other
            ∙ ap
                (λ o.
                  if ltb (distance (i + page_size + offset) other) left
                  then some (
                      bit_or (i + page_size + distance (i + page_size + offset) other * page_size)
                        flags)
                  else o)
                (u.translates other)
            ∙ ranged-suc (i + offset) (i + page_size + offset) i flags left other
                (translate m.mem root other) (omega arith) (omega arith);
        free = rest.free;
      }

  -- Where the tables are a tree of pages in use and three pages are free for each table of 512
  -- pages that the image of the range touches, the range is not empty and ends at or below 2^48,
  -- its image, rounded up to pages, ends at or below 2^64, the offset is page-aligned and the flags
  -- are below 512 with the present bit and without bit 7, mapping the range returns, the tables are
  -- a tree again, and the processor's walk, for which an upper entry with bit 7 leads to no table,
  -- ends for each page of the range at an entry with its own physical page and the flags, and for
  -- every other address where it ended before. The rights of the upper entries are not part of what
  -- the walk finds.
  pub vmm_map_range-MapsRange :
      (start end n : ℕ) {tbl : Tables} (m : Machine)
      → IsSpace tbl root m
      → HasFree
          (3
              * lowest_tables
                  ((start / page_size * page_size + offset) / page_size)
                  (rounds start end)
            + n)
          m.pmm
      → start < end
      → end ≤ 2 ^ 48
      → offset + (end + 4095) / page_size * page_size ≤ 2 ^ 64
      → MapsRange root m
          (start / page_size * page_size + offset)
          (start / page_size * page_size)
          flags
          (rounds start end)
          n
          (vmm_map_range root start end offset flags m)
  unfolding vmm_map_range
  vmm_map_range-MapsRange start end n m s free ordered low wide =
      let v = (start / page_size * page_size + offset) / page_size in
      subst
        (λ a.
          MapsRange root m (start / page_size * page_size + offset) (start / page_size * page_size)
            flags (rounds start end) n (map_pages (rounds start end) root a offset flags m))
        (sym (align_down_lem start (omega arith)))
        (map_pages-MapsRange (rounds start end) (start / page_size * page_size) n false m s
          (λ e. absurd (false≢true e))
          (subst (λ k. HasFree k m.pmm)
            (sym (need_lem (rounds start end) v n (omega (arith, count)))) free)
          (omega (arith, count)) (omega arith) (omega (arith, count)) (omega (arith, count)))
    where
      count : rounds start end ≡ (end + 4095) / page_size - start / page_size
      count = omega (arith, align_down_lem start (omega arith), align_up_lem end (omega arith))
