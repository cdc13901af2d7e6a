-- ===== src/Mm/Virt.antt =====
-- fckrnl/mm/virt.c and virt.h: page tables of four levels. Invalidating the translation buffer
-- and loading the table's address into the processor change no memory.
pub mod Indices
pub mod Walk
pub mod Tables
pub mod Space
use fusioncore.Base.{
  ℕ, zero, suc, ◌+◌, ◌-◌, ◌*◌, ◌/◌, ◌^◌, bit_and, bit_or, Bool, not, List, [], ◌∷◌, leb, ◌==◌,
  if◌then◌else◌, u64, sub64,
}
use fusioncore.Machine.{Cmd, pure, panic, ◌>>=◌, ◌>>◌, read64, write64}
use fusioncore.Mm.Memmap.{
  page_size, align_up, align_down, higher_half_data, higher_half_code, gib, heap_max_size,
  heap_start_addr, phys_to_higher_half_data, MmapEntry,
}
use fusioncore.Mm.Zeroed.{pmm_allocz}

-- `KERNEL_READ` and `KERNEL_READ_WRITE`
abbrev pub kernel_read : ℕ
kernel_read = 1

abbrev pub kernel_read_write : ℕ
kernel_read_write = 3

-- The physical address behind a pointer: the higher half maps the lower one.
abbrev pub phys_of : ℕ → ℕ
phys_of a = if leb higher_half_data a then a - higher_half_data else a

-- The address of entry `index` of a table.
abbrev pub entry_at : ℕ → ℕ → ℕ
entry_at table index = phys_of (u64 (table + 8 * index))

-- The nine bits of an address from bit `shift` on.
abbrev pub index_at : ℕ → ℕ → ℕ
index_at shift virt_page = bit_and virt_page (0x1ff * 2 ^ shift) / 2 ^ shift

-- `& ~(511)` on 64 bits.
abbrev pub table_of : ℕ → ℕ
table_of entry = bit_and entry (2 ^ 64 - 512)

unfoldable pub vmm_get_or_create_pml : ℕ → ℕ → ℕ → Cmd ℕ
vmm_get_or_create_pml pml pml_index flags = do
  entry ← read64 (entry_at pml pml_index)
  (if bit_and entry 1 == 0
      then (do page ← pmm_allocz 1; write64 (entry_at pml pml_index) (bit_or page flags))
      else pure tt)
  entry' ← read64 (entry_at pml pml_index)
  pure (table_of entry')

unfoldable pub vmm_set_pt_value : ℕ → ℕ → ℕ → ℕ → Cmd (Unit {0})
unfolding vmm_get_or_create_pml
vmm_set_pt_value page_tbl virt_page flags value = do
  pdpt ← vmm_get_or_create_pml page_tbl (index_at 39 virt_page) flags
  pd ← vmm_get_or_create_pml pdpt (index_at 30 virt_page) flags
  pt ← vmm_get_or_create_pml pd (index_at 21 virt_page) flags
  write64 (entry_at pt (index_at 12 virt_page)) value

unfoldable pub vmm_map_page : ℕ → ℕ → ℕ → ℕ → Cmd (Unit {0})
unfolding vmm_set_pt_value
vmm_map_page page_tbl phys_page virt_page flags =
    vmm_set_pt_value page_tbl (align_down virt_page page_size) flags (bit_or phys_page flags)

unfoldable pub vmm_unmap_page : ℕ → ℕ → Cmd (Unit {0})
unfolding vmm_set_pt_value
vmm_unmap_page page_tbl virt_page = vmm_set_pt_value page_tbl (align_down virt_page page_size) 0 0

-- The rounds of `for (i = ALIGN_DOWN(start); i < ALIGN_UP(end); i += PAGE_SIZE)`. Both ends are
-- multiples of the page size.
abbrev pub rounds : ℕ → ℕ → ℕ
rounds start end = (align_up end page_size - align_down start page_size) / page_size

unfoldable pub map_pages : ℕ → ℕ → ℕ → ℕ → ℕ → Cmd (Unit {0})
unfolding vmm_map_page
map_pages zero page_tbl i offset flags = pure tt
map_pages (suc left) page_tbl i offset flags = do
  vmm_map_page page_tbl i (u64 (i + offset)) flags
  map_pages left page_tbl (u64 (i + page_size)) offset flags

unfoldable pub vmm_map_range : ℕ → ℕ → ℕ → ℕ → ℕ → Cmd (Unit {0})
unfolding map_pages
vmm_map_range page_tbl start end offset flags =
    map_pages (rounds start end) page_tbl (align_down start page_size) offset flags

unfoldable pub unmap_pages : ℕ → ℕ → ℕ → Cmd (Unit {0})
unfolding vmm_unmap_page
unmap_pages zero page_tbl i = pure tt
unmap_pages (suc left) page_tbl i = do
  vmm_unmap_page page_tbl i
  unmap_pages left page_tbl (u64 (i + page_size))

unfoldable pub vmm_unmap_range : ℕ → ℕ → ℕ → Cmd (Unit {0})
unfolding unmap_pages
vmm_unmap_range page_tbl start end =
    unmap_pages (rounds start end) page_tbl (align_down start page_size)

-- The loop of `vmm_init` over the memory map. Every entry is mapped from address 0 on.
unfoldable pub map_entries : ℕ → List MmapEntry → Cmd (Unit {0})
map_entries root [] = pure tt
map_entries root (e ∷ es) = do
  vmm_map_range root 0 e.length higher_half_data kernel_read_write
  map_entries root es

-- `vmm_init`: the result is `root_page_tbl`, and what is loaded into `cr3`.
unfoldable pub vmm_init : List MmapEntry → Cmd (ℕ × ℕ)
unfolding map_entries
vmm_init entries = do
  page ← pmm_allocz 1
  let root = phys_to_higher_half_data page
  if root == 0 then panic else (do
    vmm_map_range root 0 (4 * gib) 0 kernel_read_write
    vmm_map_range root 0 (4 * gib) higher_half_data kernel_read_write
    vmm_map_range root 0 heap_max_size heap_start_addr kernel_read_write
    vmm_map_range root 0 (2 * gib) higher_half_code kernel_read
    map_entries root entries
    pure (root, sub64 root higher_half_data))
