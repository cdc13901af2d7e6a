-- ===== src/Mm/Memmap.antt =====
-- The memory map of the boot loader (stivale2_mmap_entry), and the macros of fckrnl/mm/mm.h.
pub mod Align
use Prim.Native.String.{String}
use fusioncore.Base.{if◌then◌else◌, ℕ, ◌+◌, ◌-◌, ◌*◌, ◌/◌, ◌^◌, bit_and, Bool, ◌||◌, ◌==◌, u64}

-- `PAGE_SIZE`
abbrev pub page_size : ℕ
page_size = 4096

-- `HIGHER_HALF_DATA`, `HIGHER_HALF_CODE`, `GiB`, `HEAP_MAX_SIZE` and `HEAP_START_ADDR`
abbrev pub higher_half_data : ℕ
higher_half_data = 0xffff_8000_0000_0000

abbrev pub higher_half_code : ℕ
higher_half_code = 0xffff_ffff_8000_0000

abbrev pub gib : ℕ
gib = 0x4000_0000

abbrev pub heap_max_size : ℕ
heap_max_size = 4 * gib

abbrev pub heap_start_addr : ℕ
heap_start_addr = 0xffff_9000_0000_0000

-- `KB_TO_PAGES`
abbrev pub kb_to_pages : ℕ → ℕ
kb_to_pages kb = u64 (kb * 1024) / page_size

-- `ALIGN_UP` and `ALIGN_DOWN`: on 64 bits `~(align - 1)` is `2^64 - align`.
abbrev pub align_up : ℕ → ℕ → ℕ
align_up addr align = bit_and (u64 (addr + align - 1)) (2 ^ 64 - align)

abbrev pub align_down : ℕ → ℕ → ℕ
align_down addr align = bit_and (u64 addr) (2 ^ 64 - align)

-- `BIT_TO_PAGE` and `PAGE_TO_BIT`
abbrev pub bit_to_page : ℕ → ℕ
bit_to_page bit = u64 (bit * page_size)

abbrev pub page_to_bit : ℕ → ℕ
page_to_bit page = page / page_size

-- `PHYS_TO_HIGHER_HALF_DATA`
abbrev pub phys_to_higher_half_data : ℕ → ℕ
phys_to_higher_half_data addr = u64 (addr + higher_half_data)

-- The types that the kernel's own code tests for.
abbrev pub mmap_usable : ℕ
mmap_usable = 1

abbrev pub mmap_bootloader_reclaimable : ℕ
mmap_bootloader_reclaimable = 0x1000

abbrev pub mmap_kernel_and_modules : ℕ
mmap_kernel_and_modules = 0x1001

-- `struct stivale2_mmap_entry`
pub record MmapEntry : Type 0 where
  pub base : ℕ
  pub length : ℕ
  pub kind : ℕ

abbrev pub is_usable : MmapEntry → Bool
is_usable e = e.kind == mmap_usable

-- The entries that count towards the top of memory.
abbrev pub is_ram : MmapEntry → Bool
is_ram e =
    e.kind == mmap_usable
    || e.kind == mmap_bootloader_reclaimable
    || e.kind == mmap_kernel_and_modules

-- `_get_mmap_ent_str`: the name of an entry's type.
unfoldable pub get_mmap_ent_str : ℕ → String
get_mmap_ent_str kind =
    if kind == mmap_usable
    then "Usable"
    else (if kind == 2
        then "Reserved"
        else (if kind == 3
            then "ACPI Reclaimable"
            else (if kind == 4
                then "ACPI Non Volatile Storage"
                else (if kind == 5
                    then "Bad Memory"
                    else (if kind == mmap_bootloader_reclaimable
                        then "Bootloader Reclaimable"
                        else (if kind == mmap_kernel_and_modules
                            then "Kernel And Modules"
                            else (if kind == 0x1002 then "Framebuffer" else "Unknown")))))))
