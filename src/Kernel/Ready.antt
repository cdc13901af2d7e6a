-- ===== src/Kernel/Ready.antt =====
-- fckrnl/kernel.c: what `kinit` has made when the heap is there.
use fusioncore.Base.{ℕ, ◌+◌, ◌*◌, ◌/◌, ◌%◌, ◌^◌, ◌≤◌, ◌<◌, ◌≡◌, some, List, get_or, true}
use fusioncore.Machine.{Machine}
use fusioncore.Cpu.Idt.{IdtDesc}
use fusioncore.Cpu.Idt.Gates.{gate}
use fusioncore.Mm.Memmap.{MmapEntry, page_size, gib, kb_to_pages, phys_to_higher_half_data}
use fusioncore.Mm.Phys.{page_top, bitmap_size, carve}
use fusioncore.Mm.Phys.Init.{any_usable, AllMapped}
use fusioncore.Mm.Phys.Count.{counted}
use fusioncore.Mm.Phys.Free.{HasFree}
use fusioncore.Mm.Virt.Walk.{translate}
use fusioncore.Mm.Virt.Space.{Tables, IsSpace}
use fusioncore.Mm.Virt.Space.Boot.{Fitting, boot_pages, entry_windows, fixed_windows, seen}
use fusioncore.Libk.Malloc.Heap.{IsHeap, heap_pages}
use fusioncore.Kernel.{Image, Kernel}

-- The parts are there side by side: the processor's tables show the windows of the memory map, the
-- heap's caches are at home, each interrupt has its gate, and `n` free pages are left.
pub record IsReady (image : Image) (rest : List MmapEntry) (n : ℕ) (k : Kernel) (m : Machine)
    : Type 0 where
  pub tables : Tables
  pub space : IsSpace tables k.root_page_tbl m
  pub loaded : k.root_page_tbl ≡ phys_to_higher_half_data k.cr3
  pub walk :
      (other : ℕ)
      → translate m.mem k.root_page_tbl other ≡ seen (entry_windows rest fixed_windows) other
  pub heap : IsHeap k.slab_caches m
  pub gates : (d : IdtDesc) (j : ℕ) → j < 256 → get_or k.interrupts.0 j d ≡ gate image.isr_vector j
  pub free : HasFree n m.pmm

-- The pages that `kinit` can take, with `n` more.
abbrev pub kernel_pages : List MmapEntry → ℕ → ℕ
kernel_pages rest n = boot_pages rest (heap_pages n)

-- A memory map that has room for the kernel: for the map of its pages, for `n` pages and those that
-- `kinit` can take, which are usable and follow one another from page `first` on.
pub record HasRoom (entries rest : List MmapEntry) (n : ℕ) : Type 0 where
  pub base : ℕ
  pub pos : 0 < page_top entries 0 / page_size
  pub low : page_top entries 0 ≤ 4 * gib
  pub whole : page_top entries 0 / page_size % 8 ≡ 0
  pub carved : carve (bitmap_size (page_top entries 0)) entries ≡ some (base, rest)
  pub mapped : AllMapped (bitmap_size (page_top entries 0)) rest
  pub windows : Fitting rest
  pub first : ℕ
  pub not_null : 0 < first
  pub below_top : first + kernel_pages rest n ≤ page_top entries 0 / page_size
  pub usable : (j : ℕ) → first ≤ j → j < first + kernel_pages rest n → any_usable rest j ≡ true
  pub count : 0 < counted rest (kb_to_pages (page_top entries 0))
  pub count_fits : counted rest (kb_to_pages (page_top entries 0)) + kernel_pages rest n < 2 ^ 64
