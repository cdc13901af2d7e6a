-- ===== src/Examples/Kernel.antt =====
-- The kernel's parts on a machine of 128 MiB.
use fusioncore.Base.{
  ℕ, zero, suc, ◌+◌, ◌*◌, ◌/◌, ◌≡◌, ◌<◌, ◌≤◌, refl, false, List, [], ◌∷◌, replicate,
  length-replicate, get_or, arith, ap, ◌∙◌, ◌^◌, ◌%◌, ◌==◌,
}
use native.Mathlib.Nat.{zero-div}
use fusioncore.Machine.{Machine, done}
use fusioncore.Mm.Bitmap.{is_set}
use fusioncore.Mm.Memmap.{MmapEntry, phys_to_higher_half_data}
use fusioncore.Mm.Phys.{Pmm}
use fusioncore.Mm.Phys.Search.{IsPmm}
use fusioncore.Mm.Phys.Free.{HasFree, stretch-HasFree}
use fusioncore.Mm.Phys.Roundtrip.{Roomy}
use fusioncore.Libk.Malloc.{malloc_heap_init}
use fusioncore.Libk.Malloc.Heap.{MakesHeap, heap_pages, malloc_heap_init-MakesHeap}
use fusioncore.Libk.Malloc.First.{FirstBlock, free-malloc_fresh}
use fusioncore.Cpu.Idt.{idt_descriptor}
use fusioncore.Kernel.{Image, Kernel}
use fusioncore.Mm.Virt.{vmm_init}
use fusioncore.Mm.Virt.Space.Boot.{Shows, boot_pages, entry_windows, fixed_windows, vmm_init-Shows}

-- Only page 0 is in use; `n` bytes of the map follow the first.
abbrev zeros : ℕ → List ℕ
zeros n = replicate n 0

abbrev first_used : ℕ → List ℕ
first_used n = 1 ∷ zeros n

abbrev pages : ℕ → Pmm
pages n = record {
  bitmap = record { map = first_used n; size = suc n };
  hi_page_top = 0x800_0000;
  used_page_cnt = 1;
}

zero_byte : (n j : ℕ) → get_or (zeros n) j 0 ≡ 0
zero_byte zero j = refl
zero_byte (suc n) zero = refl
zero_byte (suc n) (suc j) = zero_byte n j

bytes_small : (n j : ℕ) → get_or (first_used n) j 0 < 256
bytes_small n zero = omega arith
bytes_small n (suc j) = omega (arith, zero_byte n j)

clear_byte : (n k : ℕ) → 1 ≤ k → get_or (first_used n) k 0 ≡ 0
clear_byte n zero pos = elim pos [ ]
clear_byte n (suc k) pos = zero_byte n k

pages-IsPmm : (n : ℕ) → 4095 ≤ n → IsPmm (pages n)
pages-IsPmm n wide = record {
  valid = record { bytes = bytes_small n };
  covers = omega (arith, length-replicate {A = ℕ} n 0);
  fits_int = omega arith;
  null_used = refl;
}

-- No bit behind the first byte is set.
pages_clear : (n j : ℕ) → 8 ≤ j → is_set (pages n).bitmap j ≡ false
pages_clear n j low =
    ap (λ b. b / 2 ^ (j % 8) % 2 == 1) (clear_byte n (j / 8) (omega arith))
    ∙ ap (λ (b : ℕ). b % 2 == 1) (zero-div (2 ^ (j % 8)))

pages-HasFree : (n k : ℕ) → k ≤ 32760 → HasFree k (pages n)
pages-HasFree n k fits =
    stretch-HasFree (pages n) 8 k (λ j low high. pages_clear n j low) (omega arith) (omega arith)
      (omega arith)

abbrev memory_map : List MmapEntry
memory_map = record { base = 0; length = 0x800_0000; kind = 1 } ∷ []

abbrev machine : Machine
machine = record { mem = λ _. 0; pmm = pages 4095 }

vmm_init-Shows_example :
    (page : ℕ) × (m' : Machine) × (vmm_init memory_map machine
      ≡ done (phys_to_higher_half_data page, page) m')
    × Shows (phys_to_higher_half_data page) (entry_windows memory_map fixed_windows) 0 m'
vmm_init-Shows_example =
    vmm_init-Shows memory_map 0 machine (pages-IsPmm 4095 (omega arith))
      (pages-HasFree 4095 (boot_pages memory_map 0) (omega arith)) ((omega arith, omega arith), tt)

malloc_heap_init-MakesHeap_example :
    (caches : List ℕ) × (m' : Machine) × (malloc_heap_init (λ i. i) machine ≡ done caches m')
    × MakesHeap 100 machine caches m'
malloc_heap_init-MakesHeap_example =
    malloc_heap_init-MakesHeap (λ i. i) 100 machine (pages-IsPmm 4095 (omega arith))
      (pages-HasFree 4095 (heap_pages 100) (omega arith))

-- A heap where the map has some bytes more.
abbrev roomy : Machine
roomy = record { mem = λ _. 0; pmm = pages 4096 }

roomy_heap :
    (caches : List ℕ) × (m' : Machine) × (malloc_heap_init (λ i. i) roomy ≡ done caches m')
    × MakesHeap 0 roomy caches m'
roomy_heap =
    malloc_heap_init-MakesHeap (λ i. i) 0 roomy (pages-IsPmm 4096 (omega arith))
      (pages-HasFree 4096 (heap_pages 0) (omega arith))

abbrev caches : List ℕ
caches = roomy_heap.0

abbrev with_heap : Machine
with_heap = roomy_heap.1

with_heap-room : Roomy 7 with_heap.pmm
with_heap-room =
    let k = roomy_heap.3.keeps in
    let bytes = length-replicate {A = ℕ} 4096 0 in
    let top = k.same_top in let map = k.same_length in (omega arith, omega arith)

free-malloc_fresh_example : FirstBlock 1 1 100 caches with_heap
free-malloc_fresh_example =
    free-malloc_fresh 0 1 100 caches with_heap roomy_heap.3.keeps.valid with_heap-room
      roomy_heap.3.heap (omega arith)

abbrev image : Image
image = record {
  stack = 0xffff_ffff_8001_0000;
  gdt_addr = 0xffff_ffff_8002_0000;
  idt_addr = 0xffff_ffff_8003_0000;
  isr_vector = λ i. 0xffff_ffff_8004_0000 + 16 * i;
  cache_names = λ i. 0xffff_ffff_8005_0000 + 16 * i;
  idt = replicate 256 (idt_descriptor 0 0);
}

-- The map without the pages of the allocator's own map.
abbrev map_left : List MmapEntry
map_left = record { base = 0x1000; length = 0x7ff_f000; kind = 1 } ∷ []
