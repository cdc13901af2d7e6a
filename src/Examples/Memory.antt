-- ===== src/Examples/Memory.antt =====
-- Pages that are cleared, objects of a slab and page tables in a small memory.
use fusioncore.Base.{ℕ, ◌*◌, ◌≡◌, refl, some, List, [], ◌∷◌, arith, if◌then◌else◌, u64}
use fusioncore.Examples.Holding.{holding}
use fusioncore.Libk.Text.Laws.{in_block}
use fusioncore.Machine.{Machine, done, ◌>>=◌}
use fusioncore.Machine.Bytes.{Memory}
use fusioncore.Mm.Bitmap.{bitmap_set, bitmap_clear, bitmap_get}
use fusioncore.Mm.Memmap.{page_size}
use fusioncore.Mm.Phys.{Pmm, pmm_alloc, get_ffp_range, ffp_bits, ffp_pages, set_pages}
use fusioncore.Mm.Zeroed.{pmm_allocz}
use fusioncore.Mm.Zeroed.Cleared.{pmm_allocz-clears}
use fusioncore.Libk.Malloc.{malloc, free}
use fusioncore.Libk.Malloc.Blocks.{pages_for, free-malloc_pages}
use fusioncore.Mm.Phys

abbrev free_pages : List ℕ → ℕ → Pmm
free_pages map used = record {
  bitmap = record { map = map; size = 2 };
  hi_page_top = 0x1_0000;
  used_page_cnt = used;
}

-- A cache at 100 whose current slab, at 200, has 3 objects and the one at 400 first; a table at
-- 0x1000 leads by 0x2000 and 0x3000 to 0x4000 for the addresses from 0 on.
abbrev small : Machine
small = record {
  mem = holding (
      (132, 200)
      ∷ (208, 3)
      ∷ (216, 144)
      ∷ (217, 1)
      ∷ (0x1000, 3)
      ∷ (0x1001, 0x20)
      ∷ (0x2000, 3)
      ∷ (0x2001, 0x30)
      ∷ (0x3000, 3)
      ∷ (0x3001, 0x40)
      ∷ []);
  pmm = free_pages (0x1f ∷ 0 ∷ []) 5;
}

page_taken : pmm_alloc 1 small.pmm ≡ some (0x5000, free_pages (0x3f ∷ 0 ∷ []) 6)
unfolding pmm_alloc get_ffp_range bitmap_set bitmap_get ffp_bits ffp_pages set_pages
page_taken = refl

pmm_allocz-clears_example :
    (after : Memory) × (pmm_allocz 1 small
      ≡ done 0x5000 (record { mem = after; pmm = free_pages (0x3f ∷ 0 ∷ []) 6 }))
    × ((x : ℕ) → after x ≡ (if in_block 0x5000 (u64 (page_size * 1)) x then 0 else small.mem x))
pmm_allocz-clears_example =
    pmm_allocz-clears 1 small 0x5000 (free_pages (0x3f ∷ 0 ∷ []) 6) page_taken

two_pages_taken : pmm_alloc (pages_for 5000) small.pmm ≡ some (0x5000, free_pages (0x7f ∷ 0 ∷ []) 7)
unfolding pmm_alloc get_ffp_range bitmap_set bitmap_get ffp_bits ffp_pages set_pages
two_pages_taken = refl

two_pages_freed :
    Phys.pmm_free 0x5000 (pages_for 5000) (free_pages (0x7f ∷ 0 ∷ []) 7) ≡ some small.pmm
unfolding Phys.pmm_free Phys.clear_pages bitmap_clear
two_pages_freed = refl

free-malloc_pages_example :
    (after : Memory) × ((malloc 1 [] 5000 >>= free 1 []) small
      ≡ done tt (record { mem = after; pmm = small.pmm }))
free-malloc_pages_example =
    free-malloc_pages 1 1 [] 5000 small 0x5000 (free_pages (0x7f ∷ 0 ∷ []) 7) small.pmm
      (omega arith) (omega arith) two_pages_taken two_pages_freed (omega arith) (omega arith)
