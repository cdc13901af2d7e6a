-- ===== src/Examples/Pages.antt =====
-- The page allocator, its bitmap and the page tables' arithmetic on a memory of sixteen pages.
use fusioncore.Base.{
  ℕ, zero, suc, ◌+◌, ◌*◌, ◌/◌, ◌≤◌, ◌<◌, ◌≡◌, refl, true, false, some, List, [], ◌∷◌, arith,
}
use fusioncore.Mm.Bitmap.{Bitmap, bitmap_set, bitmap_get, is_set}
use fusioncore.Mm.Bitmap.Laws.{IsBitmap, Updated, bitmap_set-Updated}
use fusioncore.Mm.Memmap.{MmapEntry, page_size}
use fusioncore.Mm.Phys.{
  Pmm, get_ffp_range, pmm_alloc, pmm_free, ffp_bits, ffp_pages, set_pages, page_top, bitmap_size,
  carve, pmm_init,
}
use fusioncore.Mm.Phys.Search.{IsPmm, get_ffp_range-ignores_count}
use fusioncore.Mm.Phys.Pages.{Allocated, is_within, SamePages, pmm_alloc-Allocated}
use fusioncore.Mm.Phys.Roundtrip.{pmm_free-pmm_alloc}
use fusioncore.Mm.Phys.Init.{
  Initialised, AllMapped, pmm_init-Initialised, bitmap_size-covers, bitmap_size_short,
}

-- Pages 0 and 2 are in use.
abbrev bits : Bitmap
bits = record { map = 5 ∷ 0 ∷ []; size = 2 }

abbrev pages : Pmm
pages = record { bitmap = bits; hi_page_top = 0xf000; used_page_cnt = 2 }

bits-IsBitmap : IsBitmap bits
bits-IsBitmap = record {
  bytes = elim [ zero ↦ omega arith | suc zero ↦ omega arith | suc (suc j) ↦ omega arith ];
}

pages-IsPmm : IsPmm pages
pages-IsPmm = record {
  valid = bits-IsBitmap;
  covers = omega arith;
  fits_int = omega arith;
  null_used = refl;
}

get_ffp_range-ignores_count_example : get_ffp_range 2 pages ≡ get_ffp_range 1 pages
get_ffp_range-ignores_count_example =
    get_ffp_range-ignores_count 2 pages pages-IsPmm (omega arith) (omega arith)

pmm_alloc-Allocated_example : Allocated 2 pages (pmm_alloc 2 pages)
pmm_alloc-Allocated_example =
    pmm_alloc-Allocated 2 pages pages-IsPmm (omega arith) (omega arith) (omega arith) (omega arith)

bitmap_set-Updated_example : (b' : Bitmap) × (bitmap_set bits 9 ≡ some b') × Updated bits 9 true b'
bitmap_set-Updated_example = bitmap_set-Updated bits 9 bits-IsBitmap (omega arith, omega arith)

-- Only page 0 is in use.
abbrev low_bits : List ℕ → Bitmap
low_bits map = record { map = map; size = 2 }

abbrev roomy_pages : List ℕ → ℕ → Pmm
roomy_pages map used = record { bitmap = low_bits map; hi_page_top = 0xf000; used_page_cnt = used }

roomy_pages-IsPmm : IsPmm (roomy_pages (1 ∷ 0 ∷ []) 1)
roomy_pages-IsPmm = record {
  valid = record {
    bytes = elim [ zero ↦ omega arith | suc zero ↦ omega arith | suc (suc j) ↦ omega arith ];
  };
  covers = omega arith;
  fits_int = omega arith;
  null_used = refl;
}

two_pages_taken :
    pmm_alloc 2 (roomy_pages (1 ∷ 0 ∷ []) 1) ≡ some (0x1000, roomy_pages (7 ∷ 0 ∷ []) 3)
unfolding pmm_alloc get_ffp_range bitmap_set bitmap_get ffp_bits ffp_pages set_pages
two_pages_taken = refl

both_free : (j : ℕ) → is_within 1 2 j ≡ true → is_set (low_bits (1 ∷ 0 ∷ [])) j ≡ false
both_free zero h = cc h
both_free (suc zero) h = refl
both_free (suc (suc zero)) h = refl
both_free (suc (suc (suc j))) h = absurd (ground arith)

pmm_free-pmm_alloc_example :
    (p'' : Pmm) × (pmm_free 0x1000 2 (roomy_pages (7 ∷ 0 ∷ []) 3) ≡ some p'')
    × SamePages (low_bits (1 ∷ 0 ∷ [])) p''.bitmap
    × (p''.used_page_cnt ≡ 1)
pmm_free-pmm_alloc_example =
    pmm_free-pmm_alloc 2 (roomy_pages (1 ∷ 0 ∷ []) 1) 0x1000 (roomy_pages (7 ∷ 0 ∷ []) 3)
      roomy_pages-IsPmm (omega arith, omega arith) (omega arith) (omega arith) two_pages_taken
      (λ e. absurd (omega (arith, e))) (omega arith) both_free

-- A usable entry of eight pages, and a reserved one.
abbrev memory_map : List MmapEntry
memory_map =
    record { base = 0x1000; length = 0x8000; kind = 1 }
    ∷ record { base = 0x9000; length = 0x2000; kind = 2 }
    ∷ []

abbrev map_left : List MmapEntry
map_left =
    record { base = 0x2000; length = 0x7000; kind = 1 }
    ∷ record { base = 0x9000; length = 0x2000; kind = 2 }
    ∷ []

map_is_cut : carve (bitmap_size (page_top memory_map 0)) memory_map ≡ some (0x1000, map_left)
unfolding carve page_top
map_is_cut = refl

map_left-AllMapped : AllMapped (bitmap_size (page_top memory_map 0)) map_left
unfolding page_top
map_left-AllMapped = ((λ e. (omega arith, omega arith)), ((λ e. cc e), tt))

some_map : 0 < bitmap_size (page_top memory_map 0)
unfolding page_top
some_map = omega arith

pmm_init-Initialised_example :
    (p : Pmm) × (pmm_init memory_map ≡ some (p, map_left)) × Initialised memory_map map_left p
pmm_init-Initialised_example =
    pmm_init-Initialised memory_map map_left 0x1000 some_map map_is_cut map_left-AllMapped

bitmap_size-covers_example : 0x10_0000 / page_size ≤ 8 * bitmap_size 0x10_0000
bitmap_size-covers_example = bitmap_size-covers 0x10_0000 (omega arith) (omega arith)

bitmap_size_short_example :
    8 * bitmap_size ((1 * 32768 + 3) * page_size) < (1 * 32768 + 3) * page_size / page_size
bitmap_size_short_example = bitmap_size_short 1 3 (omega arith) (omega arith) (omega arith)
