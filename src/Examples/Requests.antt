-- ===== src/Examples/Requests.antt =====
-- Sequences of requests to the page allocator, on sixteen pages and after `pmm_init`.
use fusioncore.Base.{ℕ, zero, suc, ◌+◌, ◌≡◌, refl, true, some, List, [], ◌∷◌, arith, length}
use fusioncore.Mm.Bitmap.{Bitmap, is_set}
use fusioncore.Mm.Memmap.{MmapEntry}
use fusioncore.Mm.Phys.{Pmm, page_top, bitmap_size, carve}
use fusioncore.Mm.Phys.Search.{IsPmm}
use fusioncore.Mm.Phys.Init.{AllMapped}
use fusioncore.Mm.Phys.History.{Request, want, give, Leases, elem, serve_all, promise_all}
use fusioncore.Mm.Phys.History.Held.{Distinct}
use fusioncore.Mm.Phys.History.Sound.{Sound}
use fusioncore.Mm.Phys.History.Abstract.{unleased, serve_all-Sound, serve_all-promise}
use fusioncore.Mm.Phys.History.Boot.{boot_and_serve, IsUsablePage, boot_and_serve-usable}

-- Pages 0 and 2 are in use.
abbrev bits : Bitmap
bits = record { map = 5 ∷ 0 ∷ []; size = 2 }

abbrev pages : Pmm
pages = record { bitmap = bits; hi_page_top = 0xf000; used_page_cnt = 2 }

pages-IsPmm : IsPmm pages
pages-IsPmm = record {
  valid = record {
    bytes = elim [ zero ↦ omega arith | suc zero ↦ omega arith | suc (suc j) ↦ omega arith ];
  };
  covers = omega arith;
  fits_int = omega arith;
  null_used = refl;
}

abbrev requests : List Request
requests = want ∷ want ∷ give 0x1000 ∷ give 0x5000 ∷ want ∷ []

serve_all-Sound_example :
    (s' : Leases) × (serve_all requests (unleased pages) ≡ some s') × Sound (is_set bits) 15 s'
serve_all-Sound_example = serve_all-Sound pages requests pages-IsPmm

serve_all-promise_example :
    (s' : Leases) × (serve_all requests (unleased pages) ≡ some s')
    × Sound (is_set bits) 15 s'
    × (s'.held ≡ promise_all (is_set bits) 15 requests [])
    × (s'.pmm.used_page_cnt ≡ 2 + length s'.held)
serve_all-promise_example = serve_all-promise pages requests pages-IsPmm (omega arith) (omega arith)

-- The promise of these requests: pages 1 and 3, page 1 back, and page 1 again.
requests-run : promise_all (is_set bits) 15 requests [] ≡ 0x1000 ∷ 0x3000 ∷ []
unfolding promise_all
requests-run = refl

-- Seven pages of RAM behind page 0 and the page of the map.
abbrev memory_map : List MmapEntry
memory_map =
    record { base = 0x1000; length = 0x7000; kind = 1 }
    ∷ record { base = 0x8000; length = 0x2000; kind = 2 }
    ∷ []

abbrev map_left : List MmapEntry
map_left =
    record { base = 0x2000; length = 0x6000; kind = 1 }
    ∷ record { base = 0x8000; length = 0x2000; kind = 2 }
    ∷ []

map_is_cut : carve (bitmap_size (page_top memory_map 0)) memory_map ≡ some (0x1000, map_left)
unfolding carve page_top
map_is_cut = refl

map_left-AllMapped : AllMapped (bitmap_size (page_top memory_map 0)) map_left
unfolding page_top
map_left-AllMapped = ((λ e. (omega arith, omega arith)), ((λ e. cc e), tt))

top_lem : page_top memory_map 0 ≡ 0x8000
unfolding page_top
top_lem = refl

boot_and_serve-usable_example :
    (s' : Leases) × (boot_and_serve memory_map (want ∷ want ∷ []) ≡ some s')
    × Distinct s'.held
    × ((a : ℕ) → elem a s'.held ≡ true → IsUsablePage map_left a)
boot_and_serve-usable_example =
    boot_and_serve-usable memory_map map_left 0x1000 (omega (arith, top_lem))
      (omega (arith, top_lem)) (omega (arith, top_lem)) (omega (arith, top_lem)) map_is_cut
      map_left-AllMapped (want ∷ want ∷ [])
