-- ===== src/Mm/Phys/History/Boot.antt =====
-- `pmm_init` and then any sequence of requests for single pages.
use fusioncore.Base.{
  ℕ, ◌/◌, ◌%◌, ◌^◌, ◌*◌, ◌<◌, ◌≤◌, ◌≡◌, true, Option, none, some, List, arith, ◌∙◌, ap,
}
use fusioncore.Mm.Bitmap.{is_set}
use fusioncore.Mm.Memmap.{page_size, MmapEntry}
use fusioncore.Mm.Phys.{Pmm, page_top, bitmap_size, carve, pmm_init}
use fusioncore.Mm.Phys.Search.{IsPmm}
use fusioncore.Mm.Phys.Init.{
  any_usable, AllMapped, Initialised, pmm_init-Initialised, bitmap_size-covers,
}
use fusioncore.Mm.Phys.History.{Request, Leases, elem, serve_all}
use fusioncore.Mm.Phys.History.Held.{Distinct}
use fusioncore.Mm.Phys.History.Sound.{IsLeasable}
use fusioncore.Mm.Phys.History.Abstract.{unleased, serve_all-Sound}

abbrev from_boot : List Request → Option (Pmm × List MmapEntry) → Option Leases
from_boot rs none = none
from_boot rs (some (p, rest)) = serve_all rs (unleased p)

-- The requests to the allocator that the memory map makes.
abbrev pub boot_and_serve : List MmapEntry → List Request → Option Leases
boot_and_serve entries rs = from_boot rs (pmm_init entries)

-- A page that lies in usable memory, at the start of a page.
pub record IsUsablePage (rest : List MmapEntry) (a : ℕ) : Type 0 where
  pub aligned : a % page_size ≡ 0
  pub not_null : 0 < a
  pub usable : any_usable rest (a / page_size) ≡ true

module _ (entries rest : List MmapEntry) (base : ℕ) (pos : 0 < page_top entries 0 / page_size)
    (wide : page_top entries 0 < 2 ^ 64) (whole : page_top entries 0 / page_size % 8 ≡ 0)
    (fits : page_top entries 0 / page_size ≤ 2 ^ 31)
    (carved : carve (bitmap_size (page_top entries 0)) entries ≡ some (base, rest))
    (mapped : AllMapped (bitmap_size (page_top entries 0)) rest) where
  covers : page_top entries 0 / page_size ≤ 8 * bitmap_size (page_top entries 0)
  covers = bitmap_size-covers (page_top entries 0) wide whole

  pub Initialised-IsPmm : (p : Pmm) → Initialised entries rest p → IsPmm p
  Initialised-IsPmm p i = record {
    valid = i.valid;
    covers = rw (i.top, i.mapped) covers;
    fits_int = rw i.top fits;
    null_used = i.bits 0 (omega (arith, covers, pos));
  }

  leasable_usable :
      (p : Pmm)
      → Initialised entries rest p
      → (a : ℕ) → IsLeasable (is_set p.bitmap) (p.hi_page_top / page_size) a
      → IsUsablePage rest a
  leasable_usable p i a page =
      let index : a / page_size ≡ page.index = omega (arith, page.address) in
      let in_map : page.index < 8 * bitmap_size (page_top entries 0) =
        omega (arith, page.below_top, i.top, covers) in
      record {
        aligned = omega (arith, page.address);
        not_null = omega (arith, page.address, page.not_null);
        usable = rw index (ground (arith, i.bits page.index in_map, page.was_free, page.not_null));
      }

  -- Where pmm_init finds room for a map that covers all pages below the top, which are a multiple
  -- of 8 and at most 2^31, and all usable pages lie in it, every sequence of requests for single
  -- pages and returns of held ones after it is served, and the pages that are held are all
  -- different and lie in usable entries of the memory map as the cut for the bitmap leaves them.
  pub boot_and_serve-usable :
      (rs : List Request)
      → (s' : Leases) × (boot_and_serve entries rs ≡ some s')
        × Distinct s'.held
        × ((a : ℕ) → elem a s'.held ≡ true → IsUsablePage rest a)
  boot_and_serve-usable rs =
      let (p, ran, i) =
        pmm_init-Initialised entries rest base (omega (arith, covers, pos)) carved mapped in
      let (s', served, sound) = serve_all-Sound p rs (Initialised-IsPmm p i) in
      (
        s',
        ap (from_boot rs) ran ∙ served,
        sound.distinct,
        λ a mine. leasable_usable p i a (sound.pages a mine),
      )
