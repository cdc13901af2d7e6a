-- ===== src/Mm/Phys.antt =====
-- fckrnl/mm/phys.c: the allocator of physical pages. `none` is an access outside the bitmap.
-- The bitmap's own bytes lie in memory that `pmm_init` cuts out of a usable entry, so they are
-- kept apart from the memory that the allocator hands out.
pub mod Search
pub mod Pages
pub mod Roundtrip
pub mod Init
pub mod Count
pub mod History
pub mod Free
use fusioncore.Base.{
  ℕ, zero, suc, ◌+◌, ◌-◌, ◌*◌, ◌/◌, Bool, true, false, not, ◌&&◌, Option, none, some, List, [], ◌∷◌,
  ltb, leb, ◌==◌, if◌then◌else◌, u64, sub64, replicate,
}
use fusioncore.Mm.Bitmap.{Bitmap, bitmap_set, bitmap_clear, bitmap_get, ◌>>=◌}
use fusioncore.Mm.Memmap.{
  page_size, kb_to_pages, align_up, align_down, bit_to_page, page_to_bit, MmapEntry, is_usable,
  is_ram,
}

-- `pmm_bitmap`, `hi_page_top` and `used_page_cnt`
pub record Pmm : Type 0 where
  pub bitmap : Bitmap
  pub hi_page_top : ℕ
  pub used_page_cnt : ℕ

-- The inner loop of `_get_ffp_range` at `page_cnt_i = i` with `left` rounds to go: `some none` is
-- a `break` or the loop's end, `some (some p)` the return of `p`.
unfoldable pub ffp_pages : Bitmap → ℕ → ℕ → ℕ → ℕ → Option (Option ℕ)
ffp_pages b bit page_cnt zero i = some none
ffp_pages b bit page_cnt (suc left) i =
    let rest = ffp_pages b bit page_cnt left (i + 1) in
    do
      used ← bitmap_get b (u64 (bit + page_to_bit i))
      if not (used == 0)
          then some none
          else if i == page_cnt - 1
          then some (some (bit_to_page bit))
          else rest

-- Its outer loop at `all_bits_i = bit`.
unfoldable pub ffp_bits : Bitmap → ℕ → ℕ → ℕ → Option ℕ
unfolding ffp_pages
ffp_bits b page_cnt zero bit = some 0
ffp_bits b page_cnt (suc left) bit =
    let rest = ffp_bits b page_cnt left (bit + 1) in
    do found ← ffp_pages b bit page_cnt page_cnt 0; elim found [ some p ↦ some p | none ↦ rest ]

unfoldable pub get_ffp_range : ℕ → Pmm → Option ℕ
unfolding ffp_bits
get_ffp_range page_cnt p = ffp_bits p.bitmap page_cnt (page_to_bit p.hi_page_top) 0

-- The loops of `pmm_alloc` and `pmm_free` over `index`, `index + 1`, and so on.
unfoldable pub set_pages : ℕ → ℕ → Bitmap → Option Bitmap
set_pages zero index b = some b
set_pages (suc n) index b = do b' ← bitmap_set b (u64 index); set_pages n (index + 1) b'

unfoldable pub clear_pages : ℕ → ℕ → Bitmap → Option Bitmap
clear_pages zero index b = some b
clear_pages (suc n) index b = do b' ← bitmap_clear b (u64 index); clear_pages n (index + 1) b'

-- The result is the page's address, 0 for NULL.
unfoldable pub pmm_alloc : ℕ → Pmm → Option (ℕ × Pmm)
pmm_alloc page_cnt p = if p.used_page_cnt == 0 then some (0, p) else do
  ptr ← get_ffp_range page_cnt p
  if ptr == 0 then some (0, p) else do
    b ← set_pages page_cnt (page_to_bit ptr) p.bitmap
    some (
      bit_to_page (page_to_bit ptr),
      record p { bitmap = b; used_page_cnt = u64 (p.used_page_cnt + page_cnt) },
    )

unfoldable pub pmm_free : ℕ → ℕ → Pmm → Option Pmm
pmm_free ptr page_cnt p = do
  b ← clear_pages page_cnt (page_to_bit ptr) p.bitmap
  some (record p { bitmap = b; used_page_cnt = sub64 p.used_page_cnt page_cnt })

-- The first loop of `pmm_init`: the highest end of an entry that is RAM.
unfoldable pub page_top : List MmapEntry → ℕ → ℕ
page_top [] top = top
page_top (e ∷ es) top =
    let cur = u64 (e.base + e.length) in page_top es (if is_ram e && ltb top cur then cur else top)

abbrev pub bitmap_size : ℕ → ℕ
bitmap_size top = align_up (align_down top page_size / page_size / 8) page_size

-- The second loop: the bitmap's bytes are cut from the front of the first usable entry that has
-- room. The result is where they lie, and the entries as the cut leaves them; `none` is no room.
unfoldable pub carve : ℕ → List MmapEntry → Option (ℕ × List MmapEntry)
carve size [] = none
carve size (e ∷ es) =
    if is_usable e && leb size e.length
    then some (e.base, record e { base = u64 (e.base + size); length = e.length - size } ∷ es)
    else do (base, rest) ← carve size es; some (base, e ∷ rest)

-- The third loop.
unfoldable pub free_usable : List MmapEntry → Pmm → Option Pmm
free_usable [] p = some p
free_usable (e ∷ es) p = do
  p' ← (if is_usable e then pmm_free e.base (e.length / page_size) p else some p)
  free_usable es p'

-- `pmm_init`, with the entries as it leaves them. Where no entry has room for the bitmap, the map
-- is NULL and the fill writes through it.
unfoldable pub pmm_init : List MmapEntry → Option (Pmm × List MmapEntry)
pmm_init entries =
    let top = page_top entries 0 in
    let size = bitmap_size top in
    do
      (base, rest) ← carve size entries
      p ← free_usable rest (record {
        bitmap = record { map = replicate size 0xff; size = size };
        hi_page_top = top;
        used_page_cnt = kb_to_pages top;
      })
      b ← bitmap_set p.bitmap 0
      some (record p { bitmap = b }, rest)
