-- ===== src/Mm/Slab/Stock/Described.antt =====
-- fckrnl/mm/slab.c: the fields of a cache that `slab_cache_create` writes, and its two pages.
use fusioncore.Base.{
  ℕ, ◌+◌, ◌-◌, ◌*◌, ◌/◌, ◌^◌, ◌≤◌, ◌<◌, ◌≡◌, ◌≢◌, ◌∙◌, arith, u64, if◌then◌else◌, if-true, if-false,
}
use fusioncore.Machine.Bytes.{Memory, load-ext}
use fusioncore.Machine.Laws.{word, put, words}
use fusioncore.Libk.Text.Laws.{in_block}
use fusioncore.Mm.Memmap.{page_size}
use fusioncore.Mm.Phys.{Pmm}
use fusioncore.Mm.Phys.Search.{IsPmm}
use fusioncore.Mm.Phys.Roundtrip.{Granted}
use fusioncore.Mm.Virt.Space.Words.{word-zero}
use native.Mathlib.Nat.{mul-div-le, mul-le-mul_right}
use fusioncore.Mm.Slab.Layout.{
  cache_name, cache_slab_size, cache_bufctl_count_max, cache_slabs, cache_slabs_head, sizeof_cache,
}
use fusioncore.Mm.Slab.Stock.{Room}
use fusioncore.Mm.Slab.Objects.{Apart}

-- The objects that a cache counts for a page.
abbrev pub count_max : ℕ → ℕ
count_max size = (page_size - sizeof_cache) / size

-- Memory after the fields of a new cache are written.
abbrev pub described : ℕ → ℕ → ℕ → Memory → Memory
described cache name size mem =
    put
      (put (put (put mem (cache_name cache) name) (cache_slab_size cache) size)
        (cache_bufctl_count_max cache) (count_max size))
      (cache_slabs cache) 0

-- Pages of two grants one after the other.
different :
    {p p1 p2 : Pmm} {a b : ℕ} (g : Granted 1 p a p1) (h : Granted 1 p1 b p2) → g.index ≢ h.index
different g h same = ground (arith, g.marked.filled.bits h.index, h.was_free)

whole : (size : ℕ) → size * count_max size ≤ page_size - sizeof_cache
whole size = mul-div-le (page_size - sizeof_cache) size

pub count_max-small : (size : ℕ) → 4 ≤ size → count_max size < 4097
count_max-small size low = omega (arith, mul-le-mul_right (count_max size) low, whole size)

-- Two granted pages have room for a cache in the first and its objects in the second.
pub two_pages-Room :
    (size : ℕ) {p p1 p2 : Pmm} {cache page : ℕ}
    → IsPmm p1
    → 4 ≤ size
    → Granted 1 p cache p1
    → Granted 1 p1 page p2
    → Room cache page size (count_max size)
two_pages-Room size valid low g h =
    let ne = different g h in
    let fits_int = valid.fits_int in
    record {
      wide = low;
      fits = whole size;
      page_exists = omega (arith, h.address, h.not_null);
      page_small = omega (arith, h.address, h.below_top, fits_int);
      cache_apart = ground (arith, g.address, h.address, ne);
    }

module _ (cache name size : ℕ) (low : 4 ≤ size) (small : size ≤ 512) (mem cleared : Memory)
    (clears : (x : ℕ)
      → cleared x ≡ (if in_block cache (u64 (page_size * 1)) x then 0 else mem x)) where
  pub head_zero : word cleared (cache_slabs_head cache) ≡ 0
  head_zero = word-zero cleared (cache_slabs_head cache) λ x from to.
      clears x ∙ if-true (in_block cache (u64 (page_size * 1)) x) 0 (mem x) (ground arith)

  pub described-size : word (described cache name size cleared) (cache_slab_size cache) ≡ size
  described-size = grind words

  pub described-count :
      word (described cache name size cleared) (cache_bufctl_count_max cache) ≡ count_max size
  described-count =
      let fits : count_max size < 2 ^ 64 = omega (arith, count_max-small size low) in grind words

  pub described-head : word (described cache name size cleared) (cache_slabs_head cache) ≡ 0
  described-head = grind (words, head_zero)

  pub size_read :
      word
        (put (put cleared (cache_name cache) name) (cache_slab_size cache) size)
        (cache_slab_size cache)
      ≡ size
  size_read = grind words

  pub described-keeps :
      (c : ℕ)
      → Apart c 8 cache page_size
      → cache + page_size ≤ 2 ^ 64
      → word (described cache name size cleared) c ≡ word mem c
  described-keeps c apart fits =
      let kept : word cleared c ≡ word mem c = load-ext 8 cleared mem c λ x from to.
        clears x ∙ if-false (in_block cache (u64 (page_size * 1)) x) 0 (mem x) (ground arith) in
      grind words
