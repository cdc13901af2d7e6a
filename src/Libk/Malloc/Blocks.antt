-- ===== src/Libk/Malloc/Blocks.antt =====
-- What `free` does with the blocks that `malloc` gives.
use mathlib.Core.Option
use fusioncore.Base.{
  ℕ, ◌+◌, ◌/◌, ◌%◌, ◌^◌, ◌≤◌, ◌<◌, ◌≡◌, ◌≢◌, refl, ap, ◌∙◌, some, List, arith, leb, if-true,
  if-false, ==_ne, get_elem?, u64, sub64,
}
use fusioncore.Base.Bits.{bit_and_mask}
use fusioncore.Machine.{Machine, done, from_pmm, ◌>>=◌}
use fusioncore.Machine.Bytes.{Memory, load, store, load-store_self}
use fusioncore.Mm.Memmap.{page_size, align_up, heap_start_addr}
use fusioncore.Mm.Phys
use fusioncore.Mm.Phys.{Pmm, pmm_alloc}
use fusioncore.Mm.Zeroed.{pmm_free}
use fusioncore.Mm.Zeroed.Cleared.{pmm_allocz-clears}
use fusioncore.Mm.Slab.Layout.{slab_panic}
use fusioncore.Mm.Slab.Cache.{slab_cache_alloc}
use fusioncore.Libk.Malloc.{
  sizeof_metadata, get_slab_cache_index, read_metadata, write_metadata, block_of, cache_at, malloc,
  free,
}

-- The header's address comes back from the block's.
pub header_of_block :
    (ptr : ℕ) → ptr < 2 ^ 64 → sub64 (sub64 (block_of ptr) heap_start_addr) sizeof_metadata ≡ ptr
header_of_block ptr fits = omega arith

pub block-ne-zero : (ptr : ℕ) → ptr < 2 ^ 46 → block_of ptr ≢ 0
block-ne-zero ptr small e = omega arith

-- A block whose header is at a page's start is given back as pages, as many as the header says.
pub free-aligned :
    (fuel : ℕ) (caches : List ℕ) (ptr n : ℕ) (m : Machine)
    → ptr < 2 ^ 46
    → ptr % page_size ≡ 0
    → load 2 m.mem ptr ≡ n
    → free fuel caches (block_of ptr) m ≡ pmm_free ptr n m
unfolding free read_metadata
free-aligned fuel caches ptr n m small aligned header =
    rw
      (
        ==_ne (block_of ptr) 0 (block-ne-zero ptr small),
        header_of_block ptr (omega arith),
        bit_and_mask 12 ptr ∙ aligned,
      )
      (ap (λ k. pmm_free ptr k m) header)

-- The number of pages that `malloc` takes for a block.
abbrev pub pages_for : ℕ → ℕ
pages_for size = align_up (u64 (size + sizeof_metadata)) page_size / page_size

-- free of a block of more than 512 bytes gives back, to the allocator as malloc left it, the pages
-- that malloc took, if they are fewer than 65536, are page-aligned below 2^46 and can be freed.
pub free-malloc_pages :
    (fuel fuel' : ℕ) (caches : List ℕ) (size : ℕ) (m : Machine) (ptr : ℕ) (p' p'' : Pmm)
    → 512 < size
    → pages_for size < 2 ^ 16
    → pmm_alloc (pages_for size) m.pmm ≡ some (ptr, p')
    → Phys.pmm_free ptr (pages_for size) p' ≡ some p''
    → ptr < 2 ^ 46
    → ptr % page_size ≡ 0
    → (after : Memory) × ((malloc fuel caches size >>= free fuel' caches) m
        ≡ done tt (record { mem = after; pmm = p'' }))
unfolding malloc write_metadata pmm_free
free-malloc_pages fuel fuel' caches size m ptr p' p'' large few got freed small aligned =
    let n = pages_for size in
    let (cleared, allocated, clears) = pmm_allocz-clears n m ptr p' got in
    let after = store 2 cleared ptr n in
    (
      after,
      rw (if-false (leb size 512) _ _ (ground arith), allocated)
          (free-aligned fuel' caches ptr n (record { mem = after; pmm = p' }) small aligned
              (load-store_self 2 cleared ptr n ∙ omega arith)
            ∙ ap (λ o. from_pmm (Option.map (λ p. (tt, p)) o) (record { mem = after; pmm = p' }))
                freed),
    )

pub index_small : (size : ℕ) → get_slab_cache_index size < 8
unfolding get_slab_cache_index
index_small size = ground arith

pub cache_found :
    (caches : List ℕ) (i cache : ℕ) (m : Machine)
    → get_elem? caches i ≡ some cache
    → cache_at caches i m ≡ done cache m
unfolding cache_at
cache_found caches i cache m found = rw (cache_at, found) refl

-- If the object that a block of at most 512 bytes comes from starts a page below 2^46, as the first
-- of each slab does, free does not give it back to its cache but takes it for as many pages as the
-- cache's index says.
pub free-malloc_first_object :
    (fuel fuel' : ℕ) (caches : List ℕ) (size cache : ℕ) (m : Machine) (ptr : ℕ) (m' : Machine)
    → size ≤ 512
    → get_elem? caches (get_slab_cache_index (size + sizeof_metadata)) ≡ some cache
    → slab_cache_alloc fuel cache slab_panic m ≡ done ptr m'
    → ptr < 2 ^ 46
    → ptr % page_size ≡ 0
    → (after : Memory) × ((malloc fuel caches size >>= free fuel' caches) m
        ≡ pmm_free ptr (get_slab_cache_index (size + sizeof_metadata)) (record m' { mem = after }))
unfolding malloc write_metadata
free-malloc_first_object fuel fuel' caches size cache m ptr m' small found got low aligned =
    let index = get_slab_cache_index (size + sizeof_metadata) in
    let after = store 2 m'.mem ptr index in
    (
      after,
      rw
          (
            if-true (leb size 512) _ _ (ground arith),
            same_index,
            cache_found caches index cache m found,
            got,
          )
          (free-aligned fuel' caches ptr index (record m' { mem = after }) low aligned
            (load-store_self 2 m'.mem ptr index
              ∙ omega (arith, index_small (size + sizeof_metadata)))),
    )
  where
    same_index : u64 (size + sizeof_metadata) ≡ size + sizeof_metadata
    same_index = omega arith
