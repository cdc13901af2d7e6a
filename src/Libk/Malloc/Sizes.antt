-- ===== src/Libk/Malloc/Sizes.antt =====
-- Which slab cache serves a block.
use fusioncore.Base.{ℕ, zero, suc, ◌+◌, ◌*◌, ◌^◌, ◌≤◌, ◌<◌, arith, u64}
use fusioncore.Libk.Malloc.{get_slab_cache_index, sizeof_metadata}

-- The size of the objects of cache `index`, as `malloc_heap_init` makes it.
abbrev pub object_size : ℕ → ℕ
object_size index = 4 * 2 ^ index

smaller_caches : (size j : ℕ) → j < get_slab_cache_index size → object_size j < size
unfolding get_slab_cache_index
smaller_caches size zero h = ground arith
smaller_caches size (suc zero) h = ground arith
smaller_caches size (suc (suc zero)) h = ground arith
smaller_caches size (suc (suc (suc zero))) h = ground arith
smaller_caches size (suc (suc (suc (suc zero)))) h = ground arith
smaller_caches size (suc (suc (suc (suc (suc zero))))) h = ground arith
smaller_caches size (suc (suc (suc (suc (suc (suc zero)))))) h = ground arith
smaller_caches size (suc (suc (suc (suc (suc (suc (suc j))))))) h = ground arith

-- For up to 512 bytes the index is that of one of the eight caches, the smallest whose objects have
-- room.
pub get_slab_cache_index-least :
    (size : ℕ)
    → size ≤ 512
    → (get_slab_cache_index size < 8)
      × (size ≤ object_size (get_slab_cache_index size))
      × ((j : ℕ) → j < get_slab_cache_index size → object_size j < size)
unfolding get_slab_cache_index
get_slab_cache_index-least size h = (ground arith, ground arith, smaller_caches size)

-- A block of 511 or 512 bytes with its header is larger than the object of the cache that malloc
-- takes it from.
pub malloc_overflow :
    (size : ℕ)
    → 510 < size
    → size ≤ 512
    → object_size (get_slab_cache_index (u64 (size + sizeof_metadata))) < size + sizeof_metadata
unfolding get_slab_cache_index
malloc_overflow size lo hi = ground arith
