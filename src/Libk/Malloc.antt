-- ===== src/Libk/Malloc.antt =====
-- fckrnl/libk/malloc.c: small blocks come from eight slab caches, large ones are whole pages. A
-- two-byte header before each block holds the cache's index or the number of pages.
pub mod Sizes
pub mod Blocks
pub mod Small
pub mod Heap
pub mod First
use fusioncore.Base.{
  ℕ, ◌+◌, ◌/◌, bit_and, Option, none, some, List, [], ◌∷◌, not, leb, ◌==◌, if◌then◌else◌, get_elem?,
  u64, sub64,
}
use fusioncore.Machine.{Machine, Cmd, done, fault, pure, ◌>>=◌, ◌>>◌}
use fusioncore.Machine.Bytes.{load, store}
use fusioncore.Mm.Memmap.{page_size, align_up, heap_start_addr}
use fusioncore.Mm.Zeroed.{pmm_allocz, pmm_free}
use fusioncore.Mm.Slab.Layout.{slab_panic}
use fusioncore.Mm.Slab.Cache.{slab_cache_create, slab_cache_alloc, slab_cache_free}

-- `sizeof(malloc_metadata_t)`
abbrev pub sizeof_metadata : ℕ
sizeof_metadata = 2

-- `metadata->size`, a `uint16_t`.
unfoldable pub read_metadata : ℕ → Cmd ℕ
read_metadata a m = done (load 2 m.mem a) m

unfoldable pub write_metadata : ℕ → ℕ → Cmd (Unit {0})
write_metadata a v m = done tt (record m { mem = store 2 m.mem a v })

unfoldable pub get_slab_cache_index : ℕ → ℕ
get_slab_cache_index size =
    if leb size 32
    then (if leb size 8 then (if leb size 4 then 0 else 1) else (if leb size 16 then 2 else 3))
    else (if leb size 128 then (if leb size 64 then 4 else 5) else (if leb size 256 then 6 else 7))

-- `slab_caches`, with the addresses of the caches' names.
unfoldable pub malloc_heap_init : (ℕ → ℕ) → Cmd (List ℕ)
malloc_heap_init names = do
  c0 ← slab_cache_create (names 0) 4 3
  c1 ← slab_cache_create (names 1) 8 3
  c2 ← slab_cache_create (names 2) 16 3
  c3 ← slab_cache_create (names 3) 32 3
  c4 ← slab_cache_create (names 4) 64 3
  c5 ← slab_cache_create (names 5) 128 3
  c6 ← slab_cache_create (names 6) 256 3
  c7 ← slab_cache_create (names 7) 512 3
  pure (c0 ∷ c1 ∷ c2 ∷ c3 ∷ c4 ∷ c5 ∷ c6 ∷ c7 ∷ [])

-- `slab_caches[index]`
unfoldable pub cache_at : List ℕ → ℕ → Cmd ℕ
cache_at caches index m = elim (get_elem? caches index) [ none ↦ fault | some c ↦ done c m ]

-- A block's address from its header's.
abbrev pub block_of : ℕ → ℕ
block_of ptr = u64 (ptr + sizeof_metadata + heap_start_addr)

-- The fuel is that of the walk along a cache's slabs.
unfoldable pub malloc : ℕ → List ℕ → ℕ → Cmd ℕ
unfolding write_metadata cache_at
malloc fuel caches size =
    if leb size 512
    then (let index = get_slab_cache_index (u64 (size + sizeof_metadata)) in
        do
          cache ← cache_at caches index
          ptr ← slab_cache_alloc fuel cache slab_panic
          write_metadata ptr index
          pure (block_of ptr))
    else (let page_count = align_up (u64 (size + sizeof_metadata)) page_size / page_size in
        do ptr ← pmm_allocz page_count; write_metadata ptr page_count; pure (block_of ptr))

unfoldable pub free : ℕ → List ℕ → ℕ → Cmd (Unit {0})
unfolding read_metadata cache_at
free fuel caches block =
    if block == 0
    then pure tt
    else (let ptr = sub64 (sub64 block heap_start_addr) sizeof_metadata in
        if not (bit_and ptr 0xfff == 0)
        then (do
          index ← read_metadata ptr
          cache ← cache_at caches index
          slab_cache_free fuel cache ptr slab_panic)
        else (do page_count ← read_metadata ptr; pmm_free ptr page_count))
