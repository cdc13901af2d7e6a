-- ===== src/Libk/Malloc/First.antt =====
-- fckrnl/libk/malloc.c: the first small block of a heap, and back.
use mathlib.Core.Option
use native.Mathlib.Nat.{le-div_iff_mul-le}
use fusioncore.Base.{
  ℕ, zero, suc, ◌+◌, ◌-◌, ◌/◌, ◌≤◌, ◌<◌, ◌≡◌, refl, ap, ◌∙◌, some, List, arith, get_elem?, false,
  leb, if-true, u64,
}
use fusioncore.Machine.{Machine, done, from_pmm}
use fusioncore.Machine.Bytes.{Memory, store, load-store_self}
use fusioncore.Machine.Laws.{word}
use fusioncore.Mm.Bitmap.{is_set}
use fusioncore.Mm.Memmap.{page_size}
use fusioncore.Mm.Phys.{Pmm}
use fusioncore.Mm.Phys.Search.{IsPmm}
use fusioncore.Mm.Phys.Pages.{pmm_free-Marked}
use fusioncore.Mm.Phys.Roundtrip.{Roomy}
use fusioncore.Mm.Zeroed.{pmm_free}
use fusioncore.Mm.Kept.{InUse}
use fusioncore.Mm.Slab.Layout.{slab_panic, cache_slabs_head, sizeof_cache}
use fusioncore.Mm.Slab.Cache.{slab_cache_alloc}
use fusioncore.Mm.Slab.Stock.{slab_of, first_of}
use fusioncore.Mm.Slab.Stock.Described.{count_max}
use fusioncore.Mm.Slab.Stock.Home.{Home}
use fusioncore.Mm.Slab.Stack.Take.{Ready, slab_cache_alloc-takes}
use fusioncore.Libk.Malloc.{
  sizeof_metadata, get_slab_cache_index, write_metadata, block_of, malloc, free,
}
use fusioncore.Libk.Malloc.Blocks.{free-aligned, index_small, cache_found}
use fusioncore.Libk.Malloc.Heap.{IsHeap, heap_sizes}

size_at : (i : ℕ) → i < 8 → (s : ℕ) × (get_elem? heap_sizes i ≡ some s) × (4 ≤ s) × (s ≤ 512)
size_at zero less = (4, refl, omega arith, omega arith)
size_at (suc zero) less = (8, refl, omega arith, omega arith)
size_at (suc (suc zero)) less = (16, refl, omega arith, omega arith)
size_at (suc (suc (suc zero))) less = (32, refl, omega arith, omega arith)
size_at (suc (suc (suc (suc zero)))) less = (64, refl, omega arith, omega arith)
size_at (suc (suc (suc (suc (suc zero))))) less = (128, refl, omega arith, omega arith)
size_at (suc (suc (suc (suc (suc (suc zero)))))) less = (256, refl, omega arith, omega arith)
size_at (suc (suc (suc (suc (suc (suc (suc zero))))))) less = (512, refl, omega arith, omega arith)
size_at (suc (suc (suc (suc (suc (suc (suc (suc i)))))))) less = absurd (omega arith)

first_of_some : (page k : ℕ) → 0 < k → first_of page k ≡ page
first_of_some page zero pos = absurd (omega arith)
first_of_some page (suc k) pos = refl

not_empty : (size : ℕ) → 4 ≤ size → size ≤ 512 → 0 < count_max size
not_empty size low high =
    let pos : 0 < size = omega arith in
    (le-div_iff_mul-le {k = size} {x = 1} {y = page_size - sizeof_cache} pos).1 (omega arith)

-- The first object of a cache at home.
first_object :
    (size cache fuel : ℕ) (m : Machine) (home : Home size cache m)
    → 4 ≤ size
    → size ≤ 512
    → (after : Memory) × (slab_cache_alloc (suc fuel) cache slab_panic m
        ≡ done home.page (record m { mem = after }))
first_object size cache fuel m home low high =
    let ready : Ready cache (slab_of home.page) m.mem = record {
      cache_exists = home.exists;
      slab_exists = omega arith;
      slab_small = let low = home.low in omega arith;
      apart = let apart = home.room.cache_apart in ground arith;
      head_word = home.head;
    } in
    (
      _,
      slab_cache_alloc-takes cache (slab_of home.page) fuel slab_panic m home.page ready
          (home.filling.head_word
            ∙ first_of_some home.page (count_max size) (not_empty size low high))
          (let pos = home.room.page_exists in omega arith),
    )

-- What the first block of a heap comes to: where it is, and what its return does.
pub record FirstBlock (fuel fuel' size : ℕ) (caches : List ℕ) (m : Machine) : Type 0 where
  pub cache : ℕ
  pub page : ℕ
  pub found : get_elem? caches (get_slab_cache_index (size + sizeof_metadata)) ≡ some cache
  pub slab_word : word m.mem (cache_slabs_head cache) ≡ slab_of page
  pub in_use : InUse m.pmm page
  pub given : Memory
  pub gives : malloc fuel caches size m ≡ done (block_of page) (record m { mem = given })
  pub returned : Pmm
  pub returns :
      free fuel' caches (block_of page) (record m { mem = given })
      ≡ done tt (record { mem = given; pmm = returned })
  pub lost :
      (j : ℕ)
      → page / page_size ≤ j
      → j < page / page_size + get_slab_cache_index (size + sizeof_metadata)
      → is_set returned.bitmap j ≡ false

-- On a heap as malloc_heap_init leaves it, with a well-formed allocator and room for seven pages
-- behind the top, malloc of at most 510 bytes returns the block in the first object of the cache
-- that the size names, which starts the page of the cache's slab; free of that block does not give
-- it back to its cache but marks as free as many pages from there on as the cache's index says.
pub free-malloc_fresh :
    (fuel fuel' size : ℕ) (caches : List ℕ) (m : Machine)
    → IsPmm m.pmm
    → Roomy 7 m.pmm
    → IsHeap caches m
    → size ≤ 510
    → FirstBlock (suc fuel) fuel' size caches m
unfolding malloc write_metadata pmm_free
free-malloc_fresh fuel fuel' size caches m valid room heap small =
    let i = get_slab_cache_index (size + sizeof_metadata) in
    let few : i < 8 = index_small (size + sizeof_metadata) in
    let (s, at, low, high) = size_at i few in
    let (cache, found, home) = heap.homes i s at in
    let (taken, got) = first_object s cache fuel m home low high in
    let given = store 2 taken home.page i in
    let same_index : u64 (size + sizeof_metadata) ≡ size + sizeof_metadata = omega arith in
    let below = home.below_top in
    let (returned, freed, marked, counted) =
      pmm_free-Marked home.page i m.pmm valid.valid
        (omega (arith, room.0), omega (arith, room.1)) in
    record {
      cache = cache;
      page = home.page;
      found = found;
      slab_word = home.head;
      in_use = home.page_used;
      given = given;
      gives =
          rw
            (
              if-true (leb size 512) _ _ (ground arith),
              same_index,
              cache_found caches i cache m found,
              got,
            )
            refl;
      returned = returned;
      returns =
          free-aligned fuel' caches home.page i (record m { mem = given }) home.low home.page_start
            (load-store_self 2 taken home.page i ∙ omega arith)
          ∙ ap (λ o. from_pmm (Option.map (λ p. (tt, p)) o) (record m { mem = given })) freed;
      lost = λ j from to. ground (arith, marked.filled.bits j);
    }
