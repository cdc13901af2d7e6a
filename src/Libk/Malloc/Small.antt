-- ===== src/Libk/Malloc/Small.antt =====
-- fckrnl/libk/malloc.c: a small block from a cache of one slab, and back.
use fusioncore.Base.{
  ℕ, suc, ◌+◌, ◌%◌, ◌^◌, ◌≤◌, ◌<◌, ◌≡◌, ◌≢◌, refl, sym, ◌∙◌, subst, some, List, [], ◌∷◌, length,
  arith, leb, true, if-true, ==_ne, get_elem?, u64,
}
use fusioncore.Base.Bits.{bit_and_mask}
use fusioncore.Machine.{Machine, done, ◌>>=◌}
use fusioncore.Machine.Bytes.{Memory, load, store, load-store_self, load-store_apart}
use fusioncore.Machine.Laws.{word}
use fusioncore.Mm.Memmap.{page_size}
use fusioncore.Mm.Phys.History.{elem}
use fusioncore.Mm.Slab.Layout.{slab_panic, slab_freelist_head}
use fusioncore.Mm.Slab.Objects.{Apart}
use fusioncore.Mm.Slab.Cache.{slab_cache_free}
use fusioncore.Mm.Slab.Stack.{IsObject, FreeList, IsStack}
use fusioncore.Mm.Slab.Stack.Pop.{popped, slab_cache_alloc-pops, pop-IsStack}
use fusioncore.Mm.Slab.Stack.Push.{pushed, slab_cache_free-pushes, push-IsStack}
use fusioncore.Libk.Malloc.{
  sizeof_metadata, get_slab_cache_index, read_metadata, write_metadata, block_of, malloc, free,
}
use fusioncore.Libk.Malloc.Blocks.{header_of_block, block-ne-zero, index_small, cache_found}

FreeList-same :
    (cache slab a : ℕ) (xs : List ℕ) (mem mem' : Memory)
    → ((y : ℕ) → elem y xs ≡ true → word mem' y ≡ word mem y)
    → FreeList cache slab mem a xs
    → FreeList cache slab mem' a xs
unfolding FreeList
FreeList-same cache slab a [] mem mem' same list = list
FreeList-same cache slab a (x ∷ xs) mem mem' same (at, object, rest) = (
  at,
  object,
  subst (λ b. FreeList cache slab mem' b xs) (sym (same x (ground arith)))
      (FreeList-same cache slab (word mem x) xs mem mem' (λ y mine. same y (ground arith)) rest),
)

module _ (cache slab max x : ℕ) (xs : List ℕ) (object : IsObject cache slab x)
    (off : (y : ℕ) → elem y xs ≡ true → Apart x 16 y 16) where
  -- Writing a block's header into an object that is out leaves the stack.
  header-IsStack :
      (mem : Memory) (v : ℕ)
      → IsStack cache slab max xs mem
      → IsStack cache slab max xs (store 2 mem x v)
  header-IsStack mem v stack =
      let off_cache = object.off_cache in
      let off_slab = object.off_slab in
      record {
        cache_exists = stack.cache_exists;
        slab_exists = stack.slab_exists;
        slab_small = stack.slab_small;
        apart = stack.apart;
        head_word = load-store_apart 8 2 mem _ x v (ground arith) ∙ stack.head_word;
        max_word = load-store_apart 8 2 mem _ x v (ground arith) ∙ stack.max_word;
        next_word = load-store_apart 8 2 mem _ x v (ground arith) ∙ stack.next_word;
        count_word = load-store_apart 8 2 mem _ x v (ground arith) ∙ stack.count_word;
        list =
            subst (λ a. FreeList cache slab (store 2 mem x v) a xs)
              (sym (load-store_apart 8 2 mem (slab_freelist_head slab) x v (ground arith)))
              (FreeList-same cache slab (word mem (slab_freelist_head slab)) xs mem
                (store 2 mem x v)
                (λ y mine. load-store_apart 8 2 mem y x v (let o = off y mine in ground arith))
                stack.list);
      }

  -- A block whose header is not at a page's start goes back to the cache that its header names.
  free-object :
      (fuel index : ℕ) (caches : List ℕ) (m : Machine)
      → x < 2 ^ 46
      → x % page_size ≢ 0
      → get_elem? caches index ≡ some cache
      → load 2 m.mem x ≡ index
      → free fuel caches (block_of x) m ≡ slab_cache_free fuel cache x slab_panic m
  unfolding free read_metadata
  free-object fuel index caches m small inside found header =
      rw
        (
          ==_ne (block_of x) 0 (block-ne-zero x small),
          header_of_block x (omega arith),
          bit_and_mask 12 x,
          ==_ne (x % page_size) 0 inside,
          header,
          cache_found caches index cache m found,
        )
        refl

  -- free of a block of at most 512 bytes gives back the object that malloc took, and the cache that
  -- the size names has the objects of before in the order of before, if that cache has one slab
  -- with fewer objects on its list behind the first than the cache counts, and the first object
  -- lies below 2^46, does not start a page, and overlaps neither the others, which are fewer than
  -- 2^64 - 1, nor the cache or the slab's head.
  pub free-malloc_small :
      (fuel fuel' size : ℕ) (caches : List ℕ) (m : Machine)
      → size ≤ 512
      → get_elem? caches (get_slab_cache_index (size + sizeof_metadata)) ≡ some cache
      → x < 2 ^ 46
      → x % page_size ≢ 0
      → length xs + 1 < 2 ^ 64
      → length xs < max
      → IsStack cache slab max (x ∷ xs) m.mem
      → (after : Memory) × ((malloc (suc fuel) caches size >>= free (suc fuel') caches) m
          ≡ done tt (record m { mem = after }))
        × IsStack cache slab max (x ∷ xs) after
  unfolding malloc write_metadata
  free-malloc_small fuel fuel' size caches m few found low inside fits less stack =
      let index = get_slab_cache_index (size + sizeof_metadata) in
      let mem1 = popped cache slab max m.mem (word m.mem x) (length xs) in
      let mem2 = store 2 mem1 x index in
      let m2 : Machine = record m { mem = mem2 } in
      let stack2 = header-IsStack mem1 index (pop-IsStack cache slab max m.mem x xs fits stack) in
      let same_index : u64 (size + sizeof_metadata) ≡ size + sizeof_metadata = omega arith in
      (
        pushed cache slab max mem2 x (word mem2 (slab_freelist_head slab)) (suc (length xs)),
        rw
            (
              if-true (leb size 512) _ _ (ground arith),
              same_index,
              cache_found caches index cache m found,
              slab_cache_alloc-pops cache slab max fuel slab_panic m x xs fits stack,
            )
            (free-object (suc fuel') index caches m2 low inside found (
                load-store_self 2 mem1 x index
                ∙ omega (arith, index_small (size + sizeof_metadata)))
              ∙ slab_cache_free-pushes cache slab max fuel' slab_panic m2 x xs fits less object
                  stack2),
        push-IsStack cache slab max mem2 x xs fits object off stack2,
      )
