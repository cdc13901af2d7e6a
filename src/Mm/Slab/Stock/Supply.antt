-- ===== src/Mm/Slab/Stock/Supply.antt =====
-- fckrnl/mm/slab.c: `slab_cache_grow` on an empty cache, from the allocator's answer to the list of
-- free objects.
use fusioncore.Base.{ℕ, ◌+◌, ◌*◌, ◌<◌, ◌≤◌, suc, ◌≡◌, ◌≢◌, refl, ap, ◌∙◌, arith, some, ==_ne}
use fusioncore.Machine.{Machine, done, read64, write64}
use fusioncore.Machine.Steps.{after_pointer, after_call, after_test}
use fusioncore.Machine.Bytes.{Memory}
use fusioncore.Machine.Laws.{word, put, word-put_apart, words}
use fusioncore.Mm.Memmap.{page_size}
use fusioncore.Mm.Slab.Objects.{Apart}
use fusioncore.Mm.Phys.{Pmm, pmm_alloc}
use fusioncore.Mm.Zeroed.Cleared.{pmm_allocz-clears}
use fusioncore.Mm.Slab.{
  slab_create_bufctl, slab_create_slab, init_bufctls, grow_slabs, slab_cache_grow,
}
use fusioncore.Mm.Slab.Layout.{
  bufctl_next, cache_slab_size, cache_bufctl_count_max, cache_slabs, cache_slabs_head,
}
use fusioncore.Mm.Slab.Stock.{Room, Filling, slab_of, object_at, extended, off_page, of_cache}
use fusioncore.Mm.Slab.Stock.Linked.{init_bufctls-Filling}
use fusioncore.Mm.Slab.Stock.Grown.{
  Bare, headed, small_count, slab_create_slab-heads, headed-Filling, kept_word, zero_word_behind,
  cleared-Bare,
}

module _ (cache page size count : ℕ) (room : Room cache page size count) where
  -- A call of `slab_create_bufctl` that is given `page`.
  created :
      (m : Machine) (p : Pmm)
      → pmm_alloc 1 m.pmm ≡ some (page, p)
      → Bare cache size count m.mem
      → (after : Memory) × (slab_create_bufctl m ≡ done page (record { mem = after; pmm = p }))
        × Bare cache size count after
        × (16 ≤ size → (i : ℕ) → i < count → word after (page + size * i) ≡ 0)
        × ((c : ℕ) → Apart c 8 page page_size → word after c ≡ word m.mem c)
  unfolding slab_create_bufctl write64
  created m p got bare =
      let (cleared, cleared_by, clears) = pmm_allocz-clears 1 m page p got in
      (
        put cleared (bufctl_next page) 0,
        rw (cleared_by, ==_ne page 0 (let e = room.page_exists in ground arith)) refl,
        cleared-Bare cache page size count room m.mem cleared clears bare,
        zero_word_behind cache page size count room m.mem cleared clears,
        λ c apart.
            off_page cache page size count room cleared page 0 c (omega arith) (omega arith) apart
            ∙ kept_word cache page size count room m.mem cleared clears c apart,
      )

  -- The words outside the page and the cache's two pointers to slabs.
  headed-keeps :
      (mem : Memory) (c : ℕ)
      → Apart c 8 page page_size
      → Apart c 8 (cache_slabs_head cache) 16
      → word (headed cache page count mem) c ≡ word mem c
  headed-keeps mem c off_page off_cache = grind words

  rewound-Bare :
      (mem : Memory)
      → word mem (cache_slab_size cache) ≡ size
      → word mem (cache_bufctl_count_max cache) ≡ count
      → Bare cache size count (put mem (cache_slabs cache) 0)
  rewound-Bare mem size_word count_word = record {
    size_word = grind (words, size_word);
    count_word = grind (words, count_word);
    cursor_word = grind words;
  }

  module _ (Holds : ℕ → Memory → Type 0)
      (start : (mem : Memory)
        → Bare cache size count mem
        → (16 ≤ size → (i : ℕ) → i < count → word mem (object_at page size i) ≡ 0)
        → Holds 0 (headed cache page count mem))
      (next : (mem : Memory) (k : ℕ)
        → k < count
        → Holds k mem
        → Holds (suc k) (extended page size mem k)) where
    pub slab_cache_grow-Filling :
        (flags : ℕ) (m : Machine) (p : Pmm)
        → cache ≢ 0
        → word m.mem (cache_slab_size cache) ≡ size
        → word m.mem (cache_bufctl_count_max cache) ≡ count
        → word m.mem (cache_slabs_head cache) ≡ 0
        → pmm_alloc 1 m.pmm ≡ some (page, p)
        → (after : Memory) × (slab_cache_grow cache 1 flags m
            ≡ done tt (record { mem = after; pmm = p }))
          × Filling cache page size count count after
          × Holds count after
          × (word after (cache_slabs_head cache) ≡ slab_of page)
          × ((c : ℕ)
              → Apart c 8 page page_size
              → Apart c 8 (cache_slabs_head cache) 16
              → word after c ≡ word m.mem c)
    unfolding slab_cache_grow grow_slabs read64 write64
    slab_cache_grow-Filling flags m p exists size_word count_word head_word got =
        let mem0 = put m.mem (cache_slabs cache) 0 in
        let (mem1, created_by, bare, zeros, keeps1) =
          created (record { mem = mem0; pmm = m.pmm }) p got
            (rewound-Bare m.mem size_word count_word) in
        let made = headed cache page count mem1 in
        let (after, linked_by, filled, held, keeps2) =
          init_bufctls-Filling cache page size count room Holds next 4097 0
            (record { mem = made; pmm = p }) (omega arith)
            (omega (arith, small_count cache page size count room))
            (headed-Filling cache page size count room mem1 bare) (start mem1 bare zeros) in
        (
          after,
          after_test cache _ _ m exists
              ∙ ap
                  (λ h.
                    grow_slabs 1 cache flags (record m { mem = put m.mem (cache_slabs cache) h }))
                  head_word
              ∙ after_pointer slab_create_bufctl _ _ page (record { mem = mem0; pmm = m.pmm })
                  (record { mem = mem1; pmm = p }) created_by
                  (let e = room.page_exists in ground arith)
              ∙ after_call (slab_create_slab cache page) _ (record { mem = mem1; pmm = p })
                  (record { mem = made; pmm = p })
                  (slab_create_slab-heads cache page size count room mem1 bare p)
              ∙ after_call (init_bufctls 4097 cache page 0) _ (record { mem = made; pmm = p })
                  (record { mem = after; pmm = p }) linked_by,
          filled,
          held,
          keeps2 (cache_slabs_head cache) (
                of_cache cache page size count room (cache_slabs_head cache) (omega arith)
                  (omega arith))
              ∙ (let small = room.page_small in grind words),
          λ c off_page off_cache.
              keeps2 c off_page
              ∙ headed-keeps mem1 c off_page off_cache
              ∙ keeps1 c off_page
              ∙ word-put_apart m.mem (cache_slabs cache) 0 c (ground arith),
        )
