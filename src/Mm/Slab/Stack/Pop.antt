-- ===== src/Mm/Slab/Stack/Pop.antt =====
-- fckrnl/mm/slab.c: `slab_cache_alloc` on a cache of one slab, with and without a free object.
use fusioncore.Base.{
  ℕ, suc, ◌+◌, ◌^◌, ◌<◌, ◌≡◌, refl, sym, ap, ◌∙◌, subst, arith, sub64, List, [], ◌∷◌, length,
}
use fusioncore.Machine.{Machine, done, ◌>>=◌, read64, write64}
use fusioncore.Machine.Bytes.{Memory}
use fusioncore.Machine.Laws.{word, put, word-put_self, word-put_apart, words}
use fusioncore.Mm.Slab.Layout.{
  slab_next, slab_bufctl_count, slab_freelist_head, cache_slabs, sizeof_cache, sizeof_slab,
}
use fusioncore.Mm.Slab.Objects.{Apart, relinked}
use fusioncore.Mm.Slab.Cache.{slab_cache_alloc, alloc_walk}
use fusioncore.Machine.Steps.{after_test, after_pointer}
use fusioncore.Mm.Slab.Stack.Take.{at_object, slab_cache_alloc-takes}
use fusioncore.Mm.Slab.Stack.{
  IsObject, FreeList, IsStack, FreeList-keeps, FreeList-small, rewound, cursor_rewound,
  slab_rewound,
}

module _ (cache slab max : ℕ) where
  -- Memory after the top object is taken.
  abbrev pub popped : Memory → ℕ → ℕ → Memory
  popped mem next n = relinked (rewound cache slab max mem) slab next n

  popped-object :
      (mem : Memory) (next n y : ℕ)
      → Apart cache sizeof_cache slab sizeof_slab
      → IsObject cache slab y
      → word (popped mem next n) y ≡ word mem y
  popped-object mem next n y apart object =
      let off_cache = object.off_cache in let off_slab = object.off_slab in grind words

  pub pop-IsStack :
      (mem : Memory) (x : ℕ) (xs : List ℕ)
      → length xs + 1 < 2 ^ 64
      → IsStack cache slab max (x ∷ xs) mem
      → IsStack cache slab max xs (popped mem (word mem x) (length xs))
  unfolding FreeList
  pop-IsStack mem x xs fits stack =
      let apart = stack.apart in
      let small = stack.slab_small in
      let (at, object, rest) = stack.list in
      let next_small = FreeList-small cache slab (word mem x) xs mem rest in
      let kept =
        FreeList-keeps cache slab (word mem x) xs mem (popped mem (word mem x) (length xs))
          (λ y is_object. popped-object mem (word mem x) (length xs) y apart is_object) rest in
      let top : word (popped mem (word mem x) (length xs)) (slab_freelist_head slab) ≡ word mem x =
        grind words in
      record {
        cache_exists = stack.cache_exists;
        slab_exists = stack.slab_exists;
        slab_small = stack.slab_small;
        apart = stack.apart;
        head_word = grind (words, stack.head_word);
        max_word = grind (words, stack.max_word);
        next_word = grind (words, stack.next_word);
        count_word = grind words;
        list =
            subst (λ a. FreeList cache slab (popped mem (word mem x) (length xs)) a xs) (sym top)
              kept;
      }

  pub slab_cache_alloc-pops :
      (fuel flags : ℕ) (m : Machine) (x : ℕ) (xs : List ℕ)
      → length xs + 1 < 2 ^ 64
      → IsStack cache slab max (x ∷ xs) m.mem
      → slab_cache_alloc (suc fuel) cache flags m
        ≡ done x (record m { mem = popped m.mem (word m.mem x) (length xs) })
  unfolding slab_cache_alloc alloc_walk read64 write64 FreeList
  slab_cache_alloc-pops fuel flags m x xs fits stack =
      let (at, object, rest) = stack.list in
      let apart = stack.apart in
      let next : word (rewound cache slab max m.mem) x ≡ word m.mem x =
        word-put_apart m.mem (cache_slabs cache) slab x
          (let o = object.off_cache in ground arith) in
      let left : sub64 (word (rewound cache slab max m.mem) (slab_bufctl_count slab)) 1
          ≡ length xs =
        omega (
          arith,
          slab_rewound cache slab max m.mem (x ∷ xs) stack (slab_bufctl_count slab) (omega arith)
              (omega arith),
          stack.count_word,
        ) in
      slab_cache_alloc-takes cache slab fuel flags m x
        (record {
          cache_exists = stack.cache_exists;
          slab_exists = stack.slab_exists;
          slab_small = stack.slab_small;
          apart = apart;
          head_word = stack.head_word;
        })
        at object.exists
      ∙ rw (next, left) refl

  -- An empty cache answers NULL, if it may neither grow nor stop the kernel.
  pub slab_cache_alloc-empty :
      (fuel : ℕ) (m : Machine)
      → IsStack cache slab max [] m.mem
      → slab_cache_alloc (suc (suc fuel)) cache 0 m
        ≡ done 0 (record m { mem = put (rewound cache slab max m.mem) (cache_slabs cache) 0 })
  unfolding slab_cache_alloc alloc_walk read64 write64 FreeList
  slab_cache_alloc-empty fuel m stack =
      let m0 : Machine = record m { mem = rewound cache slab max m.mem } in
      let apart = stack.apart in
      let cursor = cursor_rewound cache slab max m.mem [] stack in
      let top : word (rewound cache slab max m.mem) (slab_freelist_head slab) ≡ 0 =
        slab_rewound cache slab max m.mem [] stack (slab_freelist_head slab) (omega arith)
          (omega arith)
        ∙ stack.list in
      let next : word (rewound cache slab max m.mem) (slab_next slab) ≡ 0 =
        slab_rewound cache slab max m.mem [] stack (slab_next slab) (omega arith) (omega arith)
        ∙ stack.next_word in
      after_test cache _ _ m stack.cache_exists
      ∙ ap
          (λ h.
            alloc_walk (suc (suc fuel)) cache 0
              (record m { mem = put m.mem (cache_slabs cache) h }))
          stack.head_word
      ∙ after_pointer (read64 (cache_slabs cache)) _
          (λ s. read64 (slab_freelist_head s) >>= at_object cache slab (suc fuel) 0) slab m0 m0
          (ap (λ a. done a m0) cursor) stack.slab_exists
      ∙ ap (λ f. at_object cache slab (suc fuel) 0 f m0) top
      ∙ rw
          (
            cursor,
            next,
            word-put_self (rewound cache slab max m.mem) (cache_slabs cache) 0 (omega arith),
          )
          refl

  pub empty-IsStack :
      (mem : Memory)
      → IsStack cache slab max [] mem
      → IsStack cache slab max [] (put (rewound cache slab max mem) (cache_slabs cache) 0)
  unfolding FreeList
  empty-IsStack mem stack =
      let apart = stack.apart in
      record {
        cache_exists = stack.cache_exists;
        slab_exists = stack.slab_exists;
        slab_small = stack.slab_small;
        apart = stack.apart;
        head_word = grind (words, stack.head_word);
        max_word = grind (words, stack.max_word);
        next_word = grind (words, stack.next_word);
        count_word = grind (words, stack.count_word);
        list = grind (words, stack.list);
      }
