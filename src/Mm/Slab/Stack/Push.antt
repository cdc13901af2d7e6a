-- ===== src/Mm/Slab/Stack/Push.antt =====
-- fckrnl/mm/slab.c: `slab_cache_free` on a cache of one slab.
use fusioncore.Base.{
  ℕ, suc, ◌+◌, ◌^◌, ◌<◌, ◌≡◌, refl, sym, ap, ◌∙◌, subst, inl, arith, u64, List, [], ◌∷◌, length,
  if◌then◌else◌, ltb, true, lt→ltb,
}
use fusioncore.Machine.{Cmd, Machine, done, ◌>>=◌, ◌>>◌, read64, write64}
use fusioncore.Machine.Bytes.{Memory}
use fusioncore.Machine.Laws.{word, put, word-put_apart, words}
use fusioncore.Mm.Phys.History.{elem}
use fusioncore.Mm.Slab.Layout.{
  bufctl_next, bufctl_ptr, slab_bufctl_count, slab_freelist_head, cache_slabs,
  cache_bufctl_count_max, sizeof_cache, sizeof_slab,
}
use fusioncore.Mm.Slab.Objects.{Apart, put_object-done, relinked}
use fusioncore.Mm.Slab.Cache.{advance, slab_cache_free, free_walk, put_object}
use fusioncore.Machine.Steps.{after_test, after_pointer}
use fusioncore.Mm.Slab.Stack.{
  IsObject, FreeList, IsStack, FreeList-small, rewound, cursor_rewound, slab_rewound,
}

module _ (cache slab max : ℕ) where
  -- Memory after an object is put on top.
  abbrev pub pushed : Memory → ℕ → ℕ → ℕ → Memory
  pushed mem ptr top n =
      relinked (put (put (rewound cache slab max mem) (bufctl_next ptr) top) (bufctl_ptr ptr) ptr)
        slab ptr n

  pushed-object :
      (mem : Memory) (ptr top n y : ℕ)
      → Apart cache sizeof_cache slab sizeof_slab
      → Apart ptr 16 y 16
      → IsObject cache slab y
      → word (pushed mem ptr top n) y ≡ word mem y
  pushed-object mem ptr top n y apart off object =
      let off_cache = object.off_cache in let off_slab = object.off_slab in grind words

  pushed-list :
      (mem : Memory) (ptr top n a : ℕ) (xs : List ℕ)
      → Apart cache sizeof_cache slab sizeof_slab
      → ((y : ℕ) → elem y xs ≡ true → Apart ptr 16 y 16)
      → FreeList cache slab mem a xs
      → FreeList cache slab (pushed mem ptr top n) a xs
  unfolding FreeList
  pushed-list mem ptr top n a [] apart off list = list
  pushed-list mem ptr top n a (x ∷ xs) apart off (at, object, rest) =
      let same = pushed-object mem ptr top n x apart (off x (ground arith)) object in
      (
        at,
        object,
        subst (λ b. FreeList cache slab (pushed mem ptr top n) b xs) (sym same)
            (pushed-list mem ptr top n (word mem x) xs apart (λ y mine. off y (ground arith)) rest),
      )

  pub push-IsStack :
      (mem : Memory) (ptr : ℕ) (xs : List ℕ)
      → length xs + 1 < 2 ^ 64
      → IsObject cache slab ptr
      → ((y : ℕ) → elem y xs ≡ true → Apart ptr 16 y 16)
      → IsStack cache slab max xs mem
      → IsStack cache slab max
          (ptr ∷ xs)
          (pushed mem ptr (word mem (slab_freelist_head slab)) (suc (length xs)))
  unfolding FreeList
  push-IsStack mem ptr xs fits object off stack =
      let top = word mem (slab_freelist_head slab) in
      let after = pushed mem ptr top (suc (length xs)) in
      let apart = stack.apart in
      let small = stack.slab_small in
      let ptr_small = object.small in
      let off_cache = object.off_cache in
      let off_slab = object.off_slab in
      let top_small = FreeList-small cache slab top xs mem stack.list in
      let linked : word after ptr ≡ top = grind words in
      record {
        cache_exists = stack.cache_exists;
        slab_exists = stack.slab_exists;
        slab_small = stack.slab_small;
        apart = stack.apart;
        head_word = grind (words, stack.head_word);
        max_word = grind (words, stack.max_word);
        next_word = grind (words, stack.next_word);
        count_word = grind words;
        list = (
          grind words,
          object,
          subst (λ b. FreeList cache slab after b xs) (sym linked)
              (pushed-list mem ptr top (suc (length xs)) top xs apart off stack.list),
        );
      }

  -- What the walk of `slab_cache_free` does at a slab.
  abbrev at_slab : ℕ → ℕ → ℕ → ℕ → Cmd (Unit {0})
  at_slab fuel flags ptr s = do
    count ← read64 (slab_bufctl_count s)
    most ← read64 (cache_bufctl_count_max cache)
    if ltb count most
        then put_object cache ptr
        else (do advance cache; free_walk fuel cache ptr flags)

  pub slab_cache_free-pushes :
      (fuel flags : ℕ) (m : Machine) (ptr : ℕ) (xs : List ℕ)
      → length xs + 1 < 2 ^ 64
      → length xs < max
      → IsObject cache slab ptr
      → IsStack cache slab max xs m.mem
      → slab_cache_free (suc fuel) cache ptr flags m
        ≡ done tt (record m {
          mem = pushed m.mem ptr (word m.mem (slab_freelist_head slab)) (suc (length xs));
        })
  unfolding slab_cache_free free_walk read64 write64
  slab_cache_free-pushes fuel flags m ptr xs fits less object stack =
      let m0 : Machine = record m { mem = rewound cache slab max m.mem } in
      let apart = stack.apart in
      let cursor = cursor_rewound cache slab max m.mem xs stack in
      let count : word (rewound cache slab max m.mem) (slab_bufctl_count slab) ≡ length xs =
        slab_rewound cache slab max m.mem xs stack (slab_bufctl_count slab) (omega arith)
          (omega arith)
        ∙ stack.count_word in
      let most : word (rewound cache slab max m.mem) (cache_bufctl_count_max cache) ≡ max =
        word-put_apart m.mem (cache_slabs cache) slab (cache_bufctl_count_max cache)
          (inl (omega arith))
        ∙ stack.max_word in
      let top =
        slab_rewound cache slab max m.mem xs stack (slab_freelist_head slab) (omega arith)
          (omega arith) in
      let more : u64 (length xs + 1) ≡ suc (length xs) = omega arith in
      after_test cache _ _ m stack.cache_exists
      ∙ ap
          (λ h.
            free_walk (suc fuel) cache ptr flags
              (record m { mem = put m.mem (cache_slabs cache) h }))
          stack.head_word
      ∙ after_pointer (read64 (cache_slabs cache)) _ (at_slab fuel flags ptr) slab m0 m0
          (ap (λ a. done a m0) cursor) stack.slab_exists
      ∙ rw (count, most, lt→ltb (length xs) max less)
          (put_object-done cache slab apart ptr object.off_cache object.off_slab m0 cursor
            ∙ rw (top, count, more) refl)
