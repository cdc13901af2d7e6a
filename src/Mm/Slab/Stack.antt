-- ===== src/Mm/Slab/Stack.antt =====
-- fckrnl/mm/slab.c: the view of a cache of one slab as a stack of objects.
pub mod Take
pub mod Pop
pub mod Push
use fusioncore.Base.{
  ℕ, suc, ◌+◌, ◌^◌, ◌≤◌, ◌<◌, ◌≡◌, ◌≢◌, refl, sym, ap, ◌∙◌, subst, inl, arith, u64, sub64, List, [],
  ◌∷◌, length, not, ◌==◌, ==_ne, if◌then◌else◌, ltb, true, lt→ltb,
}
use fusioncore.Machine.{Cmd, Machine, done, ◌>>=◌, ◌>>◌, read64, write64}
use fusioncore.Machine.Bytes.{Memory}
use fusioncore.Machine.Laws.{word, put, word-put_self, word-put_apart, words}
use fusioncore.Mm.Phys.History.{elem}
use fusioncore.Mm.Slab.Layout.{
  bufctl_next, bufctl_ptr, slab_next, slab_bufctl_count, slab_freelist_head, cache_slabs,
  cache_slabs_head, cache_bufctl_count_max, sizeof_cache, sizeof_slab,
}
use fusioncore.Mm.Slab.Objects.{Apart, take_object-done, put_object-done, relinked}
use fusioncore.Mm.Slab.Cache.{
  advance, slab_cache_alloc, slab_cache_free, alloc_walk, free_walk, take_object, put_object,
}

-- An object that overlaps neither the cache nor the slab's head.
pub record IsObject (cache slab x : ℕ) : Type 0 where
  pub exists : x ≢ 0
  pub small : x < 2 ^ 64
  pub off_cache : Apart x 16 cache sizeof_cache
  pub off_slab : Apart x 16 slab sizeof_slab

-- From `a` on, memory links exactly the objects `xs`.
unfoldable pub FreeList : ℕ → ℕ → Memory → ℕ → List ℕ → Type 0
FreeList cache slab mem a [] = a ≡ 0
FreeList cache slab mem a (x ∷ xs) =
    (a ≡ x) × IsObject cache slab x × FreeList cache slab mem (word mem x) xs

pub record IsStack (cache slab max : ℕ) (xs : List ℕ) (mem : Memory) : Type 0 where
  pub cache_exists : cache ≢ 0
  pub slab_exists : slab ≢ 0
  pub slab_small : slab < 2 ^ 64
  pub apart : Apart cache sizeof_cache slab sizeof_slab
  pub head_word : word mem (cache_slabs_head cache) ≡ slab
  pub max_word : word mem (cache_bufctl_count_max cache) ≡ max
  pub next_word : word mem (slab_next slab) ≡ 0
  pub count_word : word mem (slab_bufctl_count slab) ≡ length xs
  pub list : FreeList cache slab mem (word mem (slab_freelist_head slab)) xs

-- A list keeps where the first words of its objects do.
pub FreeList-keeps :
    (cache slab a : ℕ) (xs : List ℕ) (mem mem' : Memory)
    → ((x : ℕ) → IsObject cache slab x → word mem' x ≡ word mem x)
    → FreeList cache slab mem a xs
    → FreeList cache slab mem' a xs
unfolding FreeList
FreeList-keeps cache slab a [] mem mem' same list = list
FreeList-keeps cache slab a (x ∷ xs) mem mem' same (at, object, rest) = (
  at,
  object,
  subst (λ n. FreeList cache slab mem' n xs) (sym (same x object))
      (FreeList-keeps cache slab (word mem x) xs mem mem' same rest),
)

-- The list starts with 0 or an object, so it fits a word.
pub FreeList-small :
    (cache slab a : ℕ) (xs : List ℕ) (mem : Memory) → FreeList cache slab mem a xs → a < 2 ^ 64
unfolding FreeList
FreeList-small cache slab a [] mem list = omega (arith, list)
FreeList-small cache slab a (x ∷ xs) mem (at, object, rest) = omega (arith, at, object.small)

module _ (cache slab max : ℕ) where
  -- Memory with the cursor at the slab.
  abbrev pub rewound : Memory → Memory
  rewound mem = put mem (cache_slabs cache) slab

  -- What the walk reads once the cursor is at the slab.
  module _ (mem : Memory) (xs : List ℕ) (stack : IsStack cache slab max xs mem) where
    pub cursor_rewound : word (rewound mem) (cache_slabs cache) ≡ slab
    cursor_rewound = let small = stack.slab_small in grind words

    pub slab_rewound :
        (c : ℕ) → slab ≤ c → c + 8 ≤ slab + sizeof_slab → word (rewound mem) c ≡ word mem c
    slab_rewound c low high = let apart = stack.apart in grind words
