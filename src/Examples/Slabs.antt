-- ===== src/Examples/Slabs.antt =====
-- A cache of 32-byte objects, and calls on it.
use fusioncore.Base.{◌≤◌, ℕ, ◌+◌, ◌≡◌, refl, true, some, List, [], ◌∷◌, arith, inl, inr, get_elem?}
use mathlib.Core.Bool.{false≢true}
use fusioncore.Machine.{Machine, done, ◌>>=◌}
use fusioncore.Machine.Bytes.{Memory, load}
use fusioncore.Examples.Holding.{holding}
use fusioncore.Mm.Slab.Stack.{IsObject, FreeList, IsStack}
use fusioncore.Libk.Malloc.{sizeof_metadata, get_slab_cache_index, malloc, free}
use fusioncore.Libk.Malloc.Small.{free-malloc_small}
use fusioncore.Mm.Memmap.{page_size}
use fusioncore.Mm.Slab.Stock.Tight.{two_objects, torn_link, slab_cache_create-torn}
use fusioncore.Examples.Space.{blank, pages, pages-IsPmm, pages-HasFree}
use fusioncore.Mm.Phys.Free.{HasFree-fewer}
use fusioncore.Mm.Phys.History.{Request, want, give}
use fusioncore.Mm.Slab.{is_power_of_two}
use fusioncore.Mm.Slab.Serve.All.{Served, slab_cache_create-Served}
use fusioncore.Mm.Slab.Serve.{objects_from}
use fusioncore.Mm.Slab.Serve.Promise.{share_all}

abbrev requests : List Request
requests = want ∷ want ∷ give 0x3000 ∷ want ∷ want ∷ []

size_holds : is_power_of_two 32 ≡ true
unfolding is_power_of_two
size_holds = refl

slab_cache_create-Served_example : Served 0x100 32 1 requests blank
slab_cache_create-Served_example =
    slab_cache_create-Served 0x100 32 1 requests blank pages-IsPmm
      (HasFree-fewer (HasFree-fewer (HasFree-fewer (HasFree-fewer pages-HasFree)))) (omega arith)
      (omega arith) size_holds

-- The promise of these requests: the first object is given out again, and then the third.
requests-held :
    (share_all requests (record { free = objects_from 0x3000 32 0 126; held = [] })).held
    ≡ 0x3040 ∷ 0x3000 ∷ 0x3020 ∷ []
requests-held = refl

-- A cache at 0x100 with one object, 0x1020, whose slab's head is at 0x1fe0.
abbrev heap : Machine
heap = record {
  mem = holding (
      (0x110, 2)
      ∷ (0x118, 0xe0)
      ∷ (0x119, 0x1f)
      ∷ (0x1fe8, 1)
      ∷ (0x1ff0, 0x20)
      ∷ (0x1ff1, 0x10)
      ∷ []);
  pmm = pages;
}

block-IsObject : IsObject 0x100 0x1fe0 0x1020
block-IsObject = record {
  exists = omega arith;
  small = omega arith;
  off_cache = inr (omega arith);
  off_slab = inl (omega arith);
}

heap-IsStack : IsStack 0x100 0x1fe0 2 (0x1020 ∷ []) heap.mem
unfolding load FreeList
heap-IsStack = record {
  cache_exists = omega arith;
  slab_exists = omega arith;
  slab_small = omega arith;
  apart = inl (omega arith);
  head_word = refl;
  max_word = refl;
  next_word = refl;
  count_word = refl;
  list = (refl, block-IsObject, refl);
}

abbrev fourth : List ℕ
fourth = 0 ∷ 0 ∷ 0 ∷ 0x100 ∷ []

fourth_found : get_elem? fourth (get_slab_cache_index (20 + sizeof_metadata)) ≡ some 0x100
unfolding get_slab_cache_index
fourth_found = refl

free-malloc_small_example :
    (after : Memory) × ((malloc 1 fourth 20 >>= free 1 fourth) heap
      ≡ done tt (record heap { mem = after }))
    × IsStack 0x100 0x1fe0 2 (0x1020 ∷ []) after
free-malloc_small_example =
    free-malloc_small 0x100 0x1fe0 2 0x1020 [] block-IsObject (λ y mine. absurd (false≢true mine)) 0
      0 20 fourth heap (omega arith) fourth_found (omega arith) (omega arith) (omega arith)
      (omega arith) heap-IsStack

slab_cache_create-torn_example :
    (page : ℕ) × (m' : Machine) × (two_objects 0x100 4 1 blank ≡ done (page, torn_link page) m')
    × (page + page_size ≤ torn_link page)
slab_cache_create-torn_example =
    slab_cache_create-torn 0x100 1 blank pages-IsPmm
      (HasFree-fewer (HasFree-fewer (HasFree-fewer (HasFree-fewer pages-HasFree)))) (omega arith)
