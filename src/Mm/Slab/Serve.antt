-- ===== src/Mm/Slab/Serve.antt =====
-- fckrnl/mm/slab.c: a new cache as a stack of its objects, and calls of `slab_cache_alloc` and
-- `slab_cache_free` on it in any order.
pub mod Promise
pub mod Each
pub mod All
use fusioncore.Base.{
  ℕ, zero, suc, ◌+◌, ◌-◌, ◌*◌, ◌^◌, ◌≤◌, ◌<◌, ◌≡◌, ◌≢◌, refl, sym, ap, ◌∙◌, subst, ◌⊎◌, inl, inr,
  arith, List, [], ◌∷◌, length, ◌==◌, Bool, true, false,
}
use fusioncore.Machine.Bytes.{Memory}
use fusioncore.Machine.Laws.{word}
use fusioncore.Mm.Slab.Layout.{cache_slabs_head}
use fusioncore.Mm.Slab.Stock.{Room, Filling, Chain, slab_of, first_of, object_at, inside}
use fusioncore.Mm.Slab.Stock.Described.{count_max}
use fusioncore.Mm.Slab.Stack.{IsObject, FreeList, IsStack}

-- The `n` objects of a page from number `i` on.
abbrev pub objects_from : ℕ → ℕ → ℕ → ℕ → List ℕ
objects_from page size i zero = []
objects_from page size i (suc n) = object_at page size i ∷ objects_from page size (suc i) n

pub length-objects_from : (page size i n : ℕ) → length (objects_from page size i n) ≡ n
length-objects_from page size i zero = refl
length-objects_from page size i (suc n) = ap suc (length-objects_from page size (suc i) n)

module _ (cache page size count : ℕ) (room : Room cache page size count) (roomy : 16 ≤ size) where
  pub object_at-IsObject :
      (i : ℕ) → i < count → IsObject cache (slab_of page) (object_at page size i)
  object_at-IsObject i less =
      let at = inside cache page size count room i less in
      let page_exists = room.page_exists in
      let page_small = room.page_small in
      let apart = room.cache_apart in
      record {
        exists = ground arith;
        small = omega arith;
        off_cache = ground arith;
        off_slab = inl (omega arith);
      }

  module _ (mem : Memory) (filling : Filling cache page size count count mem)
      (chain : Chain page size count count mem) where
    objects_from-FreeList :
        (n i : ℕ)
        → suc i + n ≡ count
        → FreeList cache
            (slab_of page)
            mem
            (object_at page size i)
            (objects_from page size i (suc n))
    unfolding FreeList
    objects_from-FreeList zero i all =
        (refl, object_at-IsObject i (omega arith), chain.ends i (omega arith) (omega arith))
    objects_from-FreeList (suc n) i all = (
      refl,
      object_at-IsObject i (omega arith),
      subst (λ a. FreeList cache (slab_of page) mem a (objects_from page size (suc i) (suc n)))
          (sym (chain.links i (omega arith))) (objects_from-FreeList n (suc i) (omega arith)),
    )

    all_objects :
        (n : ℕ)
        → n ≡ count
        → FreeList cache
            (slab_of page)
            mem
            (word mem (slab_of page + 16))
            (objects_from page size 0 n)
    unfolding FreeList
    all_objects zero all = filling.head_word ∙ ap (first_of page) (sym all)
    all_objects (suc n) all =
        subst (λ a. FreeList cache (slab_of page) mem a (objects_from page size 0 (suc n)))
          (sym (filling.head_word ∙ ap (first_of page) (sym all) ∙ omega arith))
          (objects_from-FreeList n 0 (omega arith))

    pub all-IsStack :
        cache ≢ 0
        → word mem (cache_slabs_head cache) ≡ slab_of page
        → IsStack cache (slab_of page) count (objects_from page size 0 count) mem
    all-IsStack exists head =
        let apart = room.cache_apart in
        let small = room.page_small in
        record {
          cache_exists = exists;
          slab_exists = ground arith;
          slab_small = omega arith;
          apart = ground arith;
          head_word = head;
          max_word = filling.count_word;
          next_word = chain.next_word;
          count_word = filling.free_word ∙ sym (length-objects_from page size 0 count);
          list = all_objects count refl;
        }
