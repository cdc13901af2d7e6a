-- ===== src/Mm/Slab/Stock/Linked.antt =====
-- fckrnl/mm/slab.c: `slab_init_bufctls` links the objects of a new slab, one in each round.
use fusioncore.Base.{
  ℕ, zero, suc, ◌+◌, ◌*◌, ◌≤◌, ◌<◌, ◌≡◌, ◌≢◌, refl, ◌∙◌, subst, inl, inr, arith, u64, eq_or_lt,
  ==_ne, lt→ltb, ltb-false,
}
use fusioncore.Machine.{Machine, done, read64, write64}
use fusioncore.Machine.Bytes.{Memory}
use fusioncore.Machine.Laws.{word, put, word-put_self, word-put_apart}
use fusioncore.Mm.Memmap.{page_size}
use fusioncore.Mm.Slab.{slab_init_bufctls, init_bufctls}
use fusioncore.Mm.Slab.Layout.{bufctl_ptr, slab_freelist, cache_slabs}
use fusioncore.Mm.Slab.Objects.{Apart}
use fusioncore.Mm.Slab.Stock.{
  Room, Filling, slab_of, object_at, last_of, inside, off_page, of_cache, link_at, extended,
}
use fusioncore.Mm.Slab.Stock.Extended.{
  link_at-low, link_at-high, outer_word, object_small, extended-Filling,
}

module _ (cache page size count : ℕ) (room : Room cache page size count) where
  object_exists : (k : ℕ) → object_at page size k ≢ 0
  object_exists k = let exists = room.page_exists in ground arith

  -- What the steps of `slab_init_bufctls` read.
  module _ (mem : Memory) (k : ℕ) (less : k < count)
      (chained : Filling cache page size count k mem) where
    address : u64 (page + u64 (size * k)) ≡ object_at page size k
    address = omega (arith, inside cache page size count room k less, room.page_small)

    abbrev with_ptr : Memory
    with_ptr = put mem (bufctl_ptr (object_at page size k)) (object_at page size k)

    abbrev with_link : Memory
    with_link = put with_ptr (link_at page size k) (object_at page size k)

    cursor1 : word with_ptr (cache_slabs cache) ≡ slab_of page
    cursor1 =
        off_page cache page size count room mem (bufctl_ptr (object_at page size k))
          (object_at page size k) (cache_slabs cache) (omega arith)
          (omega (arith, inside cache page size count room k less, room.wide))
          (of_cache cache page size count room (cache_slabs cache) (omega arith) (omega arith))
        ∙ chained.cursor_word

    cursor2 : word with_link (cache_slabs cache) ≡ slab_of page
    cursor2 =
        off_page cache page size count room with_ptr (link_at page size k) (object_at page size k)
          (cache_slabs cache) (link_at-low cache page size count room k (omega arith))
          (let high = link_at-high cache page size count room k (omega arith) in omega arith)
          (of_cache cache page size count room (cache_slabs cache) (omega arith) (omega arith))
        ∙ cursor1

    tail1 : word with_ptr (slab_freelist (slab_of page)) ≡ last_of page size k
    tail1 =
        word-put_apart mem (bufctl_ptr (object_at page size k)) (object_at page size k)
          (slab_freelist (slab_of page))
          (inr (omega (arith, inside cache page size count room k less, room.wide)))
        ∙ chained.tail_word

    tail2 : word with_link (slab_freelist (slab_of page)) ≡ last_of page size k
    tail2 =
        word-put_apart with_ptr (link_at page size k) (object_at page size k)
          (slab_freelist (slab_of page))
          (let high = link_at-high cache page size count room k (omega arith) in inr (omega arith))
        ∙ tail1

    next2 : word with_link (link_at page size k) ≡ object_at page size k
    next2 =
        word-put_self with_ptr (link_at page size k) (object_at page size k)
          (object_small cache page size count room mem k less)

  slab_init_bufctls-extends :
      (m : Machine) (k : ℕ)
      → k < count
      → Filling cache page size count k m.mem
      → slab_init_bufctls cache page k m ≡ done tt (record m { mem = extended page size m.mem k })
  unfolding slab_init_bufctls read64 write64
  slab_init_bufctls-extends m zero less chained =
      rw
        (
          chained.size_word,
          address m.mem zero less chained,
          cursor1 m.mem zero less chained,
          tail1 m.mem zero less chained,
          cursor1 m.mem zero less chained,
          cursor2 m.mem zero less chained,
        )
        refl
  slab_init_bufctls-extends m (suc k) less chained =
      rw
        (
          chained.size_word,
          address m.mem (suc k) less chained,
          cursor1 m.mem (suc k) less chained,
          tail1 m.mem (suc k) less chained,
          ==_ne (object_at page size k) 0 (object_exists k),
          cursor1 m.mem (suc k) less chained,
          tail1 m.mem (suc k) less chained,
          cursor2 m.mem (suc k) less chained,
          tail2 m.mem (suc k) less chained,
          next2 m.mem (suc k) less chained,
        )
        refl

  -- What each object that is put in keeps holds of the whole slab.
  module _ (Holds : ℕ → Memory → Type 0)
      (next : (mem : Memory) (k : ℕ)
        → k < count
        → Holds k mem
        → Holds (suc k) (extended page size mem k)) where
    pub init_bufctls-Filling :
        (fuel k : ℕ) (m : Machine)
        → k ≤ count
        → count < k + fuel
        → Filling cache page size count k m.mem
        → Holds k m.mem
        → (after : Memory) × (init_bufctls fuel cache page k m ≡ done tt (record m { mem = after }))
          × Filling cache page size count count after
          × Holds count after
          × ((c : ℕ) → Apart c 8 page page_size → word after c ≡ word m.mem c)
    unfolding init_bufctls read64
    init_bufctls-Filling zero k m low enough filling holds = absurd (omega arith)
    init_bufctls-Filling (suc fuel) k m low enough filling holds = elim (eq_or_lt k count low) [
      | inl all ↦ (
        m.mem,
        rw (filling.count_word, ltb-false k count (omega arith)) refl,
        subst (λ x. Filling cache page size count x m.mem) all filling,
        subst (λ x. Holds x m.mem) all holds,
        λ c apart. refl,
      )
      | inr less ↦
          let mem1 = extended page size m.mem k in
          let one_more : suc k ≡ k + 1 = omega arith in
          let (after, ran, filled, held, keeps) =
            init_bufctls-Filling fuel (k + 1) (record m { mem = mem1 }) (omega arith) (omega arith)
              (subst (λ x. Filling cache page size count x mem1) one_more
                (extended-Filling cache page size count room m.mem k less filling))
              (subst (λ x. Holds x mem1) one_more (next m.mem k less holds)) in
          (
            after,
            rw (filling.count_word, lt→ltb k count less, slab_init_bufctls-extends m k less filling)
                ran,
            filled,
            held,
            λ c apart. keeps c apart ∙ outer_word cache page size count room m.mem k less c apart,
          )
    ]
