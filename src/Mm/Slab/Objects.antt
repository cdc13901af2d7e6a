-- ===== src/Mm/Slab/Objects.antt =====
-- Giving an object back to a slab, and taking one.
use fusioncore.Base.{ℕ, ◌+◌, ◌^◌, ◌≤◌, ◌<◌, ◌≡◌, refl, ap, ◌∙◌, ◌⊎◌, inl, arith, u64, sub64}
use fusioncore.Machine.{Machine, done, ◌>>◌, read64, write64}
use fusioncore.Machine.Bytes.{Memory}
use fusioncore.Machine.Laws.{word, put, word-put_self, word-put_apart, words}
use fusioncore.Mm.Slab.Layout.{
  bufctl_next, bufctl_ptr, slab_bufctl_count, slab_freelist_head, cache_slabs, sizeof_cache,
  sizeof_slab,
}
use fusioncore.Mm.Slab.Cache.{take_object, put_object}

-- Two structures of `k` and `n` bytes do not overlap.
abbrev pub Apart : ℕ → ℕ → ℕ → ℕ → Type 0
Apart a k b n = (a + k ≤ b) ⊎ (b + n ≤ a)

-- Memory after the head of a slab's free list and then its count are written.
abbrev pub relinked : Memory → ℕ → ℕ → ℕ → Memory
relinked mem slab head n = put (put mem (slab_freelist_head slab) head) (slab_bufctl_count slab) n

module _ (cache slab : ℕ) (apart : Apart cache sizeof_cache slab sizeof_slab) where
  -- A write outside the cache leaves its cursor.
  keeps :
      (mem : Memory) (a v : ℕ)
      → (cache + 40 ≤ a) ⊎ (a + 8 ≤ cache)
      → word mem (cache_slabs cache) ≡ slab
      → word (put mem a v) (cache_slabs cache) ≡ slab
  keeps mem a v out cursor = grind words

  relinked-keeps :
      (mem : Memory) (head n : ℕ)
      → word mem (cache_slabs cache) ≡ slab
      → word (relinked mem slab head n) (cache_slabs cache) ≡ slab
  relinked-keeps mem head n cursor =
      keeps (put mem (slab_freelist_head slab) head) (slab_bufctl_count slab) n (omega arith)
        (keeps mem (slab_freelist_head slab) head (omega arith) cursor)

  pub take_object-done :
      (m : Machine)
      → word m.mem (cache_slabs cache) ≡ slab
      → take_object cache m
        ≡ done (word m.mem (slab_freelist_head slab)) (record m {
          mem =
              relinked m.mem slab
                (word m.mem (word m.mem (slab_freelist_head slab)))
                (sub64 (word m.mem (slab_bufctl_count slab)) 1);
        })
  unfolding take_object read64 write64
  take_object-done m cursor =
      let next = word m.mem (word m.mem (slab_freelist_head slab)) in
      rw cursor (
        rw
          (
            keeps m.mem (slab_freelist_head slab) next (omega arith) cursor,
            word-put_apart m.mem (slab_freelist_head slab) next (slab_bufctl_count slab)
                (inl (omega arith)),
          )
          refl)

  module _ (object : ℕ) (off_cache : Apart object 16 cache sizeof_cache)
      (off_slab : Apart object 16 slab sizeof_slab) where
    -- Memory after the object's own two fields are written.
    abbrev pub filled : Memory → Memory
    filled mem =
        put (put mem (bufctl_next object) (word mem (slab_freelist_head slab))) (bufctl_ptr object)
          object

    filled-keeps :
        (mem : Memory)
        → word mem (cache_slabs cache) ≡ slab
        → word (filled mem) (cache_slabs cache) ≡ slab
    filled-keeps mem cursor =
        let head = word mem (slab_freelist_head slab) in
        keeps (put mem (bufctl_next object) head) (bufctl_ptr object) object (omega arith)
          (keeps mem (bufctl_next object) head (omega arith) cursor)

    filled-count :
        (mem : Memory)
        → word (filled mem) (slab_bufctl_count slab) ≡ word mem (slab_bufctl_count slab)
    filled-count mem = grind words

    pub put_object-done :
        (m : Machine)
        → word m.mem (cache_slabs cache) ≡ slab
        → put_object cache object m
          ≡ done tt (record m {
            mem =
                relinked (filled m.mem) slab object (u64 (word m.mem (slab_bufctl_count slab) + 1));
          })
    unfolding put_object read64 write64
    put_object-done m cursor = rw cursor (
        rw
          (
            filled-keeps m.mem cursor,
            keeps (filled m.mem) (slab_freelist_head slab) object (omega arith)
                (filled-keeps m.mem cursor),
            word-put_apart (filled m.mem) (slab_freelist_head slab) object (slab_bufctl_count slab)
                (inl (omega arith)),
            filled-count m.mem,
          )
          refl)

    abbrev linked : Memory → ℕ → Memory
    linked mem n = relinked (filled mem) slab object n

    -- The words behind `put_object` that the next `take_object` reads.
    linked-head :
        (mem : Memory) (n : ℕ)
        → object < 2 ^ 64
        → word (linked mem n) (slab_freelist_head slab) ≡ object
    linked-head mem n object_fits = grind words

    linked-count :
        (mem : Memory) (n : ℕ) → n < 2 ^ 64 → word (linked mem n) (slab_bufctl_count slab) ≡ n
    linked-count mem n n_fits = grind words

    linked-next :
        (mem : Memory) (n : ℕ)
        → word mem (slab_freelist_head slab) < 2 ^ 64
        → word (linked mem n) object ≡ word mem (slab_freelist_head slab)
    linked-next mem n head_fits = grind words

    -- With the cache's cursor at a slab, taking an object right after giving one back gives that
    -- object, and leaves the slab's free list, its count and the cache's cursor as before, if the
    -- object has room for its two links and overlaps neither the cache nor the slab's head, these
    -- two do not overlap, and the words fit.
    pub take_object-put_object :
        (m : Machine)
        → word m.mem (cache_slabs cache) ≡ slab
        → object < 2 ^ 64
        → word m.mem (slab_freelist_head slab) < 2 ^ 64
        → word m.mem (slab_bufctl_count slab) + 1 < 2 ^ 64
        → (after : Memory) × ((put_object cache object >> take_object cache) m
            ≡ done object (record m { mem = after }))
          × (word after (slab_freelist_head slab) ≡ word m.mem (slab_freelist_head slab))
          × (word after (slab_bufctl_count slab) ≡ word m.mem (slab_bufctl_count slab))
          × (word after (cache_slabs cache) ≡ slab)
    take_object-put_object m cursor object_fits head_fits count_fits =
        let head = word m.mem (slab_freelist_head slab) in
        let count = word m.mem (slab_bufctl_count slab) in
        let mem1 = linked m.mem (u64 (count + 1)) in
        let cursor1 =
          relinked-keeps (filled m.mem) object (u64 (count + 1)) (filled-keeps m.mem cursor) in
        (
          relinked mem1 slab head count,
          rw (put_object-done m cursor) (
              rw (take_object-done (record m { mem = mem1 }) cursor1) (
                rw
                  (
                    linked-head m.mem (u64 (count + 1)) object_fits,
                    linked-next m.mem (u64 (count + 1)) head_fits,
                    linked-count m.mem (u64 (count + 1)) (omega arith),
                  )
                  (ap (λ c. done object (record m { mem = relinked mem1 slab head c }))
                    (omega arith)))),
          word-put_apart (put mem1 (slab_freelist_head slab) head) (slab_bufctl_count slab) count
                (slab_freelist_head slab) (omega arith)
              ∙ word-put_self mem1 (slab_freelist_head slab) head head_fits,
          word-put_self (put mem1 (slab_freelist_head slab) head) (slab_bufctl_count slab) count
              (omega arith),
          relinked-keeps mem1 head count cursor1,
        )
