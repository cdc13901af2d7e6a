-- ===== src/Mm/Slab/Stock/Extended.antt =====
-- Memory with one more object of a slab linked: what keeps and what changes.
use fusioncore.Base.{
  ℕ, zero, suc, ◌+◌, ◌-◌, ◌*◌, ◌^◌, ◌≤◌, ◌<◌, ◌≡◌, ◌≢◌, sym, ap, ◌∙◌, ◌⊎◌, inl, inr, arith,
  eq_or_lt, eq_or_lt_or_gt,
}
use fusioncore.Machine.Bytes.{Memory}
use fusioncore.Machine.Laws.{word, put, word-put_self, word-put_apart}
use fusioncore.Mm.Memmap.{page_size}
use fusioncore.Mm.Slab.Layout.{
  bufctl_ptr, slab_freelist, slab_freelist_head, cache_slab_size, cache_bufctl_count_max,
  cache_slabs, slab_bufctl_count,
}
use fusioncore.Mm.Slab.Objects.{Apart}
use fusioncore.Mm.Slab.Stock.{
  Room, Filling, Chain, slab_of, object_at, first_of, link_at, extended, spread, inside, off_page,
  of_cache, objects_apart,
}

module _ (cache page size count : ℕ) (room : Room cache page size count) where
  pub link_at-low : (k : ℕ) → k ≤ count → page ≤ link_at page size k
  link_at-low zero h = omega arith
  link_at-low (suc k) h = omega arith

  pub link_at-high : (k : ℕ) → k ≤ count → link_at page size k + 8 ≤ page + (page_size - 8)
  link_at-high zero h = omega arith
  link_at-high (suc k) h =
      let at = inside cache page size count room k (omega arith) in omega (arith, room.wide)

  -- Of the writes that put in object `k`, only the link's touches the first word of an object.
  object_off_ptr :
      (i k : ℕ)
      → 16 ≤ size
      → (object_at page size i + 8 ≤ bufctl_ptr (object_at page size k))
        ⊎ (bufctl_ptr (object_at page size k) + 8 ≤ object_at page size i)
  object_off_ptr i k roomy = elim (eq_or_lt_or_gt i k) [
    | inl same ↦ inl (omega (arith, ap (λ x. size * x) same))
    | inr (inl less) ↦ inl (omega (arith, spread cache page size count room i k less))
    | inr (inr more) ↦ inr (omega (arith, spread cache page size count room k i more, roomy))
  ]

  object_off_link :
      (i k : ℕ)
      → 16 ≤ size
      → i < count
      → suc i ≢ k
      → (object_at page size i + 8 ≤ link_at page size k)
        ⊎ (link_at page size k + 8 ≤ object_at page size i)
  object_off_link i zero roomy small ne =
      inl (omega (arith, inside cache page size count room i small, room.wide))
  object_off_link i (suc k) roomy small ne =
      elim (objects_apart cache page size count room i k (λ same. ne (ap suc same))) [
        | inl before ↦ inl (omega (arith, before, roomy))
        | inr behind ↦ inr (omega (arith, behind, roomy))
      ]

  module _ (mem : Memory) (k : ℕ) (less : k < count) where
    pub outer_word :
        (c : ℕ) → Apart c 8 page page_size → word (extended page size mem k) c ≡ word mem c
    outer_word c apart =
        let new = object_at page size k in
        let mem1 = put mem (bufctl_ptr new) new in
        let at = inside cache page size count room k less in
        off_page cache page size count room (put mem1 (link_at page size k) new)
          (slab_freelist (slab_of page)) new c (omega arith) (omega arith) apart
        ∙ off_page cache page size count room mem1 (link_at page size k) new c
            (link_at-low k (omega arith)) (let h = link_at-high k (omega arith) in omega arith)
            apart
        ∙ off_page cache page size count room mem (bufctl_ptr new) new c (omega arith)
            (omega (arith, room.wide)) apart

    -- The links of the objects keep, but for the one that is written.
    object_word :
        (i : ℕ)
        → 16 ≤ size
        → i < count
        → suc i ≢ k
        → word (extended page size mem k) (object_at page size i) ≡ word mem (object_at page size i)
    object_word i roomy small ne =
        let new = object_at page size k in
        let mem1 = put mem (bufctl_ptr new) new in
        word-put_apart (put mem1 (link_at page size k) new) (slab_freelist (slab_of page)) new
          (object_at page size i)
          (inl (omega (arith, inside cache page size count room i small, room.wide)))
        ∙ word-put_apart mem1 (link_at page size k) new (object_at page size i)
            (object_off_link i k roomy small ne)
        ∙ word-put_apart mem (bufctl_ptr new) new (object_at page size i) (object_off_ptr i k roomy)

    pub object_small : object_at page size k < 2 ^ 64
    object_small = omega (arith, inside cache page size count room k less, room.page_small)

    -- The written link, the list's end, and its head once it is written.
    link_word : word (extended page size mem k) (link_at page size k) ≡ object_at page size k
    link_word =
        let new = object_at page size k in
        let mem1 = put mem (bufctl_ptr new) new in
        word-put_apart (put mem1 (link_at page size k) new) (slab_freelist (slab_of page)) new
          (link_at page size k) (let high = link_at-high k (omega arith) in inl (omega arith))
        ∙ word-put_self mem1 (link_at page size k) new object_small

    end_word :
        word (extended page size mem k) (slab_freelist (slab_of page)) ≡ object_at page size k
    end_word =
        let new = object_at page size k in
        word-put_self (put (put mem (bufctl_ptr new) new) (link_at page size k) new)
          (slab_freelist (slab_of page)) new object_small

  -- The slab's own words that are not written keep.
  slab_word :
      (mem : Memory) (k c : ℕ)
      → object_at page size k + 16 ≤ c
      → c + 8 ≤ slab_freelist (slab_of page)
      → (c + 8 ≤ link_at page size k) ⊎ (link_at page size k + 8 ≤ c)
      → word (extended page size mem k) c ≡ word mem c
  slab_word mem k c low high off_link =
      let new = object_at page size k in
      let mem1 = put mem (bufctl_ptr new) new in
      word-put_apart (put mem1 (link_at page size k) new) (slab_freelist (slab_of page)) new c
        (inl high)
      ∙ word-put_apart mem1 (link_at page size k) new c off_link
      ∙ word-put_apart mem (bufctl_ptr new) new c (inr (omega arith))

  link_off_head :
      (k c : ℕ)
      → k < count
      → slab_of page ≤ c
      → c + 8 ≤ slab_freelist_head (slab_of page)
      → (c + 8 ≤ link_at page size k) ⊎ (link_at page size k + 8 ≤ c)
  link_off_head zero c less low high = inl (omega arith)
  link_off_head (suc k) c less low high =
      inr (omega (arith, inside cache page size count room k (omega arith), room.wide))

  extended_head :
      (mem : Memory) (k : ℕ)
      → k < count
      → word mem (slab_freelist_head (slab_of page)) ≡ first_of page k
      → word (extended page size mem k) (slab_freelist_head (slab_of page)) ≡ page
  extended_head mem zero less head = link_word mem zero less ∙ omega arith
  extended_head mem (suc k) less head =
      slab_word mem (suc k) (slab_freelist_head (slab_of page))
        (omega (arith, inside cache page size count room (suc k) less, room.wide)) (omega arith)
        (inr (omega (arith, inside cache page size count room k (omega arith), room.wide)))
      ∙ head

  extended_links :
      (mem : Memory) (k i : ℕ)
      → 16 ≤ size
      → k < count
      → i < k
      → ((j : ℕ) → suc j < k → word mem (object_at page size j) ≡ object_at page size (suc j))
      → word (extended page size mem k) (object_at page size i) ≡ object_at page size (suc i)
  extended_links mem zero i roomy less small links = elim small [ ]
  extended_links mem (suc k) i roomy less small links = elim (eq_or_lt i k (omega arith)) [
    | inl same ↦
        ap (λ x. word (extended page size mem (suc k)) (object_at page size x)) same
        ∙ link_word mem (suc k) less
        ∙ ap (λ x. object_at page size (suc x)) (sym same)
    | inr before ↦
        object_word mem (suc k) less i roomy (omega arith) (omega arith) ∙ links i (omega arith)
  ]

  -- Putting in the next object.
  pub extended-Filling :
      (mem : Memory) (k : ℕ)
      → k < count
      → Filling cache page size count k mem
      → Filling cache page size count (suc k) (extended page size mem k)
  extended-Filling mem k less chained =
      let count_at = slab_bufctl_count (slab_of page) in
      record {
        size_word =
            outer_word mem k less (cache_slab_size cache) (
              of_cache cache page size count room (cache_slab_size cache) (omega arith)
                (omega arith))
            ∙ chained.size_word;
        count_word =
            outer_word mem k less (cache_bufctl_count_max cache) (
              of_cache cache page size count room (cache_bufctl_count_max cache) (omega arith)
                (omega arith))
            ∙ chained.count_word;
        free_word =
            slab_word mem k count_at
              (omega (arith, inside cache page size count room k less, room.wide)) (omega arith)
              (link_off_head k count_at less (omega arith) (omega arith))
            ∙ chained.free_word;
        cursor_word =
            outer_word mem k less (cache_slabs cache)
              (of_cache cache page size count room (cache_slabs cache) (omega arith) (omega arith))
            ∙ chained.cursor_word;
        head_word = extended_head mem k less chained.head_word;
        tail_word = end_word mem k less;
      }

  pub extended-Chain :
      (mem : Memory) (k : ℕ)
      → 16 ≤ size
      → k < count
      → Chain page size count k mem
      → Chain page size count (suc k) (extended page size mem k)
  extended-Chain mem k roomy less linked = record {
    next_word =
        slab_word mem k (slab_of page)
          (omega (arith, inside cache page size count room k less, roomy)) (omega arith)
          (link_off_head k (slab_of page) less (omega arith) (omega arith))
        ∙ linked.next_word;
    links = λ i small. extended_links mem k i roomy less (omega arith) linked.links;
    ends = λ i small past.
        object_word mem k less i roomy small (omega arith) ∙ linked.ends i small (omega arith);
  }
