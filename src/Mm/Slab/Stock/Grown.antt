-- ===== src/Mm/Slab/Stock/Grown.antt =====
-- fckrnl/mm/slab.c: `slab_cache_grow` on a cache without slabs: a page is taken and cleared, its
-- slab's head is made and its objects are linked.
use fusioncore.Base.{
  ℕ, zero, suc, ◌+◌, ◌*◌, ◌≤◌, ◌<◌, ◌≡◌, refl, ap, ◌∙◌, inr, arith, u64, sub64, if◌then◌else◌,
  if-true, if-false,
}
use fusioncore.Libk.Text.Laws.{in_block}
use fusioncore.Machine.{done, read64, write64}
use fusioncore.Machine.Bytes.{Memory, load, load-ext}
use fusioncore.Machine.Laws.{word, put, word-put_self, word-put_apart, words}
use fusioncore.Mm.Memmap.{page_size}
use fusioncore.Mm.Phys.{Pmm}
use fusioncore.Mm.Virt.Space.Words.{word-zero}
use native.Mathlib.Nat.{mul-le-mul_left, mul-le-mul_right}
use fusioncore.Mm.Slab.{slab_create_slab}
use fusioncore.Mm.Slab.Layout.{
  bufctl_next, slab_next, slab_bufctl_count, slab_freelist, slab_freelist_head, cache_slab_size,
  cache_bufctl_count_max, cache_slabs, cache_slabs_head, sizeof_slab,
}
use fusioncore.Mm.Slab.Objects.{Apart}
use fusioncore.Mm.Slab.Stock.{Room, Filling, Chain, slab_of, object_at, inside}

-- Memory after a slab's head is made in a page and put into an empty cache.
abbrev pub headed : ℕ → ℕ → ℕ → Memory → Memory
headed cache page count mem =
    let slab = slab_of page in
    let made =
      put
        (put (put (put mem (slab_next slab) 0) (slab_bufctl_count slab) count)
          (slab_freelist_head slab) 0)
        (slab_freelist slab) 0 in
    put (put made (cache_slabs_head cache) slab) (cache_slabs cache) slab

-- What a cache keeps of itself, and that it has no slab.
pub record Bare (cache size count : ℕ) (mem : Memory) : Type 0 where
  pub size_word : word mem (cache_slab_size cache) ≡ size
  pub count_word : word mem (cache_bufctl_count_max cache) ≡ count
  pub cursor_word : word mem (cache_slabs cache) ≡ 0

suc_le : (i : ℕ) → 1 ≤ suc i
suc_le i = omega arith

module _ (cache page size count : ℕ) (room : Room cache page size count) where
  pub small_count : count < 4097
  small_count = let more = mul-le-mul_right count room.wide in omega (arith, room.fits)

  slab_place : sub64 (u64 (page + page_size)) sizeof_slab ≡ slab_of page
  slab_place = omega (arith, room.page_small)

  module _ (mem : Memory) (bare : Bare cache size count mem) where
    count_read : word (put mem (slab_next (slab_of page)) 0) (cache_bufctl_count_max cache) ≡ count
    count_read = let apart = room.cache_apart in grind (words, bare.count_word)

    cursor_read :
        word
          (put
            (put
              (put (put mem (slab_next (slab_of page)) 0) (slab_bufctl_count (slab_of page)) count)
              (slab_freelist_head (slab_of page))
              0)
            (slab_freelist (slab_of page))
            0)
          (cache_slabs cache)
        ≡ 0
    cursor_read = let apart = room.cache_apart in grind (words, bare.cursor_word)

    pub slab_create_slab-heads :
        (p : Pmm)
        → slab_create_slab cache page (record { mem = mem; pmm = p })
          ≡ done tt (record { mem = headed cache page count mem; pmm = p })
    unfolding slab_create_slab read64 write64
    slab_create_slab-heads p = rw (slab_place, count_read, cursor_read) refl

    pub headed-Filling : Filling cache page size count 0 (headed cache page count mem)
    headed-Filling =
        let apart = room.cache_apart in
        record {
          size_word = grind (words, bare.size_word);
          count_word = grind (words, bare.count_word);
          free_word = let size_small = small_count in grind words;
          cursor_word = let small = room.page_small in grind words;
          head_word = grind words;
          tail_word = grind words;
        }

    headed-object :
        (i : ℕ)
        → 16 ≤ size
        → i < count
        → word mem (object_at page size i) ≡ 0
        → word (headed cache page count mem) (object_at page size i) ≡ 0
    headed-object i roomy less empty =
        let apart = room.cache_apart in
        let at = inside cache page size count room i less in grind words

    pub headed-Chain :
        16 ≤ size
        → ((i : ℕ) → i < count → word mem (object_at page size i) ≡ 0)
        → Chain page size count 0 (headed cache page count mem)
    headed-Chain roomy clean =
        let apart = room.cache_apart in
        record {
          next_word = grind words;
          links = λ i small. elim small [ ];
          ends = λ i small past. headed-object i roomy small (clean i small);
        }

  -- The page that `slab_create_bufctl` gives: its words are 0 and the cache's are kept.
  module _ (mem cleared : Memory)
      (clears : (x : ℕ)
        → cleared x ≡ (if in_block page (u64 (page_size * 1)) x then 0 else mem x)) where
    pub kept_word : (c : ℕ) → Apart c 8 page page_size → word cleared c ≡ word mem c
    unfolding load
    kept_word c apart = load-ext 8 cleared mem c λ x low high.
        clears x
        ∙ if-false (in_block page (u64 (page_size * 1)) x) 0 (mem x)
            (let small = room.page_small in ground arith)

    zero_word : (i : ℕ) → i < count → word cleared (object_at page size i) ≡ 0
    zero_word i less = word-zero cleared (object_at page size i) λ x low high.
        clears x
        ∙ if-true (in_block page (u64 (page_size * 1)) x) 0 (mem x) (
            let small = room.page_small in
            let at = inside cache page size count room i less in
            let wide = room.wide in ground arith)

    pub zero_word_behind :
        16 ≤ size
        → (i : ℕ) → i < count
        → word (put cleared (bufctl_next page) 0) (object_at page size i) ≡ 0
    zero_word_behind roomy zero less =
        ap (word (put cleared (bufctl_next page) 0)) (omega arith)
        ∙ word-put_self cleared page 0 (omega arith)
    zero_word_behind roomy (suc i) less =
        word-put_apart cleared page 0 (object_at page size (suc i))
          (inr (omega (arith, mul-le-mul_left size (suc_le i), roomy)))
        ∙ zero_word (suc i) less

    pub cleared-Bare :
        Bare cache size count mem → Bare cache size count (put cleared (bufctl_next page) 0)
    cleared-Bare bare =
        let apart = room.cache_apart in
        record {
          size_word = grind (words, kept_word, bare.size_word);
          count_word = grind (words, kept_word, bare.count_word);
          cursor_word = grind (words, kept_word, bare.cursor_word);
        }
