-- ===== src/Mm/Slab/Stock/Create.antt =====
-- fckrnl/mm/slab.c: the free list of a cache that `slab_cache_create` makes.
use fusioncore.Base.{
  ℕ, suc, ◌+◌, ◌-◌, ◌/◌, ◌^◌, ◌≤◌, ◌<◌, ◌≡◌, ◌≢◌, ap, ◌∙◌, arith, u32, not, leb, true,
}
use fusioncore.Machine.{Machine, done, ◌>>◌, read64, write64, pure, panic}
use fusioncore.Machine.Steps.{after_pointer, after_call, after_check}
use fusioncore.Machine.Bytes.{Memory}
use fusioncore.Machine.Laws.{word, put}
use fusioncore.Mm.Memmap.{page_size}
use fusioncore.Mm.Phys.{Pmm}
use fusioncore.Mm.Phys.Search.{IsPmm}
use fusioncore.Mm.Phys.Roundtrip.{Granted, Granted-IsPmm}
use fusioncore.Mm.Phys.Free.{HasFree, HasFree-Granted, Granted-HasFree}
use fusioncore.Mm.Zeroed.{pmm_allocz}
use fusioncore.Mm.Zeroed.Cleared.{pmm_allocz-clears}
use fusioncore.Mm.Slab.{is_power_of_two, slab_cache_grow}
use fusioncore.Mm.Slab.Cache.{slab_cache_create}
use fusioncore.Mm.Slab.Layout.{
  cache_name, cache_slab_size, cache_bufctl_count_max, cache_slabs, cache_slabs_head, sizeof_cache,
}
use fusioncore.Mm.Slab.Stock.{Room, Filling, Chain, slab_of, object_at, extended}
use fusioncore.Mm.Slab.Objects.{Apart}
use fusioncore.Mm.Slab.Stock.Extended.{extended-Chain}
use fusioncore.Mm.Slab.Stock.Grown.{Bare, headed, headed-Chain}
use fusioncore.Mm.Slab.Stock.Supply.{slab_cache_grow-Filling}
use fusioncore.Mm.Slab.Stock.Described.{
  count_max, described, two_pages-Room, described-size, described-count, described-head, size_read,
  described-keeps,
}

-- What a call of `slab_cache_create` has made: from two granted pages a cache and the words of its
-- slab, with what holds of the objects that were put in; the words outside the two pages keep.
pub record Created (size : ℕ) (Holds : ℕ → ℕ → Memory → Type 0) (m : Machine) (cache : ℕ)
    (m' : Machine) : Type 0 where
  pub exists : cache ≢ 0
  pub page : ℕ
  pub between : Pmm
  pub cache_granted : Granted 1 m.pmm cache between
  pub page_granted : Granted 1 between page m'.pmm
  pub room : Room cache page size (count_max size)
  pub filling : Filling cache page size (count_max size) (count_max size) m'.mem
  pub holds : Holds page (count_max size) m'.mem
  pub head : word m'.mem (cache_slabs_head cache) ≡ slab_of page
  pub keeps :
      (c : ℕ) → Apart c 8 cache page_size → Apart c 8 page page_size → word m'.mem c ≡ word m.mem c

module _ (size : ℕ) (Holds : ℕ → ℕ → Memory → Type 0)
    (start : (cache page : ℕ)
      → Room cache page size (count_max size)
      → (mem : Memory) → Bare cache size (count_max size) mem
      → (16 ≤ size → (i : ℕ) → i < count_max size → word mem (object_at page size i) ≡ 0)
      → Holds page 0 (headed cache page (count_max size) mem))
    (next : (cache page : ℕ)
      → Room cache page size (count_max size)
      → (mem : Memory) (k : ℕ) → k < count_max size
      → Holds page k mem
      → Holds page (suc k) (extended page size mem k)) where
  pub slab_cache_create-Created :
      (name flags : ℕ) (m : Machine)
      → IsPmm m.pmm
      → HasFree 2 m.pmm
      → 4 ≤ size
      → size ≤ 512
      → is_power_of_two size ≡ true
      → (cache : ℕ) × (m' : Machine) × (slab_cache_create name size flags m ≡ done cache m')
        × Created size Holds m cache m'
  unfolding slab_cache_create read64 write64
  slab_cache_create-Created name flags m valid free low high power =
      let (cache, p1, got1, g1) = HasFree-Granted m.pmm valid free in
      let (page, p2, got2, g2) =
        HasFree-Granted p1 (Granted-IsPmm valid g1) (Granted-HasFree free g1) in
      let (cleared, cleared_by, clears) = pmm_allocz-clears 1 m cache p1 got1 in
      let room = two_pages-Room size (Granted-IsPmm valid g1) low g1 g2 in
      let exists : cache ≢ 0 = omega (arith, g1.address, g1.not_null) in
      let fits_int = valid.fits_int in
      let small : cache + page_size ≤ 2 ^ 64 = omega (arith, g1.address, g1.below_top, fits_int) in
      let mem = described cache name size cleared in
      let (after, grown, filling, holds, head, keeps) =
        slab_cache_grow-Filling cache page size (count_max size) room (Holds page)
          (start cache page room) (next cache page room) flags (record { mem = mem; pmm = p1 }) p2
          exists (described-size cache name size low high m.mem cleared clears)
          (described-count cache name size low high m.mem cleared clears)
          (described-head cache name size low high m.mem cleared clears) got2 in
      (
        cache,
        record { mem = after; pmm = p2 },
        after_check (not (leb size 512)) panic _ m (ground arith)
            ∙ after_check (not (is_power_of_two (u32 size))) panic _ m
                (ap not (ap is_power_of_two {x = u32 size} {y = size} (omega arith) ∙ power))
            ∙ after_pointer (pmm_allocz 1) _ _ cache m (record { mem = cleared; pmm = p1 })
                cleared_by exists
            ∙ ap
                (λ s. (slab_cache_grow cache 1 flags >> pure cache) (record {
                  mem =
                      put
                        (put
                          (put (put cleared (cache_name cache) name) (cache_slab_size cache) size)
                          (cache_bufctl_count_max cache) ((page_size - sizeof_cache) / s))
                        (cache_slabs cache) 0;
                  pmm = p1;
                }))
                (size_read cache name size low high m.mem cleared clears)
            ∙ after_call (slab_cache_grow cache 1 flags) (pure cache)
                (record { mem = mem; pmm = p1 }) (record { mem = after; pmm = p2 }) grown,
        record {
          exists = exists;
          page = page;
          between = p1;
          cache_granted = g1;
          page_granted = g2;
          room = room;
          filling = filling;
          holds = holds;
          head = head;
          keeps = λ c off_cache off_page.
              keeps c off_page (ground arith)
              ∙ described-keeps cache name size low high m.mem cleared clears c off_cache small;
        },
      )

-- Objects of 16 bytes or more are linked.
pub slab_cache_create-Chain :
    (name size flags : ℕ) (m : Machine)
    → IsPmm m.pmm
    → HasFree 2 m.pmm
    → 16 ≤ size
    → size ≤ 512
    → is_power_of_two size ≡ true
    → (cache : ℕ) × (m' : Machine) × (slab_cache_create name size flags m ≡ done cache m')
      × Created size (λ page k mem. Chain page size (count_max size) k mem) m cache m'
slab_cache_create-Chain name size flags m valid free roomy high power =
    slab_cache_create-Created size (λ page k mem. Chain page size (count_max size) k mem)
      (λ cache page room mem bare zeros.
        headed-Chain cache page size (count_max size) room mem bare roomy (zeros roomy))
      (λ cache page room mem k less chain.
        extended-Chain cache page size (count_max size) room mem k roomy less chain)
      name flags m valid free (omega arith) high power
