-- ===== src/Mm/Slab/Stock/Home.antt =====
-- fckrnl/mm/slab.c: a new cache in the pages that it was given, and what later calls leave of it.
use fusioncore.Base.{ℕ, zero, suc, ◌+◌, ◌/◌, ◌%◌, ◌^◌, ◌≤◌, ◌<◌, ◌≡◌, ◌≢◌, ap, ◌∙◌, arith, true}
use fusioncore.Machine.{Machine, done}
use fusioncore.Machine.Laws.{word}
use fusioncore.Mm.Bitmap.{is_set}
use fusioncore.Mm.Memmap.{page_size}
use fusioncore.Mm.Phys.{Pmm}
use fusioncore.Mm.Phys.Search.{IsPmm}
use fusioncore.Mm.Phys.Roundtrip.{Granted-IsPmm}
use fusioncore.Mm.Phys.Free.{HasFree, Granted-HasFree, HasFree-fewer}
use fusioncore.Mm.Kept.{InUse, Keeps, grant_keeps_off, grant_keeps_used, grant_marks}
use fusioncore.Mm.Slab.{is_power_of_two}
use fusioncore.Mm.Slab.Cache.{slab_cache_create}
use fusioncore.Mm.Slab.Layout.{
  cache_slab_size, cache_bufctl_count_max, cache_slabs, cache_slabs_head, slab_bufctl_count,
  slab_freelist, slab_freelist_head, slab_next,
}
use fusioncore.Mm.Slab.Stock.{Room, Filling, Chain, slab_of, object_at, inside}
use fusioncore.Mm.Slab.Stock.Extended.{extended-Chain}
use fusioncore.Mm.Slab.Stock.Grown.{headed-Chain}
use fusioncore.Mm.Slab.Stock.Described.{count_max}
use fusioncore.Mm.Slab.Stock.Create.{Created, slab_cache_create-Created}

-- A cache with one slab, all of whose objects are free; they are linked in the order of their
-- addresses if they have 16 bytes or more. Cache and slab are pages in use.
pub record Home (size cache : ℕ) (m : Machine) : Type 0 where
  pub exists : cache ≢ 0
  pub page : ℕ
  pub low : page < 2 ^ 46
  pub below_top : page / page_size < m.pmm.hi_page_top / page_size
  pub cache_start : cache % page_size ≡ 0
  pub page_start : page % page_size ≡ 0
  pub cache_used : InUse m.pmm cache
  pub page_used : InUse m.pmm page
  pub room : Room cache page size (count_max size)
  pub filling : Filling cache page size (count_max size) (count_max size) m.mem
  pub chain : 16 ≤ size → Chain page size (count_max size) (count_max size) m.mem
  pub head : word m.mem (cache_slabs_head cache) ≡ slab_of page

-- The words of a page in use keep.
still :
    {m m' : Machine} (k : Keeps m m') (base : ℕ)
    → base % page_size ≡ 0
    → InUse m.pmm base
    → (c : ℕ) → base ≤ c
    → c + 8 ≤ base + page_size
    → word m'.mem c ≡ word m.mem c
still {m} k base start used c low high = k.words c (ground arith) (
    ap (is_set m.pmm.bitmap) {x = c / page_size} {y = base / page_size} (omega (arith, start))
    ∙ used)

pub Home-Keeps :
    {size cache : ℕ} {m m' : Machine} → Keeps m m' → Home size cache m → Home size cache m'
Home-Keeps {size} {cache} {m} {m'} k h =
    let page = h.page in
    let at_cache = still k cache h.cache_start h.cache_used in
    let at_page = still k page h.page_start h.page_used in
    let f = h.filling in
    record {
      exists = h.exists;
      page = page;
      low = h.low;
      below_top = omega (arith, h.below_top, k.same_top);
      cache_start = h.cache_start;
      page_start = h.page_start;
      cache_used = k.used _ h.cache_used;
      page_used = k.used _ h.page_used;
      room = h.room;
      filling = record {
        size_word = at_cache (cache_slab_size cache) (omega arith) (omega arith) ∙ f.size_word;
        count_word =
            at_cache (cache_bufctl_count_max cache) (omega arith) (omega arith) ∙ f.count_word;
        free_word =
            at_page (slab_bufctl_count (slab_of page)) (omega arith) (omega arith) ∙ f.free_word;
        cursor_word = at_cache (cache_slabs cache) (omega arith) (omega arith) ∙ f.cursor_word;
        head_word =
            at_page (slab_freelist_head (slab_of page)) (omega arith) (omega arith) ∙ f.head_word;
        tail_word =
            at_page (slab_freelist (slab_of page)) (omega arith) (omega arith) ∙ f.tail_word;
      };
      chain = λ roomy.
          let c = h.chain roomy in
          let object = λ (i : ℕ) (less : i < count_max size).
            at_page (object_at page size i) (omega arith)
              (let within = inside cache page size (count_max size) h.room i less in omega arith) in
          record {
            next_word =
                at_page (slab_next (slab_of page)) (omega arith) (omega arith) ∙ c.next_word;
            links = λ i more. object i (omega arith) ∙ c.links i more;
            ends = λ i less last. object i less ∙ c.ends i less last;
          };
      head = at_cache (cache_slabs_head cache) (omega arith) (omega arith) ∙ h.head;
    }

abbrev pub LinkedIfWide : ℕ → ℕ → ℕ → (ℕ → ℕ) → Type 0
LinkedIfWide size page k mem = 16 ≤ size → Chain page size (count_max size) k mem

module _ (n size : ℕ) (m : Machine) (valid : IsPmm m.pmm) (free : HasFree (suc (suc n)) m.pmm)
    (cache : ℕ) (m' : Machine)
    (made : Created size (λ page k mem. LinkedIfWide size page k mem) m cache m') where
  made-Keeps : Keeps m m'
  made-Keeps =
      let g = made.cache_granted in
      let h = made.page_granted in
      record {
        valid = Granted-IsPmm (Granted-IsPmm valid g) h;
        same_top = h.marked.same_top ∙ g.marked.same_top;
        same_length = h.marked.filled.same_length ∙ g.marked.filled.same_length;
        used = λ j used. grant_keeps_used h j (grant_keeps_used g j used);
        words = λ c within used.
            made.keeps c (grant_keeps_off g c within used)
              (grant_keeps_off h c within (grant_keeps_used g (c / page_size) used));
      }

  made-HasFree : HasFree n m'.pmm
  made-HasFree = Granted-HasFree (Granted-HasFree free made.cache_granted) made.page_granted

  made-Home : Home size cache m'
  made-Home =
      let g = made.cache_granted in
      let h = made.page_granted in
      let fits = (Granted-IsPmm valid g).fits_int in
      record {
        exists = made.exists;
        page = made.page;
        low = omega (arith, h.address, h.below_top, fits);
        below_top = omega (arith, h.address, h.below_top, h.marked.same_top);
        cache_start = omega (arith, g.address);
        page_start = omega (arith, h.address);
        cache_used =
            grant_keeps_used h (cache / page_size) (grant_marks g cache (omega (arith, g.address)));
        page_used = grant_marks h made.page (omega (arith, h.address));
        room = made.room;
        filling = made.filling;
        chain = made.holds;
        head = made.head;
      }

two_free : {p : Pmm} (n : ℕ) → HasFree (suc (suc n)) p → HasFree 2 p
two_free zero f = f
two_free (suc n) f = two_free n (HasFree-fewer f)

-- What making a cache comes to: it is home, and what was in use keeps.
pub record Made (n size : ℕ) (m : Machine) (cache : ℕ) (m' : Machine) : Type 0 where
  pub home : Home size cache m'
  pub keeps : Keeps m m'
  pub free : HasFree n m'.pmm

pub slab_cache_create-Made :
    (n name size flags : ℕ) (m : Machine)
    → IsPmm m.pmm
    → HasFree (suc (suc n)) m.pmm
    → 4 ≤ size
    → size ≤ 512
    → is_power_of_two size ≡ true
    → (cache : ℕ) × (m' : Machine) × (slab_cache_create name size flags m ≡ done cache m')
      × Made n size m cache m'
slab_cache_create-Made n name size flags m valid free low high power =
    let (cache, m', ran, made) =
      slab_cache_create-Created size (λ page k mem. LinkedIfWide size page k mem)
        (λ cache page room mem bare zeros roomy.
          headed-Chain cache page size (count_max size) room mem bare roomy (zeros roomy))
        (λ cache page room mem k less chain roomy.
          extended-Chain cache page size (count_max size) room mem k roomy less (chain roomy))
        name flags m valid (two_free n free) low high power in
    (
      cache,
      m',
      ran,
      record {
        home = made-Home n size m valid free cache m' made;
        keeps = made-Keeps n size m valid free cache m' made;
        free = made-HasFree n size m valid free cache m' made;
      },
    )
