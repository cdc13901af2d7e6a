-- ===== src/Mm/Slab/Stock/Tight.antt =====
-- fckrnl/mm/slab.c: objects of 4 bytes, over which the two 8-byte fields of a free object run.
use fusioncore.Base.{
  ℕ, zero, suc, ◌≢◌, sub64, ◌+◌, ◌*◌, ◌%◌, ◌^◌, ◌≤◌, ◌<◌, ◌≡◌, refl, ap, ◌∙◌, arith, inl, ◌⊎◌,
}
use fusioncore.Machine.{Machine, Cmd, done, and_then, pure, ◌>>=◌}
use fusioncore.Machine.Bytes.{Memory, load, load-store_apart, load-store_low, load-halves}
use fusioncore.Machine.Laws.{word, put, word-put_apart, words}
use fusioncore.Mm.Memmap.{page_size}
use fusioncore.Mm.Slab.Layout.{
  bufctl_ptr, slab_freelist, slab_freelist_head, slab_bufctl_count, cache_slabs, sizeof_cache,
  sizeof_slab,
}
use fusioncore.Mm.Phys.Search.{IsPmm}
use fusioncore.Mm.Phys.Free.{HasFree}
use fusioncore.Mm.Slab.{is_power_of_two}
use fusioncore.Mm.Slab.Cache.{slab_cache_create, slab_cache_alloc}
use fusioncore.Mm.Slab.Objects.{Apart, relinked}
use fusioncore.Mm.Slab.Stack.Take.{Ready, slab_cache_alloc-takes}
use fusioncore.Mm.Slab.Stock.Described.{count_max}
use fusioncore.Mm.Slab.Stock.Create.{Created, slab_cache_create-Created}
use fusioncore.Mm.Slab.Stock.{slab_of, object_at, link_at, extended}

-- Once three objects are put in, the first object's link holds the low halves of the addresses of
-- the second and the third.
pub record Torn (page k : ℕ) (mem : Memory) : Type 0 where
  pub low : 2 ≤ k → load 4 mem page ≡ (page + 4) % 2 ^ 32
  pub high : 3 ≤ k → load 4 mem (page + 4) ≡ (page + 8) % 2 ^ 32

-- The four bytes at `a` keep where neither write touches them.
keeps4 :
    (page k a : ℕ) (mem : Memory)
    → a + 4 ≤ page + 12
    → a + 4 ≤ bufctl_ptr (object_at page 4 k)
    → (a + 4 ≤ link_at page 4 k) ⊎ (link_at page 4 k + 8 ≤ a)
    → load 4 (extended page 4 mem k) a ≡ load 4 mem a
keeps4 page k a mem low off_ptr off_link =
    let new = object_at page 4 k in
    let mem1 = put mem (bufctl_ptr new) new in
    load-store_apart 4 8 (put mem1 (link_at page 4 k) new) a (slab_freelist (slab_of page)) new
      (inl (omega arith))
    ∙ load-store_apart 4 8 mem1 a (link_at page 4 k) new off_link
    ∙ load-store_apart 4 8 mem a (bufctl_ptr new) new (inl off_ptr)

-- The four bytes that the link's low half is written to.
links4 :
    (page k : ℕ) (mem : Memory)
    → link_at page 4 k + 4 ≤ slab_of page
    → load 4 (extended page 4 mem k) (link_at page 4 k) ≡ object_at page 4 k % 2 ^ 32
links4 page k mem low =
    let new = object_at page 4 k in
    let mem1 = put mem (bufctl_ptr new) new in
    load-store_apart 4 8 (put mem1 (link_at page 4 k) new) (link_at page 4 k)
      (slab_freelist (slab_of page)) new (inl (omega arith))
    ∙ load-store_low 4 8 mem1 (link_at page 4 k) new (omega arith)

extended-Torn :
    (page k : ℕ) (mem : Memory) → Torn page k mem → Torn page (suc k) (extended page 4 mem k)
extended-Torn page zero mem torn = record {
  low = λ late. absurd (omega arith);
  high = λ late. absurd (omega arith);
}
extended-Torn page (suc zero) mem torn = record {
  low = λ late.
      ap (load 4 (extended page 4 mem 1)) (omega arith) ∙ links4 page 1 mem (omega arith) ∙ refl;
  high = λ late. absurd (omega arith);
}
extended-Torn page (suc (suc zero)) mem torn = record {
  low = λ late.
      keeps4 page 2 page mem (omega arith) (omega arith) (inl (omega arith))
      ∙ torn.low (omega arith);
  high = λ late. links4 page 2 mem (omega arith);
}
extended-Torn page (suc (suc (suc k))) mem torn = record {
  low = λ late.
      keeps4 page (suc (suc (suc k))) page mem (omega arith) (omega arith) (inl (omega arith))
      ∙ torn.low (omega arith);
  high = λ late.
      keeps4 page (suc (suc (suc k))) (page + 4) mem (omega arith) (omega arith) (inl (omega arith))
      ∙ torn.high (omega arith);
}

-- What the first object's link holds then.
abbrev pub torn_link : ℕ → ℕ
torn_link page = (page + 4) % 2 ^ 32 + 2 ^ 32 * ((page + 8) % 2 ^ 32)

Torn-link : (page k : ℕ) (mem : Memory) → 3 ≤ k → Torn page k mem → word mem page ≡ torn_link page
Torn-link page k mem late torn =
    load-halves mem page ∙ omega (arith, torn.low (omega arith), torn.high late)

slab_cache_create-Torn :
    (name flags : ℕ) (m : Machine)
    → IsPmm m.pmm
    → HasFree 2 m.pmm
    → (cache : ℕ) × (m' : Machine) × (slab_cache_create name 4 flags m ≡ done cache m')
      × Created 4 Torn m cache m'
unfolding is_power_of_two
slab_cache_create-Torn name flags m valid free =
    slab_cache_create-Created 4 Torn
      (λ cache page room mem bare zeros. record {
        low = λ late. absurd (omega arith);
        high = λ late. absurd (omega arith);
      })
      (λ cache page room mem k less torn. extended-Torn page k mem torn) name flags m valid free
      (omega arith) (omega arith) refl

-- A cache that is made, and then asked for two objects.
abbrev pub two_objects : ℕ → ℕ → ℕ → Cmd (ℕ × ℕ)
two_objects name size flags = do
  cache ← slab_cache_create name size flags
  first ← slab_cache_alloc 1 cache flags
  second ← slab_cache_alloc 1 cache flags
  pure (first, second)

module _ (cache page : ℕ) (apart : Apart cache sizeof_cache (slab_of page) sizeof_slab) where
  -- Memory after the first object is taken.
  abbrev taken : Memory → ℕ → ℕ → Memory
  taken mem next n = relinked (put mem (cache_slabs cache) (slab_of page)) (slab_of page) next n

  taken-Ready :
      (mem : Memory) (next n : ℕ)
      → Ready cache (slab_of page) mem
      → Ready cache (slab_of page) (taken mem next n)
  taken-Ready mem next n ready =
      let small = ready.slab_small in
      record {
        cache_exists = ready.cache_exists;
        slab_exists = ready.slab_exists;
        slab_small = ready.slab_small;
        apart = apart;
        head_word = grind (words, ready.head_word);
      }

  taken-head :
      (mem : Memory) (next n : ℕ)
      → next < 2 ^ 64
      → word (taken mem next n) (slab_freelist_head (slab_of page)) ≡ next
  taken-head mem next n fits = grind words

-- On a well-formed allocator with two free pages and all pages below 2^32, a cache of 4-byte
-- objects is made, and of the two objects that slab_cache_alloc then gives without flags the first
-- starts the slab's page and the second has an address behind that page: the link in the first
-- object is half overwritten by the fields of the objects behind it.
pub slab_cache_create-torn :
    (name flags : ℕ) (m : Machine)
    → IsPmm m.pmm
    → HasFree 2 m.pmm
    → m.pmm.hi_page_top ≤ 2 ^ 32
    → (page : ℕ) × (m' : Machine) × (two_objects name 4 flags m ≡ done (page, torn_link page) m')
      × (page + page_size ≤ torn_link page)
slab_cache_create-torn name flags m valid free top =
    let (cache, m1, made_by, made) = slab_cache_create-Torn name flags m valid free in
    let page = made.page in
    let slab = slab_of page in
    let aligned : page % page_size ≡ 0 = omega (arith, made.page_granted.address) in
    let page_low : page < 2 ^ 32 = omega (
      arith, made.page_granted.address, made.page_granted.below_top,
      made.cache_granted.marked.same_top, top,
    ) in
    let exists : page ≢ 0 = let e = made.room.page_exists in ground arith in
    let off = made.room.cache_apart in
    let page_small = made.room.page_small in
    let ready : Ready cache slab m1.mem = record {
      cache_exists = made.exists;
      slab_exists = ground arith;
      slab_small = omega arith;
      apart = ground arith;
      head_word = made.head;
    } in
    let mem0 = put m1.mem (cache_slabs cache) slab in
    let link : word mem0 page ≡ torn_link page =
      word-put_apart m1.mem (cache_slabs cache) slab page (ground arith)
      ∙ Torn-link page (count_max 4) m1.mem (omega arith) made.holds in
    let n = sub64 (word mem0 (slab_bufctl_count slab)) 1 in
    let mem2 = taken cache page ready.apart m1.mem (torn_link page) n in
    let m2 : Machine = record m1 { mem = mem2 } in
    let next : torn_link page ≢ 0 = ground arith in
    let first : slab_cache_alloc 1 cache flags m1 ≡ done page m2 =
      slab_cache_alloc-takes cache slab 0 flags m1 page ready made.filling.head_word exists
      ∙ ap (λ l. done page (record m1 { mem = relinked mem0 slab l n })) link in
    let second =
      slab_cache_alloc-takes cache slab 0 flags m2 (torn_link page)
        (taken-Ready cache page ready.apart m1.mem (torn_link page) n ready)
        (taken-head cache page ready.apart m1.mem (torn_link page) n (omega arith)) next in
    (
      page,
      record m2 {
        mem =
            relinked (put mem2 (cache_slabs cache) slab) slab
              (word (put mem2 (cache_slabs cache) slab) (torn_link page))
              (sub64 (word (put mem2 (cache_slabs cache) slab) (slab_bufctl_count slab)) 1);
      },
      ap
            (λ r. and_then r λ c.
              (slab_cache_alloc 1 c flags >>= λ a. slab_cache_alloc 1 c flags >>= λ b. pure (a, b)))
            made_by
          ∙ ap (λ r. and_then r λ a. (slab_cache_alloc 1 cache flags >>= λ b. pure (a, b))) first
          ∙ ap (λ r. and_then r λ b. pure (page, b)) second,
      omega arith,
    )
