-- ===== src/Mm/Slab/Stack/Take.antt =====
-- fckrnl/mm/slab.c: `slab_cache_alloc` where the first slab has a free object.
use fusioncore.Base.{
  ℕ, suc, ◌^◌, ◌<◌, ◌≡◌, ◌≢◌, refl, ap, ◌∙◌, sub64, not, ◌==◌, ==_ne, if◌then◌else◌,
}
use fusioncore.Machine.{Cmd, Machine, done, ◌>>=◌, ◌>>◌, read64, write64}
use fusioncore.Machine.Bytes.{Memory}
use fusioncore.Machine.Laws.{word, put, words}
use fusioncore.Machine.Steps.{after_test, after_pointer}
use fusioncore.Mm.Slab.Layout.{
  slab_bufctl_count, slab_freelist_head, cache_slabs, cache_slabs_head, sizeof_cache, sizeof_slab,
}
use fusioncore.Mm.Slab.Objects.{Apart, take_object-done, relinked}
use fusioncore.Mm.Slab.Cache.{advance, slab_cache_alloc, alloc_walk, take_object}

-- A cache whose first slab is `slab`.
pub record Ready (cache slab : ℕ) (mem : Memory) : Type 0 where
  pub cache_exists : cache ≢ 0
  pub slab_exists : slab ≢ 0
  pub slab_small : slab < 2 ^ 64
  pub apart : Apart cache sizeof_cache slab sizeof_slab
  pub head_word : word mem (cache_slabs_head cache) ≡ slab

after_object :
    {A : Type 0} (a : ℕ) (takes d : Cmd A) (m : Machine)
    → a ≢ 0
    → (if not (a == 0) then takes else d) m ≡ takes m
after_object a takes d m ne = rw (==_ne a 0 ne) refl

module _ (cache slab : ℕ) where
  -- What the walk does at a slab, from its list's first object.
  abbrev pub at_object : ℕ → ℕ → ℕ → Cmd ℕ
  at_object fuel flags f =
      if not (f == 0) then take_object cache else (do advance cache; alloc_walk fuel cache flags)

  pub slab_cache_alloc-takes :
      (fuel flags : ℕ) (m : Machine) (x : ℕ)
      → Ready cache slab m.mem
      → word m.mem (slab_freelist_head slab) ≡ x
      → x ≢ 0
      → slab_cache_alloc (suc fuel) cache flags m
        ≡ done x (record m {
          mem =
              relinked
                (put m.mem (cache_slabs cache) slab)
                slab
                (word (put m.mem (cache_slabs cache) slab) x)
                (sub64 (word (put m.mem (cache_slabs cache) slab) (slab_bufctl_count slab)) 1);
        })
  unfolding slab_cache_alloc alloc_walk read64 write64
  slab_cache_alloc-takes fuel flags m x ready at exists =
      let mem0 = put m.mem (cache_slabs cache) slab in
      let m0 : Machine = record m { mem = mem0 } in
      let apart = ready.apart in
      let small = ready.slab_small in
      let cursor : word mem0 (cache_slabs cache) ≡ slab = grind words in
      let top : word mem0 (slab_freelist_head slab) ≡ x = grind (words, at) in
      after_test cache _ _ m ready.cache_exists
      ∙ ap
          (λ h.
            alloc_walk (suc fuel) cache flags (record m { mem = put m.mem (cache_slabs cache) h }))
          ready.head_word
      ∙ after_pointer (read64 (cache_slabs cache)) _
          (λ s. read64 (slab_freelist_head s) >>= at_object fuel flags) slab m0 m0
          (ap (λ a. done a m0) cursor) ready.slab_exists
      ∙ ap (λ f. at_object fuel flags f m0) top
      ∙ after_object x (take_object cache) _ m0 exists
      ∙ take_object-done cache slab apart m0 cursor
      ∙ rw top refl
