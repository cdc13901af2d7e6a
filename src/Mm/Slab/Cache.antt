-- ===== src/Mm/Slab/Cache.antt =====
-- fckrnl/mm/slab.c: the operations on a cache. The walks along a cache's slabs take fuel, since
-- nothing in the code keeps a list of slabs from being cyclic.
use fusioncore.Base.{
  ℕ, zero, suc, ◌+◌, ◌-◌, ◌/◌, Bool, true, false, not, leb, ltb, ◌==◌, if◌then◌else◌, u32, u64,
  sub64,
}
use fusioncore.Machine.{Cmd, spinning, pure, panic, ◌>>=◌, ◌>>◌, read64, write64}
use fusioncore.Mm.Memmap.{page_size}
use fusioncore.Mm.Zeroed.{pmm_allocz, pmm_free, fill}
use fusioncore.Mm.Slab.{is_power_of_two, slab_cache_grow}
use fusioncore.Mm.Slab.Layout.{
  bufctl_next, bufctl_ptr, slab_next, slab_bufctl_count, slab_freelist_head, slab_freelist,
  cache_name, cache_slab_size, cache_bufctl_count_max, cache_slabs_head, cache_slabs, sizeof_cache,
  slab_panic, slab_auto_grow, is_flagged,
}

-- `if (!cache && (flags & SLAB_PANIC)) log(PANIC, ...); if (!cache) return result;`
abbrev pub missing : {A : Type 0} → ℕ → A → Cmd A
missing flags result = if is_flagged flags slab_panic then panic else pure result

-- The field `slabs` serves as the cursor of every walk.
abbrev pub rewind : ℕ → Cmd (Unit {0})
rewind cache = do write64 (cache_slabs cache) (← read64 (cache_slabs_head cache))

abbrev pub advance : ℕ → Cmd (Unit {0})
advance cache = do write64 (cache_slabs cache) (← read64 (slab_next (← read64 (cache_slabs cache))))

-- `name` is the address of the name's text.
unfoldable pub slab_cache_create : ℕ → ℕ → ℕ → Cmd ℕ
unfolding is_power_of_two slab_cache_grow
slab_cache_create name slab_size flags =
    if not (leb slab_size 512)
    then panic
    else (if not (is_power_of_two (u32 slab_size)) then panic else (do
      cache ← pmm_allocz 1
      if cache == 0 then missing flags 0 else (do
        write64 (cache_name cache) name
        write64 (cache_slab_size cache) slab_size
        size ← read64 (cache_slab_size cache)
        write64 (cache_bufctl_count_max cache) ((page_size - sizeof_cache) / size)
        write64 (cache_slabs cache) 0
        slab_cache_grow cache 1 flags
        pure cache)))

-- The object at the head of the current slab's free list is taken off.
unfoldable pub take_object : ℕ → Cmd ℕ
take_object cache = do
  ptr ← read64 (slab_freelist_head (← read64 (cache_slabs cache)))
  slab ← read64 (cache_slabs cache)
  next ← read64 (bufctl_next (← read64 (slab_freelist_head (← read64 (cache_slabs cache)))))
  write64 (slab_freelist_head slab) next
  slab' ← read64 (cache_slabs cache)
  count ← read64 (slab_bufctl_count slab')
  write64 (slab_bufctl_count slab') (sub64 count 1)
  pure ptr

-- The loop of `slab_cache_alloc`. Where it grows the cache it starts again, as the call of itself
-- does that the source makes there.
unfoldable pub alloc_walk : ℕ → ℕ → ℕ → Cmd ℕ
unfolding take_object slab_cache_grow
alloc_walk zero cache flags = λ _. spinning
alloc_walk (suc fuel) cache flags = do
  slab ← read64 (cache_slabs cache)
  if slab == 0
      then (if is_flagged flags slab_auto_grow
          then (do slab_cache_grow cache 1 flags; rewind cache; alloc_walk fuel cache flags)
          else missing flags 0)
      else (do
        free_object ← read64 (slab_freelist_head slab)
        if not (free_object == 0)
            then take_object cache
            else (do advance cache; alloc_walk fuel cache flags))

unfoldable pub slab_cache_alloc : ℕ → ℕ → ℕ → Cmd ℕ
unfolding alloc_walk
slab_cache_alloc fuel cache flags =
    if cache == 0 then missing flags 0 else (do rewind cache; alloc_walk fuel cache flags)

-- The object is put at the head of the current slab's free list.
unfoldable pub put_object : ℕ → ℕ → Cmd (Unit {0})
put_object cache ptr = do
  write64 (bufctl_next ptr) (← read64 (slab_freelist_head (← read64 (cache_slabs cache))))
  write64 (bufctl_ptr ptr) ptr
  write64 (slab_freelist_head (← read64 (cache_slabs cache))) ptr
  slab ← read64 (cache_slabs cache)
  count ← read64 (slab_bufctl_count slab)
  write64 (slab_bufctl_count slab) (u64 (count + 1))

-- The loop of `slab_cache_free`: the first slab that lacks an object, not the one of `ptr`.
unfoldable pub free_walk : ℕ → ℕ → ℕ → ℕ → Cmd (Unit {0})
unfolding put_object
free_walk zero cache ptr flags = λ _. spinning
free_walk (suc fuel) cache ptr flags = do
  slab ← read64 (cache_slabs cache)
  if slab == 0 then missing flags tt else (do
    count ← read64 (slab_bufctl_count slab)
    max ← read64 (cache_bufctl_count_max cache)
    if ltb count max
        then put_object cache ptr
        else (do advance cache; free_walk fuel cache ptr flags))

unfoldable pub slab_cache_free : ℕ → ℕ → ℕ → ℕ → Cmd (Unit {0})
unfolding free_walk
slab_cache_free fuel cache ptr flags =
    if cache == 0 then missing flags tt else (do rewind cache; free_walk fuel cache ptr flags)

-- The loop of `slab_cache_reap`, with `prev`.
unfoldable pub reap_walk : ℕ → ℕ → ℕ → Cmd (Unit {0})
reap_walk zero cache prev = λ _. spinning
reap_walk (suc fuel) cache prev = do
  slab ← read64 (cache_slabs cache)
  if slab == 0 then rewind cache else (do
    count ← read64 (slab_bufctl_count slab)
    max ← read64 (cache_bufctl_count_max cache)
    if count == max
        then (do
          head ← read64 (cache_slabs_head cache)
          (if slab == head
              then (do write64 (cache_slabs_head cache) (← read64 (slab_next slab)))
              else pure tt)
          write64 (slab_next prev) (← read64 (slab_next (← read64 (cache_slabs cache))))
          pmm_free (← read64 (cache_slabs cache)) 1
          write64 (cache_slabs cache) (← read64 (slab_next prev))
          reap_walk fuel cache prev)
        else (do prev' ← read64 (cache_slabs cache); advance cache; reap_walk fuel cache prev'))

unfoldable pub slab_cache_reap : ℕ → ℕ → ℕ → Cmd (Unit {0})
unfolding reap_walk
slab_cache_reap fuel cache flags =
    if cache == 0
    then missing flags tt
    else (do rewind cache; reap_walk fuel cache (← read64 (cache_slabs_head cache)))

-- The loop of `slab_cache_destroy`. The test on the objects out may stop it half way.
unfoldable pub destroy_walk : ℕ → ℕ → ℕ → Cmd Bool
destroy_walk zero cache flags = λ _. spinning
destroy_walk (suc fuel) cache flags = do
  slab ← read64 (cache_slabs cache)
  if slab == 0 then pure true else (do
    count ← read64 (slab_bufctl_count slab)
    max ← read64 (cache_bufctl_count_max cache)
    if count == max
        then (do
          pmm_free (← read64 (slab_freelist_head slab)) 1
          advance cache
          destroy_walk fuel cache flags)
        else missing flags false)

unfoldable pub slab_cache_destroy : ℕ → ℕ → ℕ → Cmd (Unit {0})
unfolding destroy_walk
slab_cache_destroy fuel cache flags = if cache == 0 then missing flags tt else (do
  rewind cache
  all_free ← destroy_walk fuel cache flags
  if all_free then (do fill cache 0 sizeof_cache; pmm_free cache 1) else pure tt)

-- The inner loop of `slab_cache_dump`, without the lines that it prints.
unfoldable pub dump_objects : ℕ → ℕ → Cmd (Unit {0})
dump_objects zero cache = λ _. spinning
dump_objects (suc fuel) cache = do
  slab ← read64 (cache_slabs cache)
  free_object ← read64 (slab_freelist slab)
  if free_object == 0 then pure tt else (do
    write64 (slab_freelist slab) (← read64 (bufctl_next free_object))
    dump_objects fuel cache)

unfoldable pub dump_walk : ℕ → ℕ → Cmd (Unit {0})
unfolding dump_objects
dump_walk zero cache = λ _. spinning
dump_walk (suc fuel) cache = do
  slab ← read64 (cache_slabs cache)
  if slab == 0 then pure tt else (do
    write64 (slab_freelist slab) (← read64 (slab_freelist_head slab))
    dump_objects fuel cache
    advance cache
    dump_walk fuel cache)

-- The walk starts at the cursor, not at the head.
unfoldable pub slab_cache_dump : ℕ → ℕ → ℕ → Cmd (Unit {0})
unfolding dump_walk
slab_cache_dump fuel cache flags = do
  slab ← read64 (cache_slabs cache)
  if slab == 0 then missing flags tt else dump_walk fuel cache
