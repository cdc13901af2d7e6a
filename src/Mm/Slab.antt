-- ===== src/Mm/Slab.antt =====
-- fckrnl/mm/slab.c and slab.h: the structures in memory, and the making of slabs.
-- A pointer is an address, 0 for NULL. A line of C that goes through a pointer twice reads it
-- twice here too.
pub mod Layout
pub mod Cache
pub mod Power
pub mod Objects
pub mod Stock
pub mod Stack
pub mod Serve
use fusioncore.Base.{
  ℕ, zero, suc, ◌+◌, ◌-◌, ◌*◌, ◌^◌, bit_and, Bool, not, ◌&&◌, ltb, ◌==◌, if◌then◌else◌, u64, sub64,
}
use fusioncore.Machine.{Cmd, spinning, pure, panic, ◌>>=◌, ◌>>◌, read64, write64}
use fusioncore.Mm.Memmap.{page_size}
use fusioncore.Mm.Zeroed.{pmm_allocz}
use Layout.{
  bufctl_next, bufctl_ptr, slab_next, slab_bufctl_count, slab_freelist_head, slab_freelist,
  sizeof_slab, cache_slab_size, cache_bufctl_count_max, cache_slabs_head, cache_slabs, slab_panic,
  is_flagged,
}

-- `num` is an `int`, given by its 32 bits.
unfoldable pub is_power_of_two : ℕ → Bool
is_power_of_two num = ltb 0 num && ltb num (2 ^ 31) && bit_and num (num - 1) == 0

unfoldable pub slab_create_bufctl : Cmd ℕ
slab_create_bufctl = do
  bufctl ← pmm_allocz 1
  if bufctl == 0 then pure 0 else do write64 (bufctl_next bufctl) 0; pure bufctl

unfoldable pub slab_create_slab : ℕ → ℕ → Cmd (Unit {0})
slab_create_slab cache bufctl =
    let slab = sub64 (u64 (bufctl + page_size)) sizeof_slab in
    do
      write64 (slab_next slab) 0
      write64 (slab_bufctl_count slab) (← read64 (cache_bufctl_count_max cache))
      write64 (slab_freelist_head slab) 0
      write64 (slab_freelist slab) 0
      current ← read64 (cache_slabs cache)
      if current == 0
          then (do write64 (cache_slabs_head cache) slab; write64 (cache_slabs cache) slab)
          else (do
            write64 (slab_next (← read64 (cache_slabs cache))) slab
            write64 (cache_slabs cache) (← read64 (slab_next (← read64 (cache_slabs cache)))))

unfoldable pub slab_init_bufctls : ℕ → ℕ → ℕ → Cmd (Unit {0})
slab_init_bufctls cache bufctl index = do
  size ← read64 (cache_slab_size cache)
  let new_bufctl = u64 (bufctl + u64 (size * index))
  write64 (bufctl_ptr new_bufctl) new_bufctl
  freelist ← read64 (slab_freelist (← read64 (cache_slabs cache)))
  if freelist == 0
      then (do
        write64 (slab_freelist_head (← read64 (cache_slabs cache))) new_bufctl
        write64 (slab_freelist (← read64 (cache_slabs cache))) new_bufctl)
      else (do
        write64 (bufctl_next (← read64 (slab_freelist (← read64 (cache_slabs cache))))) new_bufctl
        next ← read64 (bufctl_next (← read64 (slab_freelist (← read64 (cache_slabs cache)))))
        write64 (slab_freelist (← read64 (cache_slabs cache))) next)

-- `for (j = 0; j < cache->bufctl_count_max; j++)`. The bound is read in every round.
unfoldable pub init_bufctls : ℕ → ℕ → ℕ → ℕ → Cmd (Unit {0})
unfolding slab_init_bufctls
init_bufctls zero cache bufctl j = λ _. spinning
init_bufctls (suc fuel) cache bufctl j = do
  max ← read64 (cache_bufctl_count_max cache)
  if ltb j max
      then (do slab_init_bufctls cache bufctl j; init_bufctls fuel cache bufctl (j + 1))
      else pure tt

-- The loop of `slab_cache_grow`, with `count` slabs to go. A page holds fewer than 4097 objects,
-- so the fuel of the inner loop is enough.
unfoldable pub grow_slabs : ℕ → ℕ → ℕ → Cmd (Unit {0})
unfolding slab_create_bufctl slab_create_slab init_bufctls
grow_slabs zero cache flags = pure tt
grow_slabs (suc count) cache flags = do
  bufctl ← slab_create_bufctl
  if bufctl == 0 then (if is_flagged flags slab_panic then panic else pure tt) else (do
    slab_create_slab cache bufctl
    init_bufctls 4097 cache bufctl 0
    grow_slabs count cache flags)

unfoldable pub slab_cache_grow : ℕ → ℕ → ℕ → Cmd (Unit {0})
unfolding grow_slabs
slab_cache_grow cache count flags =
    if cache == 0 then (if is_flagged flags slab_panic then panic else pure tt) else (do
      write64 (cache_slabs cache) (← read64 (cache_slabs_head cache))
      grow_slabs count cache flags)
