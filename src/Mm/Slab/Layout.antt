-- ===== src/Mm/Slab/Layout.antt =====
-- Where the fields of the structures of fckrnl/mm/slab.h lie, and the flags.
use fusioncore.Base.{ℕ, ◌+◌, bit_and, Bool, not, ◌==◌}

-- `slab_bufctl_t`: a free object, in the object's own bytes.
abbrev pub bufctl_next : ℕ → ℕ
bufctl_next b = b

abbrev pub bufctl_ptr : ℕ → ℕ
bufctl_ptr b = b + 8

-- `slab_t`: the head of a slab, in the last bytes of its page.
abbrev pub slab_next : ℕ → ℕ
slab_next s = s

abbrev pub slab_bufctl_count : ℕ → ℕ
slab_bufctl_count s = s + 8

abbrev pub slab_freelist_head : ℕ → ℕ
slab_freelist_head s = s + 16

abbrev pub slab_freelist : ℕ → ℕ
slab_freelist s = s + 24

abbrev pub sizeof_slab : ℕ
sizeof_slab = 32

-- `slab_cache_t`
abbrev pub cache_name : ℕ → ℕ
cache_name c = c

abbrev pub cache_slab_size : ℕ → ℕ
cache_slab_size c = c + 8

abbrev pub cache_bufctl_count_max : ℕ → ℕ
cache_bufctl_count_max c = c + 16

abbrev pub cache_slabs_head : ℕ → ℕ
cache_slabs_head c = c + 24

abbrev pub cache_slabs : ℕ → ℕ
cache_slabs c = c + 32

abbrev pub sizeof_cache : ℕ
sizeof_cache = 40

-- `slab_flags_t`, and `flags & flag` as a test.
abbrev pub slab_panic : ℕ
slab_panic = 1

abbrev pub slab_auto_grow : ℕ
slab_auto_grow = 2

abbrev pub is_flagged : ℕ → ℕ → Bool
is_flagged flags flag = not (bit_and flags flag == 0)
