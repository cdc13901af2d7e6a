-- ===== src/Examples/Text.antt =====
-- Blocks of memory, the allocator's size classes and the serial port on small inputs.
use fusioncore.Base.{ℕ, ◌%◌, ◌<◌, ◌≤◌, ◌≡◌, ◌↔◌, arith}
use fusioncore.Base.Int.{pos}
use fusioncore.Machine.Bytes.{Memory}
use fusioncore.Libk.Text.{memcmp}
use fusioncore.Libk.Text.Laws.{SameBytes, memcmp-zero_iff}
use fusioncore.Libk.Malloc.{get_slab_cache_index}
use fusioncore.Libk.Malloc.Sizes.{object_size, get_slab_cache_index-least}

-- Byte `a` holds `a % 4`.
abbrev stripes : Memory
stripes a = a % 4

memcmp-zero_iff_example : (memcmp stripes 4 8 6 ≡ pos 0) ↔ SameBytes stripes 4 8 6
memcmp-zero_iff_example = memcmp-zero_iff 6 stripes 4 8

get_slab_cache_index-least_example :
    (get_slab_cache_index 100 < 8)
    × (100 ≤ object_size (get_slab_cache_index 100))
    × ((j : ℕ) → j < get_slab_cache_index 100 → object_size j < 100)
get_slab_cache_index-least_example = get_slab_cache_index-least 100 (omega arith)
