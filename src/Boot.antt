-- ===== src/Boot.antt =====
-- fckrnl/boot/boot.c: the tags of the boot loader's structure, a list in memory.
pub mod Tags
use fusioncore.Base.{ℕ, zero, suc, ◌+◌, Option, none, some, ◌==◌, if◌then◌else◌}
use fusioncore.Machine.Bytes.{Memory, load}

-- Fields of a `stivale2_tag`, and `stivale2_struct->tags` behind its two names of 64 bytes.
abbrev pub tag_identifier : Memory → ℕ → ℕ
tag_identifier m tag = load 8 m tag

abbrev pub tag_next : Memory → ℕ → ℕ
tag_next m tag = load 8 m (tag + 8)

abbrev pub struct_tags : Memory → ℕ → ℕ
struct_tags m s = load 8 m (s + 128)

-- The loop: `none` is a list that was not at its end when the fuel ran out, 0 is NULL.
unfoldable pub find_tag : ℕ → Memory → ℕ → ℕ → Option ℕ
find_tag zero m id tag = none
find_tag (suc fuel) m id tag =
    let rest = find_tag fuel m id (tag_next m tag) in
    if tag == 0 then some 0 else (if tag_identifier m tag == id then some tag else rest)

unfoldable pub stivale2_get_tag : ℕ → Memory → ℕ → ℕ → Option ℕ
unfolding find_tag
stivale2_get_tag fuel m stivale2_struct id = find_tag fuel m id (struct_tags m stivale2_struct)
