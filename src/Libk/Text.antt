-- ===== src/Libk/Text.antt =====
-- fckrnl/libk/string.c: memset and memcmp, over byte-addressed memory.
pub mod Laws
use fusioncore.Base.{ℕ, zero, suc, ◌+◌, ◌==◌, if◌then◌else◌}
use fusioncore.Base.Int.{ℤ, pos, sub_ℕ}
use fusioncore.Machine.Bytes.{Memory, poke}

-- The loop of `memset` at index `i`, with `left` rounds to go.
unfoldable pub memset_from : ℕ → ℕ → ℕ → ℕ → Memory → Memory
memset_from zero i ptr val m = m
memset_from (suc left) i ptr val m = memset_from left (i + 1) ptr val (poke m (ptr + i) val)

unfoldable pub memset : ℕ → ℕ → ℕ → Memory → Memory
unfolding memset_from
memset ptr val n m = memset_from n 0 ptr val m

-- The loop of `memcmp`, with `n` rounds to go; both pointers move on.
unfoldable pub memcmp : Memory → ℕ → ℕ → ℕ → ℤ
memcmp m p1 p2 zero = pos 0
memcmp m p1 p2 (suc n) =
    let rest = memcmp m (p1 + 1) (p2 + 1) n in if m p1 == m p2 then rest else sub_ℕ (m p1) (m p2)
