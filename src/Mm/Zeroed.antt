-- ===== src/Mm/Zeroed.antt =====
-- `pmm_allocz` and `pmm_free` of fckrnl/mm/phys.c, over the memory too.
pub mod Cleared
use fusioncore.Base.{ℕ, ◌*◌, u64}
use fusioncore.Libk.Text.{memset}
use fusioncore.Machine.{Cmd, done, ◌>>=◌, ◌>>◌, pure, with_pmm}
use fusioncore.Mm.Memmap.{page_size}
use fusioncore.Mm.Phys
use mathlib.Core.Option

-- `memset` on the machine's memory.
unfoldable pub fill : ℕ → ℕ → ℕ → Cmd (Unit {0})
fill ptr val n m = done tt (record m { mem = memset ptr val n m.mem })

-- The fill is not guarded by a test for NULL.
unfoldable pub pmm_allocz : ℕ → Cmd ℕ
unfolding fill
pmm_allocz page_cnt = do
  ptr ← with_pmm (Phys.pmm_alloc page_cnt)
  fill ptr 0 (u64 (page_size * page_cnt))
  pure ptr

unfoldable pub pmm_free : ℕ → ℕ → Cmd (Unit {0})
pmm_free ptr page_cnt = with_pmm λ p. Option.map (λ p'. (tt, p')) (Phys.pmm_free ptr page_cnt p)
