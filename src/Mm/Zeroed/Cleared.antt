-- ===== src/Mm/Zeroed/Cleared.antt =====
-- What `pmm_allocz` does to memory.
use fusioncore.Base.{ℕ, ◌*◌, ◌≡◌, ap, some, if◌then◌else◌, u64}
use fusioncore.Libk.Text.{memset}
use fusioncore.Libk.Text.Laws.{in_block, memset_lem}
use fusioncore.Machine.{Machine, done, from_pmm, pure, ◌>>=◌, ◌>>◌}
use fusioncore.Machine.Bytes.{Memory}
use fusioncore.Mm.Memmap.{page_size}
use fusioncore.Mm.Phys
use fusioncore.Mm.Phys.{Pmm}
use fusioncore.Mm.Zeroed.{fill, pmm_allocz}

-- pmm_allocz returns what pmm_alloc returns, and clears as many bytes from that address on as the
-- pages have, and no others; for NULL these are the bytes from address 0 on.
pub pmm_allocz-clears :
    (n : ℕ) (m : Machine) (ptr : ℕ) (p' : Pmm)
    → Phys.pmm_alloc n m.pmm ≡ some (ptr, p')
    → (after : Memory) × (pmm_allocz n m ≡ done ptr (record { mem = after; pmm = p' }))
      × ((x : ℕ) → after x ≡ (if in_block ptr (u64 (page_size * n)) x then 0 else m.mem x))
unfolding pmm_allocz fill
pmm_allocz-clears n m ptr p' got = (
  memset ptr 0 (u64 (page_size * n)) m.mem,
  ap (λ o. (from_pmm o >>= λ a. fill a 0 (u64 (page_size * n)) >> pure a) m) got,
  λ x. memset_lem ptr 0 (u64 (page_size * n)) m.mem x,
)
