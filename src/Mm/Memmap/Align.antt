-- ===== src/Mm/Memmap/Align.antt =====
-- `ALIGN_DOWN` and `ALIGN_UP` as division, for pages.
use fusioncore.Base.{
  ℕ, ◌+◌, ◌-◌, ◌*◌, ◌/◌, ◌%◌, ◌^◌, ◌≤◌, ◌<◌, bit_and, ◌≡◌, sym, ap, ◌∙◌, arith, u64,
}
use fusioncore.Base.Bits.{bit_and_high, bit_and_mask}
use fusioncore.Mm.Memmap.{page_size, align_up, align_down}

page_mask : (a : ℕ) → a < 2 ^ 64 → bit_and a (2 ^ 64 - page_size) ≡ a / page_size * page_size
page_mask a h =
    let split : a / 4096 * 2 ^ 12 + a % 4096 ≡ a = omega arith in
    ap (λ (t : ℕ). bit_and t (2 ^ 64 - page_size)) (sym split)
    ∙ bit_and_high 12 (a / 4096) (a % 4096) (2 ^ 52 - 1) (omega arith)
    ∙ ap (λ (t : ℕ). t * 4096) (bit_and_mask 52 (a / 4096) ∙ small)
  where
    small : a / 4096 % 2 ^ 52 ≡ a / 4096
    small = omega arith

pub align_down_lem : (a : ℕ) → a < 2 ^ 64 → align_down a page_size ≡ a / page_size * page_size
align_down_lem a h =
    let same : u64 a ≡ a = omega arith in
    ap (λ (t : ℕ). bit_and t (2 ^ 64 - page_size)) same ∙ page_mask a h

-- `ALIGN_UP` is the least multiple of the page size that is not below the address.
pub align_up_lem :
    (a : ℕ)
    → a + page_size ≤ 2 ^ 64
    → align_up a page_size ≡ (a + (page_size - 1)) / page_size * page_size
align_up_lem a h =
    let same : u64 (a + page_size - 1) ≡ a + (page_size - 1) = omega arith in
    ap (λ (t : ℕ). bit_and t (2 ^ 64 - page_size)) same ∙ page_mask (a + 4095) (omega arith)
