-- ===== src/Mm/Phys/Search.antt =====
-- `_get_ffp_range` against the first free bit of the bitmap.
use fusioncore.Base.{
  ℕ, zero, suc, ◌+◌, ◌*◌, ◌/◌, ◌^◌, ◌≤◌, ◌<◌, ◌≡◌, refl, inl, inr, true, false, Option, none, some,
  arith, length, eq_or_lt, Bool-cases, ap, sym, subst, ◌∙◌, u64, if◌then◌else◌, ◌==◌, ◌%◌,
}
use native.Mathlib.Nat.{one-le-pow, le_refl}
use fusioncore.Mm.Bitmap.{Bitmap, bitmap_get, is_set}
use fusioncore.Mm.Bitmap.Laws.{IsBitmap, bitmap_get-is_set}
use fusioncore.Mm.Memmap.{page_size, page_to_bit, bit_to_page}
use fusioncore.Mm.Phys.{Pmm, ffp_pages, ffp_bits, get_ffp_range}

-- What holds of the allocator's state between two calls.
pub record IsPmm (p : Pmm) : Type 0 where
  pub valid : IsBitmap p.bitmap
  pub covers : p.hi_page_top / page_size ≤ 8 * length p.bitmap.map
  pub fits_int : p.hi_page_top / page_size ≤ 2 ^ 31
  pub null_used : is_set p.bitmap 0 ≡ true

-- The answer of a search for a free page from `bit` on, below `top`.
pub data FirstFree (b : Bitmap) (bit top : ℕ) : Option ℕ → Type 0 where
  found :
      (i : ℕ)
      → bit ≤ i
      → i < top
      → is_set b i ≡ false
      → ((j : ℕ) → bit ≤ j → j < i → is_set b j ≡ true)
      → {r : Option ℕ} → r ≡ some (i * page_size)
      → FirstFree b bit top r
  exhausted :
      ((j : ℕ) → bit ≤ j → j < top → is_set b j ≡ true)
      → {r : Option ℕ} → r ≡ some 0
      → FirstFree b bit top r

module _ (b : Bitmap) (h : IsBitmap b) (bit : ℕ) (in_map : bit < 8 * length b.map)
    (fits : bit < 2 ^ 31) where
  -- `PAGE_TO_BIT(page_cnt_i)` is 0 for every index that a search for few pages reaches.
  reads_own_bit :
      (i : ℕ)
      → i < 4096
      → bitmap_get b (u64 (bit + page_to_bit i)) ≡ some (if is_set b bit then 2 ^ (bit % 8) else 0)
  reads_own_bit i small =
      let same : u64 (bit + page_to_bit i) ≡ bit = omega arith in
      ap (bitmap_get b) same ∙ bitmap_get-is_set b bit h (fits, in_map)

  mask-ne-zero : (2 ^ (bit % 8) == 0) ≡ false
  mask-ne-zero = ground (arith, one-le-pow (bit % 8) 2)

  ffp_pages-used :
      (n left i : ℕ) → is_set b bit ≡ true → i < 4096 → ffp_pages b bit n (suc left) i ≡ some none
  unfolding ffp_pages
  ffp_pages-used n left i used small = rw (reads_own_bit i small, used, mask-ne-zero) refl

  ffp_pages-free :
      (n left i : ℕ)
      → is_set b bit ≡ false
      → suc left + i ≡ n
      → n ≤ 4096
      → ffp_pages b bit n (suc left) i ≡ some (some (bit * page_size))
  unfolding ffp_pages
  ffp_pages-free n zero i free e small =
      rw (reads_own_bit i (omega arith), free) (ground (arith, bit_to_page_lem))
    where
      bit_to_page_lem : bit_to_page bit ≡ bit * page_size
      bit_to_page_lem = omega arith
  ffp_pages-free n (suc left) i free e small =
      rw (reads_own_bit i (omega arith), free)
        (ground (arith, ffp_pages-free n left (i + 1) free (omega arith) small))

from_next :
    (b : Bitmap) (bit : ℕ)
    → is_set b bit ≡ true
    → (j : ℕ) → bit ≤ j
    → (suc bit ≤ j → is_set b j ≡ true)
    → is_set b j ≡ true
from_next b bit used j p rest = elim (eq_or_lt bit j p) [
  | inl e ↦ subst (λ k. is_set b k ≡ true) e used
  | inr q ↦ rest q
]

skip_used :
    {b : Bitmap} {bit top : ℕ} {r : Option ℕ}
    → is_set b bit ≡ true
    → FirstFree b (bit + 1) top r
    → FirstFree b bit top r
skip_used {b} {bit} used (found i p q free below e) =
    found i (omega arith) q free (λ j s t. from_next b bit used j s (λ u. below j (omega arith) t))
      e
skip_used {b} {bit} used (exhausted all e) =
    exhausted (λ j s t. from_next b bit used j s (λ u. all j (omega arith) t)) e

-- The outer loop finds the first free bit, whatever number of pages (at most 4096) is asked for.
module _ (b : Bitmap) (h : IsBitmap b) (n top : ℕ) (small : suc n ≤ 4096)
    (covers : top ≤ 8 * length b.map) (fits : top ≤ 2 ^ 31) where
  ffp_bits-FirstFree :
      (left bit : ℕ) → bit + left ≡ top → FirstFree b bit top (ffp_bits b (suc n) left bit)
  unfolding ffp_bits
  ffp_bits-FirstFree zero bit e = exhausted (λ j p q. absurd (omega arith)) refl
  ffp_bits-FirstFree (suc left) bit e = elim (Bool-cases (is_set b bit)) [
    | inl used ↦
        rw (ffp_pages-used b h bit (omega arith) (omega arith) (suc n) n 0 used (omega arith))
          (skip_used used (ffp_bits-FirstFree left (bit + 1) (omega arith)))
    | inr free ↦
        rw (ffp_pages-free b h bit (omega arith) (omega arith) (suc n) n 0 free (omega arith) small)
          (found bit (le_refl bit) (omega arith) free (λ j p q. absurd (omega arith)) refl)
  ]

-- On a well-formed allocator, for 1 to 4096 pages, the search answers with the first free page
-- below the top, and with NULL exactly when there is none.
pub get_ffp_range-FirstFree :
    (n : ℕ) (p : Pmm)
    → IsPmm p
    → 0 < n
    → n ≤ 4096
    → FirstFree p.bitmap 0 (p.hi_page_top / page_size) (get_ffp_range n p)
unfolding get_ffp_range
get_ffp_range-FirstFree zero p h pos small = absurd (omega arith)
get_ffp_range-FirstFree (suc n) p h pos small =
    ffp_bits-FirstFree p.bitmap h.valid n (p.hi_page_top / page_size) small h.covers h.fits_int
      (p.hi_page_top / page_size) 0 (omega arith)

-- Two answers to one search agree.
FirstFree-unique :
    {b : Bitmap} {bit top : ℕ} {r s : Option ℕ}
    → FirstFree b bit top r
    → FirstFree b bit top s
    → r ≡ s
FirstFree-unique (found i p q free below e) (found j p' q' free' below' e') =
    e ∙ ap (λ k. some (k * page_size)) same ∙ sym e'
  where
    same : i ≡ j
    same = grind (arith, below, below')
FirstFree-unique (found i p q free below e) (exhausted all e') = ground (arith, all i)
FirstFree-unique (exhausted all e) (found i p q free below e') = ground (arith, all i)
FirstFree-unique (exhausted all e) (exhausted all' e') = e ∙ sym e'

-- On a well-formed allocator, for 1 to 4096 pages, the search for a range gives the same answer as
-- the search for one page, so the pages behind the first can be in use.
pub get_ffp_range-ignores_count :
    (n : ℕ) (p : Pmm) → IsPmm p → 0 < n → n ≤ 4096 → get_ffp_range n p ≡ get_ffp_range 1 p
get_ffp_range-ignores_count n p h pos small =
    FirstFree-unique (get_ffp_range-FirstFree n p h pos small)
      (get_ffp_range-FirstFree 1 p h (omega arith) (omega arith))
