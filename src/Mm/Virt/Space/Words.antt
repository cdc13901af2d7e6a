-- ===== src/Mm/Virt/Space/Words.antt =====
-- Words of tables, when another word is written or another page is cleared.
use fusioncore.Base.{
  ℕ, ◌+◌, ◌*◌, ◌%◌, ◌^◌, ◌<◌, ◌≤◌, ◌≡◌, ◌≢◌, refl, ◌∙◌, ◌⊎◌, true, false, arith, if◌then◌else◌,
  if-true, if-false,
}
use fusioncore.Libk.Text.Laws.{in_block}
use fusioncore.Machine.Bytes.{Memory, load, load-ext}
use fusioncore.Machine.Laws.{word, put, word-put_apart}
use fusioncore.Mm.Memmap.{page_size, phys_to_higher_half_data}
use fusioncore.Mm.Virt.Space.{PointsTo}

-- A pointer to a table, physical or in the higher half, points to its page.
pub low-PointsTo : (a : ℕ) → a % page_size ≡ 0 → a < 2 ^ 46 → PointsTo a a
low-PointsTo a aligned low i small = ground arith

pub high-PointsTo :
    (a : ℕ) → a % page_size ≡ 0 → a < 2 ^ 46 → PointsTo (phys_to_higher_half_data a) a
high-PointsTo a aligned low i small = ground arith

-- Different words at multiples of 8 do not overlap.
words_apart : (x y : ℕ) → x % 8 ≡ 0 → y % 8 ≡ 0 → x ≢ y → (y + 8 ≤ x) ⊎ (x + 8 ≤ y)
words_apart x y x_aligned y_aligned ne = ground arith

-- Eight zero bytes are the word 0.
pub word-zero : (mem : Memory) (a : ℕ) → ((x : ℕ) → a ≤ x → x < a + 8 → mem x ≡ 0) → word mem a ≡ 0
unfolding load
word-zero mem a zeros = load-ext 8 mem (λ _. 0) a zeros ∙ refl

-- Another entry of any table keeps its word.
pub entry-put_other :
    (mem : Memory) (a i c j v : ℕ)
    → a % page_size ≡ 0
    → c % page_size ≡ 0
    → a + 8 * i ≢ c + 8 * j
    → word (put mem (a + 8 * i) v) (c + 8 * j) ≡ word mem (c + 8 * j)
entry-put_other mem a i c j v a_aligned c_aligned ne =
    word-put_apart mem (a + 8 * i) v (c + 8 * j) (words_apart _ _ (omega arith) (omega arith) ne)

-- What a page's clearing does to the words of tables.
module _ (mem cleared : Memory) (page : ℕ) (aligned : page % page_size ≡ 0)
    (clears : (x : ℕ) → cleared x ≡ (if in_block page page_size x then 0 else mem x)) where
  outside :
      (c j x : ℕ)
      → c % page_size ≡ 0
      → j < 512
      → c ≢ page
      → c + 8 * j ≤ x
      → x < c + 8 * j + 8
      → in_block page page_size x ≡ false
  outside c j x c_aligned small ne from to = ground arith

  pub word-cleared_other :
      (c j : ℕ)
      → c % page_size ≡ 0
      → j < 512
      → c ≢ page
      → word cleared (c + 8 * j) ≡ word mem (c + 8 * j)
  word-cleared_other c j c_aligned small ne =
      load-ext 8 cleared mem (c + 8 * j)
        (λ x from to. clears x ∙ if-false _ _ _ (outside c j x c_aligned small ne from to))

  inside :
      (j x : ℕ)
      → j < 512
      → page + 8 * j ≤ x
      → x < page + 8 * j + 8
      → in_block page page_size x ≡ true
  inside j x small from to = ground arith

  pub word-cleared_page : (j : ℕ) → j < 512 → word cleared (page + 8 * j) ≡ 0
  word-cleared_page j small =
      word-zero cleared (page + 8 * j)
        (λ x from to. clears x ∙ if-true _ _ _ (inside j x small from to))
