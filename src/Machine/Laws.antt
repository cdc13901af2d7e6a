-- ===== src/Machine/Laws.antt =====
-- 64-bit words in memory, as the kernel's structures read and write them.
use fusioncore.Base.{ℕ, ◌+◌, ◌^◌, ◌≤◌, ◌<◌, ◌≡◌, ◌⊎◌, ◌∙◌, arith}
use fusioncore.Machine.Bytes.{Memory, load, store, load-store_apart, load-store_self}
use native.Mathlib.Nat.{mod-eq_of_lt}

-- The word at `a`, and memory with a word written.
abbrev pub word : Memory → ℕ → ℕ
word m a = load 8 m a

abbrev pub put : Memory → ℕ → ℕ → Memory
put m a v = store 8 m a v

module _ (m : Memory) (a v : ℕ) where
  pub word-put_self : v < 2 ^ 64 → word (put m a v) a ≡ v
  word-put_self small = load-store_self 8 m a v ∙ mod-eq_of_lt small

  pub word-put_apart : (b : ℕ) → (b + 8 ≤ a) ⊎ (a + 8 ≤ b) → word (put m a v) b ≡ word m b
  word-put_apart b out = load-store_apart 8 8 m b a v out

-- Reading words behind writes.
pub ruleset words = (arith, word-put_self, word-put_apart)
