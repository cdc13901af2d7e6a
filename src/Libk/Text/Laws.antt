-- ===== src/Libk/Text/Laws.antt =====
-- `memset` and `memcmp` against what they promise.
use fusioncore.Base.{
  ℕ, zero, suc, ◌+◌, ◌<◌, ◌≡◌, refl, ◌≢◌, ◌↔◌, ◌&&◌, arith, ltb, leb, u8, if◌then◌else◌, ◌∙◌, ap,
  Bool,
}
use fusioncore.Base.Int.{pos, sub_ℕ}
use fusioncore.Machine.Bytes.{Memory, poke}
use fusioncore.Libk.Text.{memset_from, memset, memcmp}

-- Address `x` lies in the `n` bytes from `ptr` on.
abbrev pub in_block : ℕ → ℕ → ℕ → Bool
in_block ptr n x = leb ptr x && ltb x (ptr + n)

memset_from_lem :
    (left i ptr val : ℕ) (m : Memory) (x : ℕ)
    → memset_from left i ptr val m x ≡ (if in_block (ptr + i) left x then u8 val else m x)
unfolding memset_from poke
memset_from_lem zero i ptr val m x = ground arith
memset_from_lem (suc left) i ptr val m x =
    ground (arith, memset_from_lem left (i + 1) ptr val (poke m (ptr + i) val) x)

-- After memset each byte of the block is the low byte of the value, and each other byte is as
-- before.
pub memset_lem :
    (ptr val n : ℕ) (m : Memory) (x : ℕ)
    → memset ptr val n m x ≡ (if in_block ptr n x then u8 val else m x)
unfolding memset
memset_lem ptr val n m x = ground (arith, memset_from_lem n 0 ptr val m x)

-- The first `n` bytes at both addresses are equal.
abbrev pub SameBytes : Memory → ℕ → ℕ → ℕ → Type 0
SameBytes m p1 p2 n = (i : ℕ) → i < n → m (p1 + i) ≡ m (p2 + i)

module _ (m : Memory) (p1 p2 : ℕ) where
  at_start : m (p1 + 0) ≡ m (p2 + 0) → m p1 ≡ m p2
  at_start h =
      ap m (let e : p1 ≡ p1 + 0 = omega arith in e)
      ∙ h
      ∙ ap m (let e : p2 + 0 ≡ p2 = omega arith in e)

  further : (i : ℕ) → m (p1 + suc i) ≡ m (p2 + suc i) → m (p1 + 1 + i) ≡ m (p2 + 1 + i)
  further i h =
      ap m (let e : p1 + 1 + i ≡ p1 + suc i = omega arith in e)
      ∙ h
      ∙ ap m (let e : p2 + suc i ≡ p2 + 1 + i = omega arith in e)

  back : (i : ℕ) → m (p1 + 1 + i) ≡ m (p2 + 1 + i) → m (p1 + suc i) ≡ m (p2 + suc i)
  back i h =
      ap m (let e : p1 + suc i ≡ p1 + 1 + i = omega arith in e)
      ∙ h
      ∙ ap m (let e : p2 + 1 + i ≡ p2 + suc i = omega arith in e)

  from_start : m p1 ≡ m p2 → m (p1 + 0) ≡ m (p2 + 0)
  from_start h =
      ap m (let e : p1 + 0 ≡ p1 = omega arith in e)
      ∙ h
      ∙ ap m (let e : p2 ≡ p2 + 0 = omega arith in e)

  -- One round of the loop.
  memcmp-step_same : (n : ℕ) → m p1 ≡ m p2 → memcmp m p1 p2 (suc n) ≡ memcmp m (p1 + 1) (p2 + 1) n
  unfolding memcmp
  memcmp-step_same n e = ground arith

  memcmp-step_zero :
      (n : ℕ)
      → memcmp m p1 p2 (suc n) ≡ pos 0
      → (m p1 ≡ m p2) × (memcmp m (p1 + 1) (p2 + 1) n ≡ pos 0)
  unfolding memcmp
  memcmp-step_zero n h = ground arith

  memcmp-step_differ : (n : ℕ) → m p1 ≢ m p2 → memcmp m p1 p2 (suc n) ≡ sub_ℕ (m p1) (m p2)
  unfolding memcmp
  memcmp-step_differ n ne = ground arith

memcmp-same : (n : ℕ) (m : Memory) (p1 p2 : ℕ) → SameBytes m p1 p2 n → memcmp m p1 p2 n ≡ pos 0
unfolding memcmp
memcmp-same zero m p1 p2 h = refl
memcmp-same (suc n) m p1 p2 h =
    memcmp-step_same m p1 p2 n (at_start m p1 p2 (h 0 (omega arith)))
    ∙ memcmp-same n m (p1 + 1) (p2 + 1) (λ i lt. further m p1 p2 i (h (suc i) (omega arith)))

same-memcmp : (n : ℕ) (m : Memory) (p1 p2 : ℕ) → memcmp m p1 p2 n ≡ pos 0 → SameBytes m p1 p2 n
same-memcmp zero m p1 p2 h i lt = absurd (omega arith)
same-memcmp (suc n) m p1 p2 h zero lt = from_start m p1 p2 (memcmp-step_zero m p1 p2 n h).0
same-memcmp (suc n) m p1 p2 h (suc i) lt =
    back m p1 p2 i
      (same-memcmp n m (p1 + 1) (p2 + 1) (memcmp-step_zero m p1 p2 n h).1 i (omega arith))

-- memcmp is 0 exactly when the two blocks hold the same bytes.
pub memcmp-zero_iff :
    (n : ℕ) (m : Memory) (p1 p2 : ℕ) → (memcmp m p1 p2 n ≡ pos 0) ↔ SameBytes m p1 p2 n
memcmp-zero_iff n m p1 p2 = (same-memcmp n m p1 p2, memcmp-same n m p1 p2)

-- Where the blocks first differ at byte `i`, `memcmp` is the difference of those bytes.
pub memcmp-first_difference :
    (n i : ℕ) (m : Memory) (p1 p2 : ℕ)
    → i < n
    → SameBytes m p1 p2 i
    → m (p1 + i) ≢ m (p2 + i)
    → memcmp m p1 p2 n ≡ sub_ℕ (m (p1 + i)) (m (p2 + i))
memcmp-first_difference zero i m p1 p2 lt same ne = absurd (omega arith)
memcmp-first_difference (suc n) zero m p1 p2 lt same ne =
    memcmp-step_differ m p1 p2 n (λ e. ne (from_start m p1 p2 e))
    ∙ ap (λ a. sub_ℕ (m a) (m p2)) (let e : p1 ≡ p1 + 0 = omega arith in e)
    ∙ ap (λ b. sub_ℕ (m (p1 + 0)) (m b)) (let e : p2 ≡ p2 + 0 = omega arith in e)
memcmp-first_difference (suc n) (suc i) m p1 p2 lt same ne =
    memcmp-step_same m p1 p2 n (at_start m p1 p2 (same 0 (omega arith)))
    ∙ memcmp-first_difference n i m (p1 + 1) (p2 + 1) (omega arith)
        (λ k lt'. further m p1 p2 k (same (suc k) (omega arith))) (λ e. ne (back m p1 p2 i e))
    ∙ ap (λ a. sub_ℕ (m a) (m (p2 + 1 + i))) (let e : p1 + 1 + i ≡ p1 + suc i = omega arith in e)
    ∙ ap (λ b. sub_ℕ (m (p1 + suc i)) (m b)) (let e : p2 + 1 + i ≡ p2 + suc i = omega arith in e)
