-- ===== src/Base/Bits.antt =====
-- `&` and `|` at variables: the equation for the lowest digit, and masks.
use Prim.Native.Nat.{
  ℕ, zero, suc, ◌+◌, ◌-◌, ◌*◌, ◌/◌, ◌%◌, ◌^◌, ◌≤◌, ◌<◌, min, max, digits, bit_and, bit_or,
  bit_and-bitwise, bit_or-bitwise,
}
use mathlib.Core.Path.{◌≡◌, refl, sym, ap, ap₂, ◌∙◌}
use mathlib.Core.Bool.{Bool, true, ◌&&◌}
use native.Mathlib.Nat.{
  pow-suc, pow-succ', div-div-eq-div-mul, pow-zero, add-zero, mul-one, one-le-pow,
}
use native.Mathlib.Omega.{arith}

-- Digits beyond those of the first number change nothing.
module _ (z : ℕ → ℕ) (f : ℕ → ℕ → ℕ) where
  spare_digits : (a b k l : ℕ) → a ≤ k → a ≤ l → digits z f k a b ≡ digits z f l a b
  spare_digits (suc a) b (suc k) (suc l) in_k in_l =
      rw (spare_digits (suc a / 2) (b / 2) k l (omega arith) (omega arith))
  spare_digits (suc a) b zero l in_k in_l = absurd (omega arith)
  spare_digits (suc a) b (suc k) zero in_k in_l = absurd (omega arith)
  spare_digits zero b zero zero in_k in_l = refl
  spare_digits zero b zero (suc l) in_k in_l = refl
  spare_digits zero b (suc k) zero in_k in_l = refl
  spare_digits zero b (suc k) (suc l) in_k in_l = refl

pub bit_and_low : (a b : ℕ) → bit_and a b ≡ bit_and (a / 2) (b / 2) * 2 + min (a % 2) (b % 2)
bit_and_low zero b = omega (arith, bit_and-bitwise 0 b, bit_and-bitwise 0 (b / 2))
bit_and_low (suc a) b = omega (
  arith,
  bit_and-bitwise (suc a) b,
  bit_and-bitwise (suc a / 2) (b / 2),
  spare_digits (λ _. 0) min (suc a / 2) (b / 2) a (suc a / 2) (omega arith) (omega arith),
)

pub bit_or_low : (a b : ℕ) → bit_or a b ≡ bit_or (a / 2) (b / 2) * 2 + max (a % 2) (b % 2)
bit_or_low zero b = omega (arith, bit_or-bitwise 0 b, bit_or-bitwise 0 (b / 2))
bit_or_low (suc a) b = omega (
  arith,
  bit_or-bitwise (suc a) b,
  bit_or-bitwise (suc a / 2) (b / 2),
  spare_digits (λ y. y) max (suc a / 2) (b / 2) a (suc a / 2) (omega arith) (omega arith),
)

-- The recursions below go from `a / 2` to `a`; the first argument bounds their depth.
and_zero_within : (n a : ℕ) → a ≤ n → bit_and a 0 ≡ 0
and_zero_within n zero h = bit_and-bitwise 0 0
and_zero_within zero (suc a) h = absurd (omega arith)
and_zero_within (suc n) (suc a) h =
    omega (arith, bit_and_low (suc a) 0, and_zero_within n (suc a / 2) (omega arith))

pub bit_and-zero : (a : ℕ) → bit_and a 0 ≡ 0
bit_and-zero a = and_zero_within a a (omega arith)

or_zero_within : (n a : ℕ) → a ≤ n → bit_or a 0 ≡ a
or_zero_within n zero h = bit_or-bitwise 0 0
or_zero_within zero (suc a) h = absurd (omega arith)
or_zero_within (suc n) (suc a) h =
    omega (arith, bit_or_low (suc a) 0, or_zero_within n (suc a / 2) (omega arith))

pub bit_or-zero : (a : ℕ) → bit_or a 0 ≡ a
bit_or-zero a = or_zero_within a a (omega arith)

and_self_within : (n a : ℕ) → a ≤ n → bit_and a a ≡ a
and_self_within n zero h = bit_and-bitwise 0 0
and_self_within zero (suc a) h = absurd (omega arith)
and_self_within (suc n) (suc a) h =
    omega (arith, bit_and_low (suc a) (suc a), and_self_within n (suc a / 2) (omega arith))

pub bit_and_self : (a : ℕ) → bit_and a a ≡ a
bit_and_self a = and_self_within a a (omega arith)

pub times_pow-suc : (q k : ℕ) → q * 2 ^ suc k ≡ 2 * (q * 2 ^ k)
times_pow-suc q k = omega (arith, ap (λ (t : ℕ). q * t) (pow-suc 2 k))

and_low_field : (k q r : ℕ) → r < 2 ^ k → bit_and (q * 2 ^ k + r) (2 ^ k - 1) ≡ r
and_low_field zero q r fits = omega (arith, bit_and-zero (q * 2 ^ 0 + r))
and_low_field (suc k) q r fits = ground (
  arith,
  bit_and_low (q * 2 ^ suc k + r) (2 ^ suc k - 1),
  times_pow-suc q k,
  pow-suc 2 k,
  one-le-pow k 2,
  and_low_field k q (r / 2) (omega (arith, pow-suc 2 k)),
)

-- `x & (2^k - 1)` is the remainder.
pub bit_and_mask : (k a : ℕ) → bit_and a (2 ^ k - 1) ≡ a % 2 ^ k
bit_and_mask k a = ground (arith, one-le-pow k 2, and_low_field k (a / 2 ^ k) (a % 2 ^ k))

-- A mask whose `k` lowest bits are 0 clears those bits.
pub bit_and_high :
    (k q r m : ℕ) → r < 2 ^ k → bit_and (q * 2 ^ k + r) (m * 2 ^ k) ≡ bit_and q m * 2 ^ k
bit_and_high zero q r m fits =
    rw (low_is_zero r fits, add-zero, pow-zero, mul-one, mul-one, mul-one) refl
  where
    low_is_zero : (r : ℕ) → r < 2 ^ 0 → r ≡ 0
    low_is_zero r h = omega arith
bit_and_high (suc k) q r m fits = ground (
  arith,
  bit_and_low (q * 2 ^ suc k + r) (m * 2 ^ suc k),
  times_pow-suc q k,
  times_pow-suc m k,
  times_pow-suc (bit_and q m) k,
  bit_and_high k q (r / 2) m (omega (arith, pow-suc 2 k)),
)

-- `x | y` is a sum where `y` fits below the lowest digit of `x`.
pub bit_or_fields : (k q r : ℕ) → r < 2 ^ k → bit_or (q * 2 ^ k) r ≡ q * 2 ^ k + r
bit_or_fields zero q r fits = ground (arith, bit_or-zero q)
bit_or_fields (suc k) q r fits = ground (
  arith,
  bit_or_low (q * 2 ^ suc k) r,
  times_pow-suc q k,
  bit_or_fields k q (r / 2) (omega (arith, pow-suc 2 k)),
)

-- Bit `k` of a number.
abbrev pub bit_at : ℕ → ℕ → ℕ
bit_at a k = a / 2 ^ k % 2

bit_at-suc : (a k : ℕ) → bit_at a (suc k) ≡ bit_at (a / 2) k
bit_at-suc a k =
    ap (λ (t : ℕ). a / t % 2) (pow-succ' 2 k)
    ∙ ap (λ (t : ℕ). t % 2) (sym (div-div-eq-div-mul a 2 (2 ^ k)))

bit_at-zero : (a : ℕ) → bit_at a 0 ≡ a % 2
bit_at-zero a = omega arith

-- The operations act on each bit alone.
pub bit_or_at : (k a b : ℕ) → bit_at (bit_or a b) k ≡ max (bit_at a k) (bit_at b k)
bit_or_at zero a b = omega (arith, bit_or_low a b)
bit_or_at (suc k) a b =
    bit_at-suc (bit_or a b) k
    ∙ ap (λ (t : ℕ). bit_at t k) (half a b)
    ∙ bit_or_at k (a / 2) (b / 2)
    ∙ ap₂ max (sym (bit_at-suc a k)) (sym (bit_at-suc b k))
  where
    half : (a b : ℕ) → bit_or a b / 2 ≡ bit_or (a / 2) (b / 2)
    half a b = omega (arith, bit_or_low a b)

pub bit_and_at : (k a b : ℕ) → bit_at (bit_and a b) k ≡ min (bit_at a k) (bit_at b k)
bit_and_at zero a b = omega (arith, bit_and_low a b)
bit_and_at (suc k) a b =
    bit_at-suc (bit_and a b) k
    ∙ ap (λ (t : ℕ). bit_at t k) (half a b)
    ∙ bit_and_at k (a / 2) (b / 2)
    ∙ ap₂ min (sym (bit_at-suc a k)) (sym (bit_at-suc b k))
  where
    half : (a b : ℕ) → bit_and a b / 2 ≡ bit_and (a / 2) (b / 2)
    half a b = omega (arith, bit_and_low a b)

-- Over a small range every value is checked by evaluation.
unfoldable pub all_below : ℕ → (ℕ → Bool) → Bool
all_below zero p = true
all_below (suc n) p = p n && all_below n p

pub all_below-all :
    (p : ℕ → Bool) (bound : ℕ) → ((x : ℕ) → x < bound → p x ≡ true) → all_below bound p ≡ true
unfolding all_below
all_below-all p zero each = refl
all_below-all p (suc bound) each =
    rw (each bound (omega arith)) (all_below-all p bound (λ x less. each x (omega arith)))

pub all_below-apply :
    (p : ℕ → Bool) (bound x : ℕ) → x < bound → all_below bound p ≡ true → p x ≡ true
unfolding all_below
all_below-apply p (suc bound) x in_range h = ground (arith, all_below-apply p bound x)
all_below-apply p zero x in_range h = absurd (omega arith)
