-- ===== src/Mm/Slab/Power.antt =====
-- `is_power_of_two` means what it says.
use fusioncore.Base.{
  ℕ, zero, suc, ◌+◌, ◌-◌, ◌*◌, ◌/◌, ◌%◌, ◌^◌, ◌≤◌, ◌<◌, bit_and, ◌≡◌, refl, ◌↔◌, true, arith,
  Bool-cases, inl, inr, ◌==◌,
}
use fusioncore.Base.Bits.{bit_and_low, bit_and_self}
use native.Mathlib.Nat.{pow-suc, one-le-pow}
use fusioncore.Mm.Slab.{is_power_of_two}

-- `num & (num - 1)` of an even number is twice that of its half, and of an odd one its other bits.
and_pred_even : (v : ℕ) → 0 < v → bit_and (2 * v) (2 * v - 1) ≡ 2 * bit_and v (v - 1)
and_pred_even v pos = ground (arith, bit_and_low (2 * v) (2 * v - 1))

and_pred_odd : (v : ℕ) → bit_and (2 * v + 1) (2 * v) ≡ 2 * v
and_pred_odd v = ground (arith, bit_and_low (2 * v + 1) (2 * v), bit_and_self v)

and_pred_pow : (k : ℕ) → bit_and (2 ^ k) (2 ^ k - 1) ≡ 0
and_pred_pow zero = refl
and_pred_pow (suc k) =
    ground (arith, pow-suc 2 k, one-le-pow k 2, and_pred_even (2 ^ k), and_pred_pow k)

-- The exponent is found by halving; the first argument bounds the number of halvings.
pow_of_and_pred : (fuel n : ℕ) → n ≤ fuel → 0 < n → bit_and n (n - 1) ≡ 0 → (k : ℕ) × (n ≡ 2 ^ k)
pow_of_and_pred zero n small pos h = absurd (omega arith)
pow_of_and_pred (suc fuel) n small pos h = elim (Bool-cases (n % 2 == 0)) [
  | inl even ↦
      let (k, e) =
        pow_of_and_pred fuel (n / 2) (ground arith) (ground arith)
          (ground (arith, and_pred_even (n / 2))) in
      (suc k, ground (arith, e, pow-suc 2 k))
  | inr odd ↦ (0, ground (arith, and_pred_odd (n / 2)))
]

-- On an int that is not negative, is_power_of_two says yes exactly to the powers of two.
pub is_power_of_two_iff :
    (n : ℕ) → n < 2 ^ 31 → (is_power_of_two n ≡ true) ↔ ((k : ℕ) × (n ≡ 2 ^ k))
unfolding is_power_of_two
is_power_of_two_iff n small = (
  λ h. pow_of_and_pred n n (omega arith) (ground arith) (ground arith),
  λ (k, e). rw e (ground (arith, e, one-le-pow k 2, and_pred_pow k)),
)
