-- ===== src/Dd/Apic/Redirect.antt =====
-- What a redirection entry holds.
use fusioncore.Base.{
  ℕ, zero, suc, ◌+◌, ◌-◌, ◌*◌, ◌/◌, ◌%◌, ◌^◌, ◌≤◌, ◌<◌, bit_and, bit_or, ◌≡◌, ap, ◌∙◌, Bool, true,
  false, arith, if◌then◌else◌, ◌==◌, u64,
}
use native.Mathlib.Nat.{pow-suc}
use fusioncore.Base.Bits.{bit_and_low, bit_and-zero, bit_or_low, bit_or-zero, times_pow-suc}
use fusioncore.Dd.Apic.Ioapic.{
  redirect_entry_of, ioapic_pinpol_bit, ioapic_trigmode_bit, ioapic_mask_bit,
}

zero_or_within : (n a : ℕ) → a ≤ n → bit_or 0 a ≡ a
zero_or_within n zero h = bit_or-zero 0
zero_or_within zero (suc a) h = absurd (omega arith)
zero_or_within (suc n) (suc a) h =
    omega (arith, bit_or_low 0 (suc a), zero_or_within n (suc a / 2) (omega arith))

-- `x | y` is a sum where `x` fits below the lowest digit of `y`.
bit_or_above : (k q r : ℕ) → r < 2 ^ k → bit_or r (q * 2 ^ k) ≡ r + q * 2 ^ k
bit_or_above zero q r fits = ground (arith, zero_or_within q q)
bit_or_above (suc k) q r fits = ground (
  arith,
  bit_or_low r (q * 2 ^ suc k),
  times_pow-suc q k,
  bit_or_above k q (r / 2) (omega (arith, pow-suc 2 k)),
)

zero_and_within : (n a : ℕ) → a ≤ n → bit_and 0 a ≡ 0
zero_and_within n zero h = bit_and-zero 0
zero_and_within zero (suc a) h = absurd (omega arith)
zero_and_within (suc n) (suc a) h =
    omega (arith, bit_and_low 0 (suc a), zero_and_within n (suc a / 2) (omega arith))

-- `x & y` is `x` where `y` has all the digits that `x` can have.
bit_and_over : (k q r : ℕ) → r < 2 ^ k → bit_and r (q * 2 ^ k + (2 ^ k - 1)) ≡ r
bit_and_over zero q r fits = ground (arith, zero_and_within q q)
bit_and_over (suc k) q r fits = ground (
  arith,
  bit_and_low r (q * 2 ^ suc k + (2 ^ suc k - 1)),
  times_pow-suc q k,
  pow-suc 2 k,
  bit_and_over k q (r / 2) (omega (arith, pow-suc 2 k)),
)

-- The tests of the flags.
flag_one : (flags : ℕ) → bit_and flags 2 ≡ flags / 2 % 2 * 2
flag_one flags =
    omega (arith, bit_and_low flags 2, bit_and_low (flags / 2) 1, bit_and-zero (flags / 2 / 2))

flag_three : (flags : ℕ) → bit_and flags 8 ≡ flags / 8 % 2 * 8
flag_three flags = omega (
  arith,
  bit_and_low flags 8,
  bit_and_low (flags / 2) 4,
  bit_and_low (flags / 2 / 2) 2,
  bit_and_low (flags / 2 / 2 / 2) 1,
  bit_and-zero (flags / 2 / 2 / 2 / 2),
)

abbrev polarity : ℕ → ℕ → ℕ
polarity flags v = if bit_and flags 2 == 0 then v else bit_or v ioapic_pinpol_bit

with_polarity : (flags v : ℕ) → v < 2 ^ 13 → polarity flags v ≡ v + flags / 2 % 2 * 2 ^ 13
with_polarity flags v fits = ground (arith, flag_one flags, bit_or_above 13 1 v)

abbrev trigger : ℕ → ℕ → ℕ
trigger flags v = if bit_and flags 8 == 0 then v else bit_or v ioapic_trigmode_bit

with_trigger : (flags v : ℕ) → v < 2 ^ 15 → trigger flags v ≡ v + flags / 8 % 2 * 2 ^ 15
with_trigger flags v fits = ground (arith, flag_three flags, bit_or_above 15 1 v)

abbrev masked : Bool → ℕ → ℕ
masked mask v = if mask then bit_or v ioapic_mask_bit else bit_and v (2 ^ 64 - 1 - ioapic_mask_bit)

with_mask : (mask : Bool) (v : ℕ) → v < 2 ^ 16 → masked mask v ≡ v + (if mask then 2 ^ 16 else 0)
with_mask true v fits = bit_or_above 16 1 v fits
with_mask false v fits = omega (arith, bit_and_over 16 (2 ^ 48 - 2) v fits)

mask_fits : (mask : Bool) (v : ℕ) → v < 2 ^ 16 → v + (if mask then 2 ^ 16 else 0) < 2 ^ 56
mask_fits true v h = omega arith
mask_fits false v h = omega arith

-- For an 8-bit vector and an 8-bit local controller, a redirection entry is the vector, the
-- polarity and trigger bits of the flags, the mask bit and the destination, each in its place, and
-- nothing else.
pub redirect_entry_of-fields :
    (lapic_id vector flags : ℕ) (mask : Bool)
    → lapic_id < 2 ^ 8
    → vector < 2 ^ 8
    → redirect_entry_of lapic_id vector flags mask
      ≡ vector
        + flags / 2 % 2 * 2 ^ 13
        + flags / 8 % 2 * 2 ^ 15
        + (if mask then 2 ^ 16 else 0)
        + lapic_id * 2 ^ 56
unfolding redirect_entry_of
redirect_entry_of-fields lapic_id vector flags mask id_fits vector_fits =
    let pins = vector + flags / 2 % 2 * 2 ^ 13 in
    let triggers = pins + flags / 8 % 2 * 2 ^ 15 in
    let destination = u64 (lapic_id * 2 ^ 56) in
    ap (λ (t : ℕ). bit_or (masked mask (trigger flags t)) destination)
      (with_polarity flags vector (omega arith))
    ∙ ap (λ (t : ℕ). bit_or (masked mask t) destination) (with_trigger flags pins (omega arith))
    ∙ ap (λ (t : ℕ). bit_or t destination) (with_mask mask triggers (omega arith))
    ∙ ap (bit_or (triggers + (if mask then 2 ^ 16 else 0))) (omega arith)
    ∙ bit_or_above 56 lapic_id (triggers + (if mask then 2 ^ 16 else 0))
        (mask_fits mask triggers (omega arith))
