-- ===== src/Base/Bytes.antt =====
-- Setting, clearing and testing one bit of a byte, checked at every byte and bit.
use fusioncore.Base.Tests.{◌==◌, ==_iff, if◌then◌else◌}
use fusioncore.Base.Words.{u8}
use fusioncore.Base.Bits.{all_below, all_below-apply}
use Prim.Native.Nat.{ℕ, ◌-◌, ◌/◌, ◌%◌, ◌^◌, ◌<◌, bit_and, bit_or}
use mathlib.Core.Path.{◌≡◌, refl}
use mathlib.Core.Bool.{Bool, true}
use native.Mathlib.Omega.{arith}

-- A fact about a byte and two bit positions, checked at every value.
byte_table : (ℕ → ℕ → ℕ → Bool) → Bool
unfolding all_below
byte_table p = all_below 8 λ k. all_below 8 λ j. all_below 256 λ x. p k j x

byte_table_sound :
    (p : ℕ → ℕ → ℕ → Bool) (k j x : ℕ)
    → byte_table p ≡ true
    → k < 8
    → j < 8
    → x < 256
    → p k j x ≡ true
unfolding byte_table
byte_table_sound p k j x h hk hj hx = all_below-apply (p k j) 256 x hx (
    all_below-apply (λ j. all_below 256 (p k j)) 8 j hj
      (all_below-apply (λ k. all_below 8 λ j. all_below 256 (p k j)) 8 k hk h))

abbrev set_row : ℕ → ℕ → ℕ → Bool
set_row k j x = u8 (bit_or x (2 ^ k)) / 2 ^ j % 2 == (if k == j then 1 else x / 2 ^ j % 2)

abbrev clear_row : ℕ → ℕ → ℕ → Bool
clear_row k j x =
    u8 (bit_and x (2 ^ 32 - 1 - 2 ^ k)) / 2 ^ j % 2 == (if k == j then 0 else x / 2 ^ j % 2)

abbrev get_row : ℕ → ℕ → ℕ → Bool
get_row k j x = u8 (bit_and x (2 ^ k)) == (if x / 2 ^ k % 2 == 1 then 2 ^ k else 0)

set_table : byte_table set_row ≡ true
unfolding byte_table
set_table = refl

clear_table : byte_table clear_row ≡ true
unfolding byte_table
clear_table = refl

get_table : byte_table get_row ≡ true
unfolding byte_table
get_table = refl

module _ (k j x : ℕ) (hk : k < 8) (hj : j < 8) (hx : x < 256) where
  pub set_bit : u8 (bit_or x (2 ^ k)) / 2 ^ j % 2 ≡ (if k == j then 1 else x / 2 ^ j % 2)
  set_bit = (==_iff _ _).0 (byte_table_sound set_row k j x set_table hk hj hx)

  pub clear_bit :
      u8 (bit_and x (2 ^ 32 - 1 - 2 ^ k)) / 2 ^ j % 2 ≡ (if k == j then 0 else x / 2 ^ j % 2)
  clear_bit = (==_iff _ _).0 (byte_table_sound clear_row k j x clear_table hk hj hx)

pub get_bit :
    (k x : ℕ) → k < 8 → x < 256 → u8 (bit_and x (2 ^ k)) ≡ (if x / 2 ^ k % 2 == 1 then 2 ^ k else 0)
get_bit k x hk hx = (==_iff _ _).0 (byte_table_sound get_row k 0 x get_table hk (omega arith) hx)
