-- ===== src/Mm/Bitmap.antt =====
-- fckrnl/mm/bmap.c and fckrnl/mm/bmap.h: a bitmap over bytes.
pub mod Laws
use fusioncore.Base.{
  ℕ, ◌-◌, ◌/◌, ◌%◌, ◌^◌, bit_and, bit_or, Bool, Option, none, some, List, get_elem?, get_or, set,
  ltb, ◌==◌, if◌then◌else◌, u8, u32,
}

-- `bitmap_t`: the bytes at `map`, and `size`.
pub record Bitmap : Type 0 where
  pub map : List ℕ
  pub size : ℕ

-- The conversion of an index to `int`; `none` where it is negative, which indexes out of range.
abbrev pub as_int : ℕ → Option ℕ
as_int n = if ltb (u32 n) (2 ^ 31) then some (u32 n) else none

-- A byte of the map. `none` is an access out of range, which C leaves undefined.
infixl 5 ◌>>=◌
abbrev pub ◌>>=◌ : {A B : Type 0} → Option A → (A → Option B) → Option B
none >>= f = none
some a >>= f = f a

unfoldable pub bitmap_set : Bitmap → ℕ → Option Bitmap
bitmap_set b bit = do
  i ← as_int bit
  byte ← get_elem? b.map (i / 8)
  some (record b { map = set b.map (i / 8) (u8 (bit_or byte (2 ^ (i % 8)))) })

-- `~(1 << k)` on a 32-bit `int`.
unfoldable pub bitmap_clear : Bitmap → ℕ → Option Bitmap
bitmap_clear b bit = do
  i ← as_int bit
  byte ← get_elem? b.map (i / 8)
  some (record b { map = set b.map (i / 8) (u8 (bit_and byte (2 ^ 32 - 1 - 2 ^ (i % 8)))) })

unfoldable pub bitmap_get : Bitmap → ℕ → Option ℕ
bitmap_get b bit = do
  i ← as_int bit
  byte ← get_elem? b.map (i / 8)
  some (u8 (bit_and byte (2 ^ (i % 8))))

-- The abstract view: the set of bits that are 1, and no word of how they are stored.
abbrev pub is_set : Bitmap → ℕ → Bool
is_set b i = get_or b.map (i / 8) 0 / 2 ^ (i % 8) % 2 == 1
