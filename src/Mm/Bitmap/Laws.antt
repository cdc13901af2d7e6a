-- ===== src/Mm/Bitmap/Laws.antt =====
-- The bitmap's operations against the set of bits that it stands for.
use fusioncore.Base.{
  ℕ, ◌-◌, ◌*◌, ◌/◌, ◌%◌, ◌^◌, ◌<◌, bit_and, bit_or, ◌≡◌, refl, ap, Bool, true, false, some, arith,
  length, get_or, set, length-set, get_elem?-eq-get_or, get_or-set_self, get_or-set_ne, ◌==◌,
  ==_iff, if◌then◌else◌, u8, Bool-cases, inl, inr,
}
use fusioncore.Base.Bytes.{set_bit, clear_bit, get_bit}
use fusioncore.Mm.Bitmap.{Bitmap, as_int, bitmap_set, bitmap_clear, bitmap_get, is_set}

pub record IsBitmap (b : Bitmap) : Type 0 where
  pub bytes : (j : ℕ) → get_or b.map j 0 < 256

-- `int` is wide enough for the index, and the byte is there.
abbrev pub InRange : Bitmap → ℕ → Type 0
InRange b i = (i < 2 ^ 31) × (i < 8 * length b.map)

-- Two bits in one byte differ in their position there.
same_byte : (i j : ℕ) → i / 8 ≡ j / 8 → (i % 8 == j % 8) ≡ (i == j)
same_byte i j e = ground arith

abbrev written : Bitmap → ℕ → ℕ → Bitmap
written b i w = record b { map = set b.map (i / 8) w }

-- Writing a byte whose bit `k` is `v` and whose others are kept writes one bit of the set.
module _ (b : Bitmap) (i w : ℕ) (v : ℕ) (in_map : i / 8 < length b.map) (w_byte : w < 256)
    (row : (j : ℕ)
      → j < 8
      → w / 2 ^ j % 2 ≡ (if i % 8 == j then v else get_or b.map (i / 8) 0 / 2 ^ j % 2)) where
  written-is_set : (j : ℕ) → is_set (written b i w) j ≡ (if i == j then v == 1 else is_set b j)
  written-is_set j = elim (Bool-cases (i / 8 == j / 8)) [
    | inl e ↦
        let e' : i / 8 ≡ j / 8 = (==_iff _ _).0 e in
        rw (← e', get_or-set_self b.map (i / 8) w 0 in_map, row (j % 8) (omega arith))
          (ground arith)
    | inr n ↦ ground (arith, get_or-set_ne b.map (i / 8) (j / 8) w 0)
  ]

  written-IsBitmap : IsBitmap b → IsBitmap (written b i w)
  written-IsBitmap h = record {
    bytes = λ j. elim (Bool-cases (i / 8 == j)) [
      | inl e ↦ rw (← (==_iff _ _).0 e, get_or-set_self b.map (i / 8) w 0 in_map) w_byte
      | inr n ↦ ground (arith, h.bytes j, get_or-set_ne b.map (i / 8) j w 0)
    ];
  }

as_int_lem : (i : ℕ) → i < 2 ^ 31 → as_int i ≡ some i
as_int_lem i h = ground arith

-- What an operation on bit `i` leaves behind: bit `i` is `v`, and all others are as before.
pub record Updated (b : Bitmap) (i : ℕ) (v : Bool) (b' : Bitmap) : Type 0 where
  pub valid : IsBitmap b'
  pub same_length : length b'.map ≡ length b.map
  pub same_size : b'.size ≡ b.size
  pub bits : (j : ℕ) → is_set b' j ≡ (if i == j then v else is_set b j)

module _ (b : Bitmap) (i : ℕ) (h : IsBitmap b) (r : InRange b i) where
  abbrev old_byte : ℕ
  old_byte = get_or b.map (i / 8) 0

  in_map : i / 8 < length b.map
  in_map = omega arith

  written-Updated :
      (w v : ℕ)
      → w < 256
      → ((j : ℕ)
          → j < 8
          → w / 2 ^ j % 2 ≡ (if i % 8 == j then v else get_or b.map (i / 8) 0 / 2 ^ j % 2))
      → Updated b i (v == 1) (written b i w)
  written-Updated w v w_byte row = record {
    valid = written-IsBitmap b i w v in_map w_byte row h;
    same_length = length-set b.map (i / 8) w;
    same_size = refl;
    bits = written-is_set b i w v in_map w_byte row;
  }

  -- bitmap_set of a bit in range, in a map of bytes, returns, keeps the bytes bytes, and adds that
  -- bit and no other to the set of bits.
  pub bitmap_set-Updated : (b' : Bitmap) × (bitmap_set b i ≡ some b') × Updated b i true b'
  unfolding bitmap_set
  bitmap_set-Updated = (
    written b i (u8 (bit_or old_byte (2 ^ (i % 8)))),
    rw (as_int_lem i r.0, get_elem?-eq-get_or b.map (i / 8) 0 in_map) refl,
    written-Updated _ 1 (omega arith)
        λ j hj. set_bit (i % 8) j old_byte (omega arith) hj (h.bytes (i / 8)),
  )

  -- bitmap_clear of a bit in range, in a map of bytes, returns, keeps the bytes bytes, and takes
  -- that bit and no other out of the set of bits.
  pub bitmap_clear-Updated : (b' : Bitmap) × (bitmap_clear b i ≡ some b') × Updated b i false b'
  unfolding bitmap_clear
  bitmap_clear-Updated = (
    written b i (u8 (bit_and old_byte (2 ^ 32 - 1 - 2 ^ (i % 8)))),
    rw (as_int_lem i r.0, get_elem?-eq-get_or b.map (i / 8) 0 in_map) refl,
    written-Updated _ 0 (omega arith)
        λ j hj. clear_bit (i % 8) j old_byte (omega arith) hj (h.bytes (i / 8)),
  )

  -- `bitmap_get` of a bit in range returns its mask if it is in the set, and 0 if it is not.
  pub bitmap_get-is_set : bitmap_get b i ≡ some (if is_set b i then 2 ^ (i % 8) else 0)
  unfolding bitmap_get
  bitmap_get-is_set =
      rw (as_int_lem i r.0, get_elem?-eq-get_or b.map (i / 8) 0 in_map)
        (ap some (get_bit (i % 8) old_byte (omega arith) (h.bytes (i / 8))))
