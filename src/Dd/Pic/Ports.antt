-- ===== src/Dd/Pic/Ports.antt =====
-- Which ports the controllers' driver writes, and what.
use fusioncore.Base.Bytes.{set_bit, clear_bit}
use fusioncore.Base.Bits.{bit_at}
use fusioncore.Base.{
  ℕ, ◌+◌, ◌-◌, ◌^◌, ◌≤◌, ◌<◌, bit_and, bit_or, ◌≡◌, refl, inl, inr, Bool, false, ◌||◌, [], ◌∷◌,
  ◌++◌, arith, leb, lt→ltb, Bool-cases, ◌==◌, u8, if◌then◌else◌,
}
use fusioncore.Asm.{wrote, was_read, Trace, Device, Out, done}
use fusioncore.Dd.Pic.{
  pic1_data, pic2, pic_disable, pic_remap, pic_set_mask, pic_clear_mask, pic_signal_eoi,
}

-- Some write went to the port.
unfoldable pub writes_to : ℕ → Trace → Bool
writes_to port [] = false
writes_to port (wrote p v ∷ t) = p == port || writes_to port t
writes_to port (was_read p ∷ t) = writes_to port t

-- A write went to a port of the second controller.
abbrev pub reaches_slave : Trace → Bool
reaches_slave t = writes_to pic2 t || writes_to (pic2 + 1) t

-- What the driver does to a line, from a fresh trace.
pub data Operation : Type 0 where
  disable remap : Operation
  set_mask clear_mask signal_eoi : ℕ → Operation

pub run : Device → Operation → Out (Unit {0})
run dev disable = pic_disable []
run dev remap = pic_remap dev []
run dev (set_mask n) = pic_set_mask dev n []
run dev (clear_mask n) = pic_clear_mask dev n []
run dev (signal_eoi n) = pic_signal_eoi n []

-- No operation of the driver of the legacy controllers, on any line, writes to a port of the second
-- controller.
pub run-misses_slave :
    (dev : Device) (op : Operation)
    → (t : Trace) × (run dev op ≡ done tt t) × (reaches_slave t ≡ false)
unfolding run pic_disable pic_remap pic_set_mask pic_clear_mask pic_signal_eoi writes_to
run-misses_slave dev disable = (_, refl, refl)
run-misses_slave dev remap = (_, refl, refl)
run-misses_slave dev (set_mask n) = (_, refl, ground arith)
run-misses_slave dev (clear_mask n) = (_, refl, ground arith)
run-misses_slave dev (signal_eoi n) = elim (Bool-cases (leb 40 n)) [
  | inl slave ↦ (wrote 0x20 0x20 ∷ wrote 0x20 0x20 ∷ [], rw slave refl, refl)
  | inr master ↦ (wrote 0x20 0x20 ∷ [], rw master refl, refl)
]

-- Masking a line from 8 to 15 does what masking the line 8 below it does, and so does unmasking.
pub pic_set_mask-wraps :
    (dev : Device) (n : ℕ) (t : Trace)
    → 8 ≤ n
    → n < 16
    → (pic_set_mask dev n t ≡ pic_set_mask dev (n - 8) t)
      × (pic_clear_mask dev n t ≡ pic_clear_mask dev (n - 8) t)
unfolding pic_set_mask pic_clear_mask
pic_set_mask-wraps dev n t lo hi = ground arith

-- Masking a line below 8 reads the mask register once and writes back the byte with that line's
-- bit set; unmasking clears that bit; the other bits stay.
pub pic_mask_bits :
    (dev : Device) (n j : ℕ) (t : Trace)
    → n < 8
    → j < 8
    → (v w : ℕ) × (pic_set_mask dev n t
        ≡ done tt (t ++ was_read pic1_data ∷ [] ++ wrote pic1_data v ∷ []))
      × (pic_clear_mask dev n t ≡ done tt (t ++ was_read pic1_data ∷ [] ++ wrote pic1_data w ∷ []))
      × (bit_at v j ≡ (if n == j then 1 else bit_at (u8 (dev t pic1_data)) j))
      × (bit_at w j ≡ (if n == j then 0 else bit_at (u8 (dev t pic1_data)) j))
unfolding pic_set_mask pic_clear_mask
pic_mask_bits dev n j t hn hj = (
  u8 (bit_or (u8 (dev t pic1_data)) (2 ^ n)),
  u8 (bit_and (u8 (dev t pic1_data)) (2 ^ 32 - 1 - 2 ^ n)),
  rw (lt→ltb n 8 hn) refl,
  rw (lt→ltb n 8 hn) refl,
  set_bit n j (u8 (dev t pic1_data)) hn hj (omega arith),
  clear_bit n j (u8 (dev t pic1_data)) hn hj (omega arith),
)
