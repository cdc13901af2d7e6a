-- ===== src/Dd/Apic/Lines.antt =====
-- `apic_init`: every legacy line is programmed, masked.
use fusioncore.Base.{ℕ, ◌+◌, ◌≤◌, ◌<◌, ◌≡◌, [], ◌∷◌, ◌++◌, u32, u64, bit_or}
use fusioncore.Asm.{Trace, Device, wrote, was_read, done}
use fusioncore.Asm.Appends.{Starts}
use fusioncore.Machine.Bytes.{Memory}
use fusioncore.Mm.Bitmap.{Bitmap}
use fusioncore.Acpi.Madt.{Madt}
use fusioncore.Dd.Apic.{lapic_get_id, lapic_spurious_reg, lapic_enable_bit}
use fusioncore.Cpu.Isr.{spurious_int}
use fusioncore.Dd.Pic.{pic1_data, pic2_data}
use fusioncore.Dd.Apic.Pins.{Answers}
use fusioncore.Dd.Apic.Pinned.{Redirected, Rounds}

-- Before the loops the legacy controllers are masked and the local one is enabled: with these four
-- accesses.
module _ (dev : Device) (lapic_addr : ℕ) where
  abbrev pub begun : Trace → Trace
  begun t =
      let spurious = u64 (lapic_addr + lapic_spurious_reg) in
      let masked = (t ++ wrote pic2_data 0xff ∷ []) ++ wrote pic1_data 0xff ∷ [] in
      let old = u32 (dev masked spurious) in
      (masked ++ was_read spurious ∷ [])
      ++ wrote spurious (u32 (bit_or (bit_or old lapic_enable_bit) spurious_int)) ∷ []

module _ (dev : Device) (m : Memory) (tables : Madt) (version : ℕ → ℕ) where
  module _ (lapic_addr : ℕ) (answers : Answers dev m tables version) where
    -- The processor's number is read and then the line redirected.
    record Round (line : ℕ) (t : Trace) : Type 0 where
      id : ℕ
      asked : Trace
      answers_id : lapic_get_id dev lapic_addr t ≡ done id asked
      questions : Starts (Rounds dev m tables version) t asked
      redirects : Redirected dev m tables version line id asked

    -- The lines from `i` on, `left` of them.
    abbrev Lines : ℕ → ℕ → (ℕ → Type 0) → Type 0
    Lines left i P = (j : ℕ) → i ≤ j → j < i + left → P j
