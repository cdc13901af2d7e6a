-- ===== src/Examples/Acpi.antt =====
-- The firmware's tables from the boot loader's tag on, in a small memory.
use fusioncore.Base.{ℕ, zero, suc, ◌+◌, ◌≡◌, refl, [], ◌∷◌, arith}
use fusioncore.Examples.Holding.{holding}
use fusioncore.Machine.Bytes.{Memory, load}
use fusioncore.Libk.Text.Laws.{SameBytes}
use fusioncore.Boot.Tags.{last, tag, first_tag}
use fusioncore.Acpi.Sdt.{returned}
use fusioncore.Acpi.Sdt.Checksum.{sum_bytes}
use fusioncore.Asm.{Device}
use fusioncore.Acpi.Madt.{Madt, empty_madt}
use fusioncore.Acpi.Madt.Walk.{of_kind, finish, entry, sorted}
use fusioncore.Acpi.Init.{Signatures, acpi_init}
use fusioncore.Acpi.Init.Finds.{IsFirmware, wide_root, root_of, acpi_init-finds}

abbrev high : ℕ
high = 0xffff_8000_0000_0000

-- The structure at 300 with a tag at 500 for the root pointer at 800; the root table at 900 and the
-- table of interrupt controllers at 1100, which are seen in the higher half too; the kernel's
-- strings at 1000 and 1010.
abbrev firmware : Memory
firmware = holding (
    (428, 244)
    ∷ (429, 1)
    ∷ (500, 120)
    ∷ (501, 94)
    ∷ (502, 55)
    ∷ (503, 10)
    ∷ (504, 147)
    ∷ (505, 134)
    ∷ (506, 23)
    ∷ (507, 158)
    ∷ (516, 32)
    ∷ (517, 3)
    ∷ (808, 121)
    ∷ (816, 132)
    ∷ (817, 3)
    ∷ (1000, 82)
    ∷ (1001, 83)
    ∷ (1002, 68)
    ∷ (1003, 84)
    ∷ (1010, 65)
    ∷ (1011, 80)
    ∷ (1012, 73)
    ∷ (1013, 67)
    ∷ (1100, 65)
    ∷ (1101, 80)
    ∷ (1102, 73)
    ∷ (1103, 67)
    ∷ (1104, 52)
    ∷ (1109, 166)
    ∷ (1144, 1)
    ∷ (1145, 8)
    ∷ (high + 900, 82)
    ∷ (high + 901, 83)
    ∷ (high + 902, 68)
    ∷ (high + 903, 84)
    ∷ (high + 904, 40)
    ∷ (high + 909, 75)
    ∷ (high + 936, 76)
    ∷ (high + 937, 4)
    ∷ (high + 1100, 65)
    ∷ (high + 1101, 80)
    ∷ (high + 1102, 73)
    ∷ (high + 1103, 67)
    ∷ (high + 1104, 52)
    ∷ (high + 1109, 166)
    ∷ (high + 1144, 1)
    ∷ (high + 1145, 8)
    ∷ [])

abbrev sigs : Signatures
sigs = record { xsdt = 1020; rsdt = 1000; apic = 1010 }

root_signature_there : SameBytes firmware (high + 900) 1000 4
root_signature_there zero less = refl
root_signature_there (suc zero) less = refl
root_signature_there (suc (suc zero)) less = refl
root_signature_there (suc (suc (suc zero))) less = refl
root_signature_there (suc (suc (suc (suc i)))) less = absurd (omega arith)

madt_signature_there : SameBytes firmware 1100 1010 4
madt_signature_there zero less = refl
madt_signature_there (suc zero) less = refl
madt_signature_there (suc (suc zero)) less = refl
madt_signature_there (suc (suc (suc zero))) less = refl
madt_signature_there (suc (suc (suc (suc i)))) less = absurd (omega arith)

firmware-IsFirmware : IsFirmware firmware 300 sigs (500 ∷ []) 0 ((high + 1144) ∷ [])
unfolding load sum_bytes first_tag of_kind
firmware-IsFirmware = record {
  list = tag (λ e. omega arith) (last refl);
  rsdp = 800;
  pointer = refl;
  sums = refl;
  root = record { signature = root_signature_there; short = omega arith; sums = refl };
  within = omega arith;
  others = λ j less. absurd (omega arith);
  madt = record { signature = madt_signature_there; short = omega arith; sums = refl };
  entries = entry (omega arith) (finish (omega arith));
  fits = record {
    lapics = omega arith;
    ioapics = omega arith;
    isos = omega arith;
    lapic_nmis = omega arith;
  };
}

acpi_init-finds_example :
    acpi_init 300 firmware 300 sigs
    ≡ returned (record {
      has_xsdt = wide_root firmware firmware-IsFirmware.rsdp;
      root = root_of firmware firmware-IsFirmware.rsdp;
      madt = high + 1100;
      entries = sorted firmware empty_madt ((high + 1144) ∷ []);
    })
unfolding load firmware-IsFirmware
acpi_init-finds_example =
    acpi_init-finds 300 firmware 300 sigs (500 ∷ []) 0 ((high + 1144) ∷ []) firmware-IsFirmware
      (omega arith) (omega arith) (omega arith)

-- Each controller answers with 23 as the number of its last pin.
abbrev steady : Device
steady t addr = 0x17_0020

abbrev tables : Madt
tables = sorted firmware empty_madt ((high + 1144) ∷ [])
