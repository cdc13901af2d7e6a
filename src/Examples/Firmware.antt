-- ===== src/Examples/Firmware.antt =====
-- The boot loader's tags and the firmware's tables in a small memory.
use fusioncore.Base.{◌≡◌, refl, some, [], ◌∷◌, arith}
use fusioncore.Examples.Holding.{holding}
use fusioncore.Machine.Bytes.{Memory, load}
use fusioncore.Boot.{struct_tags, stivale2_get_tag}
use fusioncore.Boot.Tags.{TagList, last, tag, first_tag, stivale2_get_tag-first}
use fusioncore.Acpi.Sdt.{overrun, spinning, acpi_verify_sdt_checksum}
use fusioncore.Acpi.Sdt.Checksum.{acpi_verify_sdt_checksum-spinning}
use fusioncore.Acpi.Madt.{madt_collect}
use fusioncore.Acpi.Madt.Stuck.{madt_collect-stuck}

-- A root table at 0 with entries 100 and 200, the asked signature at 60, a table with another
-- signature at 100, a table of interrupt controllers at 200, two tags at 500 and 520 of the
-- structure at 300, a table of 256 bytes at 600, and at 700 one whose first entry has length 0.
abbrev firmware : Memory
firmware = holding (
    (4, 44)
    ∷ (36, 100)
    ∷ (40, 200)
    ∷ (60, 0x41)
    ∷ (61, 0x50)
    ∷ (62, 0x49)
    ∷ (63, 0x43)
    ∷ (100, 0x46)
    ∷ (200, 0x41)
    ∷ (201, 0x50)
    ∷ (202, 0x49)
    ∷ (203, 0x43)
    ∷ (204, 62)
    ∷ (209, 145)
    ∷ (245, 8)
    ∷ (252, 2)
    ∷ (253, 10)
    ∷ (428, 244)
    ∷ (429, 1)
    ∷ (500, 7)
    ∷ (508, 8)
    ∷ (509, 2)
    ∷ (520, 9)
    ∷ (605, 1)
    ∷ (704, 60)
    ∷ [])

list-TagList : TagList firmware (struct_tags firmware 300) (500 ∷ 520 ∷ [])
unfolding load
list-TagList = tag (λ e. omega arith) (tag (λ e. omega arith) (last refl))

stivale2_get_tag-first_example :
    stivale2_get_tag 3 firmware 300 9 ≡ some (first_tag firmware 9 (500 ∷ 520 ∷ []))
stivale2_get_tag-first_example =
    stivale2_get_tag-first firmware 9 3 300 (500 ∷ 520 ∷ []) list-TagList (omega arith)

acpi_verify_sdt_checksum-spinning_example : acpi_verify_sdt_checksum 1000 firmware 600 ≡ spinning
unfolding load
acpi_verify_sdt_checksum-spinning_example =
    acpi_verify_sdt_checksum-spinning firmware 600 1000 (omega arith)

madt_collect-stuck_example : madt_collect 1000 firmware 700 ≡ overrun
unfolding load
madt_collect-stuck_example = madt_collect-stuck firmware 700 1000 (omega arith) refl
