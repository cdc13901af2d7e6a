-- ===== src/Examples/Processor.antt =====
-- The interrupt descriptors and the handler on concrete interrupts.
use fusioncore.Base.{ℕ, ◌+◌, ◌*◌, ◌≡◌, arith, length, get_or, replicate, length-replicate}
use fusioncore.Cpu.Idt.{IdtDesc, idt_descriptor, idt_init}
use fusioncore.Cpu.Idt.Gates.{gate, idt_init-gates}

abbrev blank : IdtDesc
blank = idt_descriptor 0 0

abbrev vector : ℕ → ℕ
vector j = 0xffff_ffff_8000_0000 + 16 * j

idt_init-gates_example :
    (get_or (idt_init vector 0x5000 (replicate 256 blank)).0 33 blank ≡ gate vector 33)
    × ((idt_init vector 0x5000 (replicate 256 blank)).1.limit + 1
        ≡ 16 * length (replicate 256 blank))
idt_init-gates_example =
    idt_init-gates vector 0x5000 (replicate 256 blank) blank 33 (length-replicate 256 blank)
      (omega arith)
