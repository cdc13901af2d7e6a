-- ===== src/Cpu/State/Dump.antt =====
-- The lines that `cpu_reg_dump` puts out.
use fusioncore.Base.{ℕ, [], ◌∷◌, List}
use fusioncore.Asm.{Trace, Device}
use fusioncore.Dd.Com.{com1}
use fusioncore.Dd.Com.Sent.{ReadyWithin}
use fusioncore.Libk.Log.{Formatter, num}
use fusioncore.Libk.Log.Said.{Piece, text, Says, AllFit, ◌then_says◌, debug-Says}
use fusioncore.Cpu.State.{CpuState, cpu_reg_dump}

abbrev pub dump_of : CpuState → List Piece
dump_of cpu =
    text "Register dump:\n\n" []
    ∷ text "rax: 0x%.16llx, rbx:    0x%.16llx, rcx: 0x%.16llx, rdx: 0x%.16llx\n"
        (num cpu.rax ∷ num cpu.rbx ∷ num cpu.rcx ∷ num cpu.rdx ∷ [])
    ∷ text "rsi: 0x%.16llx, rdi:    0x%.16llx, rbp: 0x%.16llx, r8:  0x%.16llx\n"
        (num cpu.rsi ∷ num cpu.rdi ∷ num cpu.rbp ∷ num cpu.r8 ∷ [])
    ∷ text "r9:  0x%.16llx, r10:    0x%.16llx, r11: 0x%.16llx, r12: 0x%.16llx\n"
        (num cpu.r9 ∷ num cpu.r10 ∷ num cpu.r11 ∷ num cpu.r12 ∷ [])
    ∷ text "r13: 0x%.16llx, r14:    0x%.16llx, r15: 0x%.16llx, ss : 0x%.16llx\n"
        (num cpu.r13 ∷ num cpu.r14 ∷ num cpu.r15 ∷ num cpu.ss ∷ [])
    ∷ text "rsp: 0x%.16llx, rflags: 0x%.16llx, cs:  0x%.16llx, rip: 0x%.16llx\n"
        (num cpu.rsp ∷ num cpu.rflags ∷ num cpu.cs ∷ num cpu.rip ∷ [])
    ∷ []

module _ (dev : Device) (format : Formatter) (polls : ℕ)
    (ready : (t : Trace) → ReadyWithin dev com1 polls t) where
  -- The dump returns and has put out six lines, which hold every register once.
  pub cpu_reg_dump-Says :
      (cpu : CpuState)
      → AllFit format (dump_of cpu)
      → Says format (dump_of cpu) (cpu_reg_dump dev format polls cpu)
  unfolding cpu_reg_dump
  cpu_reg_dump-Says cpu (f0, (f1, (f2, (f3, (f4, (f5, _)))))) =
      debug-Says dev format polls ready _ _ f0
      then_says debug-Says dev format polls ready _ _ f1
      then_says debug-Says dev format polls ready _ _ f2
      then_says debug-Says dev format polls ready _ _ f3
      then_says debug-Says dev format polls ready _ _ f4
      then_says debug-Says dev format polls ready _ _ f5
