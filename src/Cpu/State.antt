-- ===== src/Cpu/State.antt =====
-- fckrnl/cpu/cpu.c and cpu.h: the state of the processor on an interrupt, and its report.
pub mod Dump
use fusioncore.Base.{ℕ, [], ◌∷◌}
use fusioncore.Asm.{Device, Io, ◌>>=◌, ◌>>◌}
use fusioncore.Libk.Log.{Formatter, num, debug}

-- `cpu_state_t`
pub record CpuState : Type 0 where
  pub r15 : ℕ
  pub r14 : ℕ
  pub r13 : ℕ
  pub r12 : ℕ
  pub r11 : ℕ
  pub r10 : ℕ
  pub r9 : ℕ
  pub r8 : ℕ
  pub rbp : ℕ
  pub rdi : ℕ
  pub rsi : ℕ
  pub rdx : ℕ
  pub rcx : ℕ
  pub rbx : ℕ
  pub rax : ℕ
  pub isr_num : ℕ
  pub err_code : ℕ
  pub rip : ℕ
  pub cs : ℕ
  pub rflags : ℕ
  pub rsp : ℕ
  pub ss : ℕ

module _ (dev : Device) (format : Formatter) (polls : ℕ) where
  unfoldable pub cpu_reg_dump : CpuState → Io (Unit {0})
  cpu_reg_dump cpu = do
    debug dev format polls "Register dump:\n\n" []
    debug dev format polls "rax: 0x%.16llx, rbx:    0x%.16llx, rcx: 0x%.16llx, rdx: 0x%.16llx\n"
        (num cpu.rax ∷ num cpu.rbx ∷ num cpu.rcx ∷ num cpu.rdx ∷ [])
    debug dev format polls "rsi: 0x%.16llx, rdi:    0x%.16llx, rbp: 0x%.16llx, r8:  0x%.16llx\n"
        (num cpu.rsi ∷ num cpu.rdi ∷ num cpu.rbp ∷ num cpu.r8 ∷ [])
    debug dev format polls "r9:  0x%.16llx, r10:    0x%.16llx, r11: 0x%.16llx, r12: 0x%.16llx\n"
        (num cpu.r9 ∷ num cpu.r10 ∷ num cpu.r11 ∷ num cpu.r12 ∷ [])
    debug dev format polls "r13: 0x%.16llx, r14:    0x%.16llx, r15: 0x%.16llx, ss : 0x%.16llx\n"
        (num cpu.r13 ∷ num cpu.r14 ∷ num cpu.r15 ∷ num cpu.ss ∷ [])
    debug dev format polls "rsp: 0x%.16llx, rflags: 0x%.16llx, cs:  0x%.16llx, rip: 0x%.16llx\n"
        (num cpu.rsp ∷ num cpu.rflags ∷ num cpu.cs ∷ num cpu.rip ∷ [])
