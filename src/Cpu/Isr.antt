-- ===== src/Cpu/Isr.antt =====
-- fckrnl/cpu/isr.c and isr.h: what is done on an interrupt.
pub mod Outcomes
pub mod Faults
use Prim.Native.String.{String}
use fusioncore.Base.{
  ℕ, ◌&&◌, Option, none, some, List, [], ◌∷◌, ltb, leb, ◌==◌, if◌then◌else◌, get_elem?,
}
use fusioncore.Asm.{Device, Io, done, fault, halt, pure, ◌>>=◌, ◌>>◌}
use fusioncore.Dd.Pic.{pic_signal_eoi}
use fusioncore.Libk.Log.{
  Formatter, num, lit, term_red, term_cyan, term_color_reset, debug, debug_set_col,
}
use fusioncore.Cpu.State.{CpuState, cpu_reg_dump}

-- `exceptions`
abbrev pub exceptions : List String
exceptions =
    "#DE: Divide Error" ∷ "#DB: Debug Exception" ∷ " — : NMI Interrupt" ∷ "#BP: Breakpoint"
    ∷ "#OF: Overflow" ∷ "#BR: BOUND Range Exceeded" ∷ "#UD: Invalid Opcode (Undefined Opcode)"
    ∷ "#NM: Device Not Available (No Math Coprocessor)" ∷ "#DF: Double Fault"
    ∷ "— : Coprocessor Segment Overrun (reserved)" ∷ "#TS: Invalid TSS" ∷ "#NP: Segment Not Present"
    ∷ "#SS: Stack-Segment Fault" ∷ "#GP: General Protection" ∷ "#PF: Page Fault"
    ∷ "— : (Intel reserved. Do not use.)" ∷ "#MF: x87 FPU Floating-Point Error (Math Fault)"
    ∷ "#AC: Alignment Check" ∷ "#MC: Machine Check" ∷ "#XM: SIMD Floating-Point Exception"
    ∷ "#VE: Virtualization Exception" ∷ "#CP: Control Protection Exception"
    ∷ " — : Intel reserved. Do not use." ∷ " — : Intel reserved. Do not use."
    ∷ " — : Intel reserved. Do not use." ∷ " — : Intel reserved. Do not use."
    ∷ " — : Intel reserved. Do not use." ∷ " — : Intel reserved. Do not use."
    ∷ " — : Intel reserved. Do not use." ∷ " — : Intel reserved. Do not use."
    ∷ " — : Intel reserved. Do not use." ∷ " — : Intel reserved. Do not use." ∷ []

abbrev pub syscall_int : ℕ
syscall_int = 128

abbrev pub spurious_int : ℕ
spurious_int = 255

-- `exceptions[isr_num]`; out of range it is a fault.
abbrev pub name_from : Option String → Io String
name_from none t = fault
name_from (some text) t = done text t

abbrev pub exception_name : ℕ → Io String
exception_name isr_num = name_from (get_elem? exceptions isr_num)

-- The branches of `isr_handler`, in order.
module _ (dev : Device) (format : Formatter) (polls : ℕ) (debug_c : String) (depth : ℕ) where
  abbrev set_colour : List ℕ → Io (Unit {0})
  set_colour = debug_set_col dev format polls debug_c depth

  abbrev say : String → Io (Unit {0})
  say fmt = debug dev format polls fmt []

  -- "    ISR%d: %s\n", with the name of the exception.
  unfoldable pub say_name : ℕ → Io (Unit {0})
  say_name isr_num = do
    name ← exception_name isr_num
    debug dev format polls "    ISR%d: %s\n" (num isr_num ∷ lit name ∷ [])

  unfoldable pub on_exception : CpuState → Io ℕ
  unfolding say_name
  on_exception cpu = do
    set_colour term_red
    say "\nEXCEPTION=EXCEPTION=EXCEPTION\n"
    say_name cpu.isr_num
    debug dev format polls "    Error Code: 0x%.16llx\n\n\n" (num cpu.err_code ∷ [])
    set_colour term_cyan
    cpu_reg_dump dev format polls cpu
    set_colour term_color_reset
    say "\nHalting..."
    halt

  unfoldable pub on_hardware : CpuState → Io (Unit {0})
  unfolding say_name
  on_hardware cpu = do
    set_colour term_red
    say "\nUNHANDLED HARDWARE INTERRUPT\n\n"
    say_name cpu.isr_num
    set_colour term_cyan
    cpu_reg_dump dev format polls cpu
    set_colour term_color_reset
    pic_signal_eoi cpu.isr_num

  unfoldable pub on_syscall : CpuState → Io (Unit {0})
  on_syscall cpu = do
    set_colour term_red
    say "\nUNKNOWN SYSCALL OCCURED\n\n"
    set_colour term_cyan
    cpu_reg_dump dev format polls cpu
    set_colour term_color_reset

  unfoldable pub on_spurious : CpuState → Io (Unit {0})
  on_spurious cpu = do
    say "\nSPURIOUS INTERRUPT OCCURED\n\n"
    set_colour term_cyan
    cpu_reg_dump dev format polls cpu
    set_colour term_color_reset

  unfoldable pub on_unknown : CpuState → Io ℕ
  unfolding say_name
  on_unknown cpu = do
    set_colour term_red
    say "\nUNKNOWN INTERRUPT OCCURRED\n\n"
    say_name cpu.isr_num
    set_colour term_cyan
    cpu_reg_dump dev format polls cpu
    set_colour term_color_reset
    say "\nHalting..."
    halt

  -- `rsp` is the address at which `cpu` lies.
  unfoldable pub isr_handler : ℕ → CpuState → Io ℕ
  unfolding on_exception on_hardware on_syscall on_spurious on_unknown
  isr_handler rsp cpu =
      if ltb cpu.isr_num 32
      then on_exception cpu
      else (if leb 32 cpu.isr_num && ltb cpu.isr_num 48
          then on_hardware cpu >> pure rsp
          else (if cpu.isr_num == syscall_int
              then on_syscall cpu >> pure rsp
              else (if cpu.isr_num == spurious_int
                  then on_spurious cpu >> pure rsp
                  else on_unknown cpu)))
