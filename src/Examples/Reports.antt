-- ===== src/Examples/Reports.antt =====
-- Log entries and the interrupt handler, with a formatter that writes the numbers it is given and
-- the length of each buffer's text.
use fusioncore.Base.{ℕ, ◌≡◌, refl, inl, List, [], ◌∷◌, arith, length}
use fusioncore.Asm.{Device, fault}
use fusioncore.Libk.Log.{Arg, num, lit, chars, Formatter, warning, log_impl}
use fusioncore.Libk.Log.Said.{Halts, Returns}
use fusioncore.Libk.Log.Status.{Logs, entry, log_impl-Logs}
use fusioncore.Cpu.State.{CpuState}
use fusioncore.Cpu.Isr.{isr_handler, syscall_int}
use fusioncore.Cpu.Isr.Outcomes.{
  exception_report, returned_report, isr_handler-exception, isr_handler-Returns,
}
use fusioncore.Cpu.Isr.Faults.{isr_handler-faults}

-- The port is always ready.
abbrev ready_port : Device
ready_port t port = 0x20

abbrev digits_of : List Arg → List ℕ
digits_of [] = []
digits_of (num n ∷ args) = 48 ∷ digits_of args
digits_of (lit s ∷ args) = 34 ∷ digits_of args
digits_of (chars bs ∷ args) = length bs ∷ digits_of args

abbrev plain : Formatter
plain fmt args = 91 ∷ digits_of args

log_impl-Logs_example :
    Logs ready_port plain 1
      (λ t. inl refl)
      warning
      (entry warning "phys.c" 23 (91 ∷ 48 ∷ []))
      (log_impl ready_port plain 1 "debug.c" 1 "phys.c" 23 warning "page %d" (num 7 ∷ []))
log_impl-Logs_example =
    log_impl-Logs ready_port plain 1 (λ t. inl refl) "debug.c" "phys.c" 0 23 warning "page %d"
      (num 7 ∷ []) (omega arith) (omega arith)

abbrev interrupted : ℕ → CpuState
interrupted n = record {
  r15 = 0;
  r14 = 0;
  r13 = 0;
  r12 = 0;
  r11 = 0;
  r10 = 0;
  r9 = 0;
  r8 = 0;
  rbp = 0;
  rdi = 0;
  rsi = 0;
  rdx = 0;
  rcx = 0;
  rbx = 0;
  rax = 0;
  isr_num = n;
  err_code = 2;
  rip = 0x1000;
  cs = 8;
  rflags = 2;
  rsp = 0x7000;
  ss = 16;
}

isr_handler-exception_example :
    Halts plain
      (exception_report (interrupted 14))
      (isr_handler ready_port plain 1 "debug.c" 1 0x6f00 (interrupted 14))
isr_handler-exception_example =
    isr_handler-exception ready_port plain 1 "debug.c" 1 (λ t. inl refl) 0x6f00 (interrupted 14)
      (omega arith)
      (
        refl,
        (
          omega arith,
          (
            omega arith,
            (
              omega arith,
              (
                refl,
                (
                  omega arith,
                  (
                    omega arith,
                    (
                      omega arith,
                      (omega arith, (omega arith, (omega arith, (refl, (omega arith, tt))))),
                    ),
                  ),
                ),
              ),
            ),
          ),
        ),
      )

isr_handler-Returns_example :
    Returns plain
      (returned_report (interrupted syscall_int))
      0x6f00
      (isr_handler ready_port plain 1 "debug.c" 1 0x6f00 (interrupted syscall_int))
isr_handler-Returns_example =
    isr_handler-Returns ready_port plain 1 "debug.c" 1 (λ t. inl refl) 0x6f00
      (interrupted syscall_int) (inl refl)
      (
        refl,
        (
          omega arith,
          (
            refl,
            (
              omega arith,
              (omega arith, (omega arith, (omega arith, (omega arith, (omega arith, (refl, tt)))))),
            ),
          ),
        ),
      )

isr_handler-faults_example :
    isr_handler ready_port plain 1 "debug.c" 1 0x6f00 (interrupted 33) [] ≡ fault
isr_handler-faults_example =
    isr_handler-faults ready_port plain 1 "debug.c" 1 (λ t. inl refl) 0x6f00 (interrupted 33)
      (omega arith) (λ e. omega arith) (λ e. omega arith) []
