-- ===== src/Cpu/Isr/Outcomes.antt =====
-- How `isr_handler` ends on each interrupt number, and what it puts out.
use Prim.Native.String.{String}
use fusioncore.Base.{
  ℕ, ◌≤◌, ◌<◌, ◌≡◌, refl, ap, ◌∙◌, subst, sym, List, [], ◌∷◌, ◌++◌, arith, length, ltb, leb, ◌&&◌,
  Bool, false, ◌==◌, if◌then◌else◌, if-true, if-false, ltb-false, ◌⊎◌, get_or, get_elem?-eq-get_or,
  inl, inr, lt→ltb,
}
use fusioncore.Asm.{Trace, Device, Io, ◌>>=◌}
use fusioncore.Dd.Com.{com1}
use fusioncore.Dd.Com.Sent.{ReadyWithin}
use fusioncore.Libk.Log.{
  Formatter, num, lit, buf_size, term_red, term_cyan, term_color_reset, debug, debug_set_col,
}
use fusioncore.Libk.Log.Said.{
  Piece, colour, text, AllFit, Says, Halts, Returns, then-Returns, ◌then_says◌, ◌then_halts◌,
  halt-Halts, debug-Says,
}
use fusioncore.Libk.Log.Status.{debug_set_col-Says}
use fusioncore.Cpu.State.{CpuState}
use fusioncore.Cpu.State.Dump.{dump_of, cpu_reg_dump-Says}
use fusioncore.Cpu.Isr.{
  exceptions, syscall_int, spurious_int, name_from, say_name, on_exception, on_syscall, on_spurious,
  isr_handler,
}

-- The numbers that the ISA interrupts have.
abbrev pub isa : ℕ → Bool
isa i = leb 32 i && ltb i 48

not_isa : (i : ℕ) → 48 ≤ i → isa i ≡ false
not_isa i h = ground arith

-- What is put out on an exception, on the system call's interrupt and on a spurious one.
abbrev pub exception_report : CpuState → List Piece
exception_report cpu =
    colour term_red
    ∷ text "\nEXCEPTION=EXCEPTION=EXCEPTION\n" []
    ∷ text "    ISR%d: %s\n" (num cpu.isr_num ∷ lit (get_or exceptions cpu.isr_num "") ∷ [])
    ∷ text "    Error Code: 0x%.16llx\n\n\n" (num cpu.err_code ∷ [])
    ∷ colour term_cyan
    ∷ (dump_of cpu ++ colour term_color_reset ∷ text "\nHalting..." [] ∷ [])

abbrev pub syscall_report : CpuState → List Piece
syscall_report cpu =
    colour term_red
    ∷ text "\nUNKNOWN SYSCALL OCCURED\n\n" []
    ∷ colour term_cyan
    ∷ (dump_of cpu ++ colour term_color_reset ∷ [])

abbrev pub spurious_report : CpuState → List Piece
spurious_report cpu =
    text "\nSPURIOUS INTERRUPT OCCURED\n\n" []
    ∷ colour term_cyan
    ∷ (dump_of cpu ++ colour term_color_reset ∷ [])

-- The report of either of these two.
abbrev pub returned_report : CpuState → List Piece
returned_report cpu = if cpu.isr_num == syscall_int then syscall_report cpu else spurious_report cpu

module _ (dev : Device) (format : Formatter) (polls : ℕ) (debug_c : String) (depth : ℕ)
    (ready : (t : Trace) → ReadyWithin dev com1 polls t) where
  abbrev handler : ℕ → CpuState → Io ℕ
  handler = isr_handler dev format polls debug_c depth

  red : Says format (colour term_red ∷ []) (debug_set_col dev format polls debug_c depth term_red)
  red = debug_set_col-Says dev format polls ready debug_c depth term_red refl

  cyan :
      Says format (colour term_cyan ∷ []) (debug_set_col dev format polls debug_c depth term_cyan)
  cyan = debug_set_col-Says dev format polls ready debug_c depth term_cyan refl

  reset :
      Says format
        (colour term_color_reset ∷ [])
        (debug_set_col dev format polls debug_c depth term_color_reset)
  reset = debug_set_col-Says dev format polls ready debug_c depth term_color_reset refl

  say_name-Says :
      (i : ℕ)
      → i < 32
      → length (format "    ISR%d: %s\n" (num i ∷ lit (get_or exceptions i "") ∷ [])) < buf_size
      → Says format
          (text "    ISR%d: %s\n" (num i ∷ lit (get_or exceptions i "") ∷ []) ∷ [])
          (say_name dev format polls debug_c depth i)
  unfolding say_name
  say_name-Says i small fits =
      subst (Says format _)
        (sym (
          ap
            (λ o. name_from o >>= λ name.
              debug dev format polls "    ISR%d: %s\n" (num i ∷ lit name ∷ []))
            (get_elem?-eq-get_or exceptions i "" small)))
        (debug-Says dev format polls ready _ _ fits)

  -- On an interrupt below 32, if the serial port is ready again within the polls and the texts fit
  -- their buffer, the handler stops the processor, after it has put out the number, its name of the
  -- table, the error code and every register, in order and with the colours, and has written to no
  -- other port.
  pub isr_handler-exception :
      (rsp : ℕ) (cpu : CpuState)
      → cpu.isr_num < 32
      → AllFit format (exception_report cpu)
      → Halts format (exception_report cpu) (handler rsp cpu)
  unfolding isr_handler on_exception
  isr_handler-exception rsp cpu small
        (_, (f0, (f1, (f2, (_, (d0, (d1, (d2, (d3, (d4, (d5, (_, (f3, _))))))))))))) =
      subst (Halts format _) (sym (if-true _ _ _ (lt→ltb cpu.isr_num 32 small))) (
        red
        then_halts debug-Says dev format polls ready _ _ f0
        then_halts say_name-Says cpu.isr_num small f1
        then_halts debug-Says dev format polls ready _ _ f2
        then_halts cyan
        then_halts cpu_reg_dump-Says dev format polls ready cpu
            (d0, (d1, (d2, (d3, (d4, (d5, tt))))))
        then_halts reset
        then_halts debug-Says dev format polls ready _ _ f3
        then_halts halt-Halts)

  isr_handler-syscall :
      (rsp : ℕ) (cpu : CpuState)
      → cpu.isr_num ≡ syscall_int
      → AllFit format (syscall_report cpu)
      → Returns format (syscall_report cpu) rsp (handler rsp cpu)
  unfolding isr_handler on_syscall
  isr_handler-syscall rsp cpu h (_, (f0, (_, (d0, (d1, (d2, (d3, (d4, (d5, _))))))))) =
      subst (Returns format (syscall_report cpu) rsp)
        (sym (
          if-false _ _ _ (ltb-false cpu.isr_num 32 (omega arith))
          ∙ if-false _ _ _ (not_isa cpu.isr_num (omega arith))
          ∙ if-true _ _ _ (ap (λ n. n == syscall_int) h)))
        (then-Returns rsp (
          red
          then_says debug-Says dev format polls ready _ _ f0
          then_says cyan
          then_says cpu_reg_dump-Says dev format polls ready cpu
              (d0, (d1, (d2, (d3, (d4, (d5, tt))))))
          then_says reset))

  isr_handler-spurious :
      (rsp : ℕ) (cpu : CpuState)
      → cpu.isr_num ≡ spurious_int
      → AllFit format (spurious_report cpu)
      → Returns format (spurious_report cpu) rsp (handler rsp cpu)
  unfolding isr_handler on_spurious
  isr_handler-spurious rsp cpu h (f0, (_, (d0, (d1, (d2, (d3, (d4, (d5, _)))))))) =
      subst (Returns format (spurious_report cpu) rsp)
        (sym (
          if-false _ _ _ (ltb-false cpu.isr_num 32 (omega arith))
          ∙ if-false _ _ _ (not_isa cpu.isr_num (omega arith))
          ∙ if-false _ _ _ (ap (λ n. n == syscall_int) h)
          ∙ if-true _ _ _ (ap (λ n. n == spurious_int) h)))
        (then-Returns rsp (
          debug-Says dev format polls ready _ _ f0
          then_says cyan
          then_says cpu_reg_dump-Says dev format polls ready cpu
              (d0, (d1, (d2, (d3, (d4, (d5, tt))))))
          then_says reset))

  -- On interrupts 128 and 255, if the serial port is ready again within the polls and the texts fit
  -- their buffer, the handler returns the stack pointer it was given, after it has put out its
  -- report with every register, and has written to no other port, so no end of interrupt is
  -- signalled.
  pub isr_handler-Returns :
      (rsp : ℕ) (cpu : CpuState)
      → (cpu.isr_num ≡ syscall_int) ⊎ (cpu.isr_num ≡ spurious_int)
      → AllFit format (returned_report cpu)
      → Returns format (returned_report cpu) rsp (handler rsp cpu)
  isr_handler-Returns rsp cpu (inl h) fits =
      let this : returned_report cpu ≡ syscall_report cpu =
        if-true _ _ _ (ap (λ n. n == syscall_int) h) in
      subst (λ ps. Returns format ps rsp (handler rsp cpu)) (sym this)
        (isr_handler-syscall rsp cpu h (subst (AllFit format) this fits))
  isr_handler-Returns rsp cpu (inr h) fits =
      let this : returned_report cpu ≡ spurious_report cpu =
        if-false _ _ _ (ap (λ n. n == syscall_int) h) in
      subst (λ ps. Returns format ps rsp (handler rsp cpu)) (sym this)
        (isr_handler-spurious rsp cpu h (subst (AllFit format) this fits))
