-- ===== src/Cpu/Isr/Faults.antt =====
-- The interrupts on which `isr_handler` reads outside the table of the exceptions' names.
use Prim.Native.String.{String}
use fusioncore.Base.{
  ℕ, zero, suc, ◌≤◌, ◌≡◌, ◌≢◌, refl, ap, ◌∙◌, subst, sym, none, List, [], ◌∷◌, arith, length, ltb,
  if-true, if-false, ltb-false, ==_ne, get_elem?, Bool-cases, inl, inr, ltb→lt,
}
use fusioncore.Asm.{Trace, Device, Io, fault, pure, ◌>>=◌, ◌>>◌, and_then}
use fusioncore.Dd.Com.{com1}
use fusioncore.Dd.Com.Sent.{ReadyWithin}
use fusioncore.Libk.Log.{Formatter, num, lit, buf_size, term_red, debug, vsnprintf, debug_set_col}
use fusioncore.Libk.Log.Said.{Piece, colour, Says, debug-Says}
use fusioncore.Libk.Log.Status.{debug_set_col-Says}
use fusioncore.Cpu.State.{CpuState}
use fusioncore.Cpu.Isr.{
  exceptions, syscall_int, spurious_int, name_from, say_name, on_hardware, on_unknown, isr_handler,
}
use fusioncore.Cpu.Isr.Outcomes.{isa}

get_elem?-none : {A : Type 0} (xs : List A) (i : ℕ) → length xs ≤ i → get_elem? xs i ≡ none
get_elem?-none [] i h = refl
get_elem?-none (x ∷ xs) zero h = absurd (omega arith)
get_elem?-none (x ∷ xs) (suc i) h = get_elem?-none xs i (omega arith)

module _ (dev : Device) (format : Formatter) (polls : ℕ) (debug_c : String) (depth : ℕ)
    (ready : (t : Trace) → ReadyWithin dev com1 polls t) where
  red : Says format (colour term_red ∷ []) (debug_set_col dev format polls debug_c depth term_red)
  red = debug_set_col-Says dev format polls ready debug_c depth term_red refl

  abbrev Faults : {A : Type 0} → Io A → Type 0
  Faults c = (t : Trace) → c t ≡ fault

  say_name-Faults : (i : ℕ) → 32 ≤ i → Faults (say_name dev format polls debug_c depth i)
  unfolding say_name
  say_name-Faults i big t =
      ap
        (λ o.
          (name_from o >>= λ name. debug dev format polls "    ISR%d: %s\n" (num i ∷ lit name ∷ []))
            t)
        (get_elem?-none exceptions i big)

  then-Faults :
      {A : Type 0} {ps : List Piece} {c : Io (Unit {0})} {d : Io A}
      → Says format ps c
      → Faults d
      → Faults (c >> d)
  then-Faults {d = d} h k t = ap (λ o. and_then o (λ _. d)) (h.returns t) ∙ k (h.after t)

  -- A command that faults at once faults whatever follows it.
  Faults-before : {A B : Type 0} {c : Io A} (d : Io B) → Faults c → Faults (c >> d)
  Faults-before d h t = ap (λ o. and_then o (λ _. d)) (h t)

  -- So does a text, whether it fits into its buffer or not.
  debug-Faults :
      {A : Type 0} (fmt : String) {d : Io A}
      → Faults d
      → Faults (debug dev format polls fmt [] >> d)
  unfolding debug vsnprintf
  debug-Faults fmt {d} k t = elim (Bool-cases (ltb (length (format fmt [])) buf_size)) [
    | inl fits ↦ then-Faults (debug-Says dev format polls ready fmt [] (ltb→lt _ _ fits)) k t
    | inr long ↦ rw long refl
  ]

  -- A report that names the interrupt faults from 32 on.
  no_name :
      {A : Type 0} (fmt : String) (i : ℕ) (d : Io A)
      → 32 ≤ i
      → Faults (
          debug_set_col dev format polls debug_c depth term_red
          >> (debug dev format polls fmt [] >> (say_name dev format polls debug_c depth i >> d)))
  no_name fmt i d big = then-Faults red (debug-Faults fmt (Faults-before d (say_name-Faults i big)))

  -- On each interrupt from 32 on, except 128 and 255, the handler reads outside the table of the
  -- exceptions' names or overruns its buffer, if the serial port is ready again within the polls.
  pub isr_handler-faults :
      (rsp : ℕ) (cpu : CpuState)
      → 32 ≤ cpu.isr_num
      → cpu.isr_num ≢ syscall_int
      → cpu.isr_num ≢ spurious_int
      → (t : Trace) → isr_handler dev format polls debug_c depth rsp cpu t ≡ fault
  unfolding isr_handler on_hardware on_unknown
  isr_handler-faults rsp cpu big not_syscall not_spurious =
      subst Faults (sym (if-false _ _ _ (ltb-false cpu.isr_num 32 big)))
        (elim (Bool-cases (isa cpu.isr_num)) [
          | inl hardware ↦
              subst Faults (sym (if-true _ _ _ hardware))
                (Faults-before (pure rsp) (no_name _ cpu.isr_num _ big))
          | inr other ↦
              subst Faults
                (sym (
                  if-false _ _ _ other
                  ∙ if-false _ _ _ (==_ne cpu.isr_num syscall_int not_syscall)
                  ∙ if-false _ _ _ (==_ne cpu.isr_num spurious_int not_spurious)))
                (no_name _ cpu.isr_num _ big)
        ])
