-- ===== src/Dd/Apic/Program.antt =====
-- The register writes of `ioapic_set_gsi_redir`, and the interrupt that `ioapic_set_irq_redir`
-- programs for a legacy line.
use fusioncore.Base.{
  ℕ, ◌+◌, ◌↔◌, ◌*◌, ◌/◌, ◌%◌, ◌-◌, ◌^◌, ◌≤◌, ◌<◌, tests, ◌≡◌, refl, sym, ap, ◌∙◌, subst, Bool, true,
  false, some, List, [], ◌∷◌, ◌++◌, arith, get_elem?, if◌then◌else◌, ◌==◌, Bool-cases, inl, inr, u8,
  u32, u64,
}
use mathlib.Core.List.{append_assoc}
use fusioncore.Asm.{wrote, Access, Trace, Device, Out, done, halted, pure, ◌>>◌, and_then}
use fusioncore.Asm.Appends.{Starts}
use fusioncore.Machine.Bytes.{Memory}
use fusioncore.Acpi.Madt.{Madt, ioapic_gsi_base, iso_irq_src, iso_gsi, iso_flags}
use fusioncore.Dd.Apic.Ioapic.{
  ioapic_base, ioregsel, iowin, irq_to_ioredtbl_reg, redirect_entry_of, ioapic_write_reg,
  ioapic_i_from_gsi, ioapic_set_gsi_redir, redirect_override, ioapic_set_irq_redir,
}
use fusioncore.Dd.Apic.Accesses.{Asks, ioapic_i_from_gsi-Appends}
use fusioncore.Dd.Apic.Pins.{Answers, covers, Searched, found, missing, ioapic_i_from_gsi-first}

-- One access behind a trace.
append_one : (t : Trace) (a : Access) (u : Trace) → (t ++ a ∷ []) ++ u ≡ t ++ a ∷ u
append_one t a u = append_assoc t (a ∷ []) u

module _ (dev : Device) (m : Memory) (tables : Madt) where
  -- The four accesses that program a pin: each half of the entry is selected and written.
  abbrev pub pin_writes : ℕ → ℕ → ℕ → List Access
  pin_writes e reg entry =
      wrote (u64 (ioapic_base dev m tables e + ioregsel)) (u32 (u8 reg))
      ∷ wrote (u64 (ioapic_base dev m tables e + iowin)) (u32 (u32 entry))
      ∷ wrote (u64 (ioapic_base dev m tables e + ioregsel)) (u32 (u8 (reg + 1)))
      ∷ wrote (u64 (ioapic_base dev m tables e + iowin)) (u32 (u32 (entry / 2 ^ 32)))
      ∷ []

  -- The register that is written for an interrupt on the controller at `e`: the number with 0x10,
  -- less twice the controller's base, on 32 bits.
  abbrev pub pin_reg : ℕ → ℕ → ℕ
  pin_reg gsi e = (gsi + 0x10 + (2 ^ 32 - 2 * ioapic_gsi_base m e % 2 ^ 32)) % 2 ^ 32

  -- The register of the interrupt's own pin: two for each pin, from 0x10 on.
  abbrev pub own_reg : ℕ → ℕ → ℕ
  own_reg gsi e = 2 * (gsi - ioapic_gsi_base m e) + 0x10

  pin_reg-lem : (gsi e : ℕ) → irq_to_ioredtbl_reg gsi (ioapic_gsi_base m e) ≡ pin_reg gsi e
  pin_reg-lem gsi e = let b = ioapic_gsi_base m e in omega arith

  -- The selector takes a register's low byte, which is the own one's for few numbers.
  pin_reg-own :
      (gsi e : ℕ)
      → ioapic_gsi_base m e ≤ gsi
      → (u8 (pin_reg gsi e) ≡ u8 (own_reg gsi e)) ↔ (gsi % 256 ≡ 0)
  pin_reg-own gsi e above = (λ same. omega arith, λ multiple. omega arith)

  covers-above :
      (version : ℕ → ℕ) (gsi e : ℕ) → covers m version gsi e ≡ true → ioapic_gsi_base m e ≤ gsi
  covers-above version gsi e has = grind tests

  -- How programming an interrupt ends behind the trace `start`: the search for the controller only
  -- asks, and then the first that has the interrupt is written to, or there is a halt.
  pub data Programmed {A : Type 0} (a : A) (version : ℕ → ℕ) (gsi entry : ℕ) (start : Trace)
      : Out A → Type 0 where
    programmed :
        (i e : ℕ) (t : Trace)
        → get_elem? tables.ioapics i ≡ some e
        → covers m version gsi e ≡ true
        → ((j e' : ℕ)
            → j < i
            → get_elem? tables.ioapics j ≡ some e'
            → covers m version gsi e' ≡ false)
        → Starts (Asks dev m tables) start t
        → (u8 (pin_reg gsi e) ≡ u8 (own_reg gsi e)) ↔ (gsi % 256 ≡ 0)
        → {o : Out A} → o ≡ done a (t ++ pin_writes e (pin_reg gsi e) entry)
        → Programmed a version gsi entry start o
    no_controller :
        (t : Trace)
        → ((j e' : ℕ) → get_elem? tables.ioapics j ≡ some e' → covers m version gsi e' ≡ false)
        → {o : Out A} → o ≡ halted t
        → Programmed a version gsi entry start o

  write_reg_lem :
      (i e reg val : ℕ) (t : Trace)
      → get_elem? tables.ioapics i ≡ some e
      → ioapic_write_reg dev m tables i reg val t
        ≡ done tt (
            (t ++ wrote (u64 (ioapic_base dev m tables e + ioregsel)) (u32 (u8 reg)) ∷ [])
            ++ wrote (u64 (ioapic_base dev m tables e + iowin)) (u32 val) ∷ [])
  unfolding ioapic_write_reg
  write_reg_lem i e reg val t here = rw here refl

  set_gsi_found :
      (lapic_id vector gsi flags : ℕ) (mask : Bool) (i e : ℕ) (t t1 : Trace)
      → ioapic_i_from_gsi dev m tables gsi t ≡ done i t1
      → get_elem? tables.ioapics i ≡ some e
      → ioapic_set_gsi_redir dev m tables lapic_id vector gsi flags mask t
        ≡ done tt
            (t1 ++ pin_writes e (pin_reg gsi e) (redirect_entry_of lapic_id vector flags mask))
  unfolding ioapic_set_gsi_redir
  set_gsi_found lapic_id vector gsi flags mask i e t t1 searched here =
      let entry = redirect_entry_of lapic_id vector flags mask in
      let reg = irq_to_ioredtbl_reg gsi (ioapic_gsi_base m e) in
      rw
        (
          searched,
          here,
          write_reg_lem i e reg (u32 entry) t1 here,
          write_reg_lem i e (reg + 1) (u32 (entry / 2 ^ 32)) _ here,
        )
        (ap (done tt) (
          append_one _ _ _
          ∙ append_one _ _ _
          ∙ append_one t1 _ _
          ∙ ap (λ r. t1 ++ pin_writes e r entry) (pin_reg-lem gsi e)))

  set_gsi_missing :
      (lapic_id vector gsi flags : ℕ) (mask : Bool) (t t1 : Trace)
      → ioapic_i_from_gsi dev m tables gsi t ≡ halted t1
      → ioapic_set_gsi_redir dev m tables lapic_id vector gsi flags mask t ≡ halted t1
  unfolding ioapic_set_gsi_redir
  set_gsi_missing lapic_id vector gsi flags mask t t1 searched = rw searched refl

  by_search :
      (version : ℕ → ℕ) (lapic_id vector gsi flags : ℕ) (mask : Bool) (t : Trace) (o : Out ℕ)
      → ioapic_i_from_gsi dev m tables gsi t ≡ o
      → Searched m version gsi tables.ioapics 0 o
      → Programmed tt version gsi
          (redirect_entry_of lapic_id vector flags mask)
          t
          (ioapic_set_gsi_redir dev m tables lapic_id vector gsi flags mask t)
  by_search version lapic_id vector gsi flags mask t o e (found i c t1 here has before) =
      let found_at = e ∙ ap (λ (k : ℕ). done k t1) (let n : 0 + i ≡ i = omega arith in n) in
      programmed i c t1 here has before (ioapic_i_from_gsi-Appends dev m tables gsi t t1 i found_at)
        (pin_reg-own gsi c (covers-above version gsi c has))
        (set_gsi_found lapic_id vector gsi flags mask i c t t1 found_at here)
  by_search version lapic_id vector gsi flags mask t o e (missing t1 none_has) =
      no_controller t1 none_has (set_gsi_missing lapic_id vector gsi flags mask t t1 e)

  pub ioapic_set_gsi_redir-Programmed :
      (version : ℕ → ℕ) (lapic_id vector gsi flags : ℕ) (mask : Bool) (t : Trace)
      → Answers dev m tables version
      → Programmed tt version gsi
          (redirect_entry_of lapic_id vector flags mask)
          t
          (ioapic_set_gsi_redir dev m tables lapic_id vector gsi flags mask t)
  ioapic_set_gsi_redir-Programmed version lapic_id vector gsi flags mask t answers =
      by_search version lapic_id vector gsi flags mask t _ refl
        (ioapic_i_from_gsi-first dev m tables version gsi t answers)

  -- The interrupt and the flags of a legacy line: those of its first override, if it has one.
  abbrev pub override_of : ℕ → List ℕ → ℕ × ℕ
  override_of irq [] = (irq, 0)
  override_of irq (iso ∷ isos) =
      if iso_irq_src m iso == irq then (iso_gsi m iso, iso_flags m iso) else override_of irq isos

  -- The loop over the overrides programs that interrupt and answers with it.
  override_lem :
      (lapic_id vector irq : ℕ) (mask : Bool) (isos : List ℕ)
      → redirect_override dev m tables lapic_id vector irq mask isos ≡ (
          ioapic_set_gsi_redir dev m tables lapic_id vector
            (override_of irq isos).0
            (override_of irq isos).1
            mask
          >> pure (override_of irq isos).0)
  unfolding redirect_override
  override_lem lapic_id vector irq mask [] = refl
  override_lem lapic_id vector irq mask (iso ∷ isos) =
      elim (Bool-cases (iso_irq_src m iso == irq)) [
        | inl this ↦ rw this refl
        | inr other ↦ rw other (override_lem lapic_id vector irq mask isos)
      ]

  then_answers :
      {version : ℕ → ℕ} {gsi entry : ℕ} {start : Trace} {o : Out (Unit {0})} {A : Type 0} (a : A)
      → Programmed tt version gsi entry start o
      → Programmed a version gsi entry start (and_then o (λ _. pure a))
  then_answers a (programmed i e t here has before asks own eq) =
      programmed i e t here has before asks own (ap (λ o. and_then o (λ _. pure a)) eq)
  then_answers a (no_controller t none_has eq) =
      no_controller t none_has (ap (λ o. and_then o (λ _. pure a)) eq)

  -- If the devices' version registers answer steadily, redirecting a legacy line answers with the
  -- interrupt of the line's first override, or the line itself with no flags where it has none: it
  -- only asks, and then writes the low and the high half of the entry on the first controller for
  -- which the interrupt lies from its base up to, and without, its last pin, to the register with
  -- the number of the interrupt less twice the base, plus 0x10, and to the next; the byte that
  -- selects the first of them is that of the interrupt's own pin exactly if the interrupt is a
  -- multiple of 256. Where there is no such controller it halts.
  pub ioapic_set_irq_redir-Programmed :
      (version : ℕ → ℕ) (lapic_id vector irq : ℕ) (mask : Bool) (t : Trace)
      → Answers dev m tables version
      → Programmed
          (override_of irq tables.isos).0
          version
          (override_of irq tables.isos).0
          (redirect_entry_of lapic_id vector (override_of irq tables.isos).1 mask)
          t
          (ioapic_set_irq_redir dev m tables lapic_id vector irq mask t)
  unfolding ioapic_set_irq_redir
  ioapic_set_irq_redir-Programmed version lapic_id vector irq mask t answers =
      let (gsi, flags) = override_of irq tables.isos in
      subst (Programmed gsi version gsi (redirect_entry_of lapic_id vector flags mask) t)
        (sym (ap (λ c. c t) (override_lem lapic_id vector irq mask tables.isos)))
        (then_answers gsi
          (ioapic_set_gsi_redir-Programmed version lapic_id vector gsi flags mask t answers))
