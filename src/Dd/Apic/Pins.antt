-- ===== src/Dd/Apic/Pins.antt =====
-- Which controller an interrupt number belongs to.
use fusioncore.Base.{
  ℕ, zero, suc, ◌+◌, ◌/◌, ◌^◌, ◌<◌, bit_and, ◌≡◌, refl, subst, sym, ap, ◌∙◌, Bool, true, false,
  ◌&&◌, some, List, [], ◌∷◌, ◌++◌, arith, get_elem?, ltb, leb, if◌then◌else◌, Bool-cases, inl, inr,
  u32, u64,
}
use mathlib.Core.Option.{some-injective, none-ne-some}
use fusioncore.Asm.{wrote, was_read, Trace, Device, Out, done, halted, pure}
use fusioncore.Machine.Bytes.{Memory}
use fusioncore.Acpi.Madt.{Madt, ioapic_gsi_base}
use fusioncore.Dd.Apic.Ioapic.{
  ioapicver_reg, ioapic_base, ioapicver_reg, ioregsel, iowin, ioapic_read_reg, ioapic_get_max_redir,
  search_ioapics, ioapic_i_from_gsi,
}

-- The device's word of a controller: after its version register is selected, the window shows a
-- version whose third byte is `version e`.
abbrev pub Answers : Device → Memory → Madt → (ℕ → ℕ) → Type 0
Answers dev m tables version =
    (e : ℕ) (t : Trace)
    → bit_and
          (u32 (
            dev (t ++ wrote (u64 (ioapic_base dev m tables e + ioregsel)) ioapicver_reg ∷ [])
              (u64 (ioapic_base dev m tables e + iowin))))
          0xff_0000
        / 2 ^ 16
      ≡ version e

-- A controller's pins, as the search takes them.
abbrev pub covers : Memory → (ℕ → ℕ) → ℕ → ℕ → Bool
covers m version gsi e =
    leb (ioapic_gsi_base m e) gsi && ltb gsi (u32 (ioapic_gsi_base m e + version e))

-- The end of a search through a list of controllers: the first that has the pin, or a halt and
-- none has it.
pub data Searched (m : Memory) (version : ℕ → ℕ) (gsi : ℕ) (es : List ℕ) (start : ℕ)
    : Out ℕ → Type 0 where
  found :
      (i e : ℕ) (t : Trace)
      → get_elem? es i ≡ some e
      → covers m version gsi e ≡ true
      → ((j e' : ℕ) → j < i → get_elem? es j ≡ some e' → covers m version gsi e' ≡ false)
      → Searched m version gsi es start (done (start + i) t)
  missing :
      (t : Trace)
      → ((j e' : ℕ) → get_elem? es j ≡ some e' → covers m version gsi e' ≡ false)
      → Searched m version gsi es start (halted t)

module _ (dev : Device) (m : Memory) (tables : Madt) (version : ℕ → ℕ) where
  -- The trace after the version of a controller is read.
  abbrev after_version : ℕ → Trace → Trace
  after_version e t =
      (t ++ wrote (u64 (ioapic_base dev m tables e + ioregsel)) ioapicver_reg ∷ [])
      ++ was_read (u64 (ioapic_base dev m tables e + iowin)) ∷ []

  max_redir_lem :
      (i e : ℕ) (t : Trace)
      → Answers dev m tables version
      → get_elem? tables.ioapics i ≡ some e
      → ioapic_get_max_redir dev m tables i t ≡ done (version e) (after_version e t)
  unfolding ioapic_get_max_redir ioapic_read_reg
  max_redir_lem i e t answers here = rw here (ap (λ v. done v (after_version e t)) (answers e t))

  Searched-next :
      (gsi e start : ℕ) (es : List ℕ) (o : Out ℕ)
      → covers m version gsi e ≡ false
      → Searched m version gsi es (start + 1) o
      → Searched m version gsi (e ∷ es) start o
  Searched-next gsi e start es o not_here (found i e1 t at_i has before) =
      subst (λ k. Searched m version gsi (e ∷ es) start (done k t)) (omega arith)
        (found (suc i) e1 t at_i has (elim [
          | zero ↦ λ e' lt at_j.
              subst (λ x. covers m version gsi x ≡ false) (some-injective e e' at_j) not_here
          | suc j ↦ λ e' lt at_j. before j e' (omega arith) at_j
        ]))
  Searched-next gsi e start es o not_here (missing t none_has) = missing t (elim [
    | zero ↦
        λ e' at_j. subst (λ x. covers m version gsi x ≡ false) (some-injective e e' at_j) not_here
    | suc j ↦ λ e' at_j. none_has j e' at_j
  ])

  Searched-here :
      (gsi e start : ℕ) (es : List ℕ) (t : Trace)
      → covers m version gsi e ≡ true
      → Searched m version gsi (e ∷ es) start (done start t)
  Searched-here gsi e start es t covered =
      subst (λ k. Searched m version gsi (e ∷ es) start (done k t)) (omega arith)
        (found 0 e t refl covered (λ j e' lt. absurd (omega arith)))

  search_ioapics_lem :
      (gsi start : ℕ) (es : List ℕ) (t : Trace)
      → Answers dev m tables version
      → ((j : ℕ) → get_elem? tables.ioapics (start + j) ≡ get_elem? es j)
      → Searched m version gsi es start (search_ioapics dev m tables gsi start es t)
  unfolding search_ioapics
  search_ioapics_lem gsi start [] t answers same =
      missing t (λ j e' at_j. absurd (none-ne-some e' at_j))
  search_ioapics_lem gsi start (e ∷ es) t answers same =
      let here : get_elem? tables.ioapics start ≡ some e =
        ap (get_elem? tables.ioapics) (omega arith) ∙ same 0 in
      rw (max_redir_lem start e t answers here) (elim (Bool-cases (covers m version gsi e)) [
        | inl covered ↦
            subst (Searched m version gsi (e ∷ es) start)
              (sym (
                ap
                  (λ b.
                    (if b then pure start else search_ioapics dev m tables gsi (start + 1) es)
                      (after_version e t))
                  covered))
              (Searched-here gsi e start es (after_version e t) covered)
        | inr passed ↦
            subst (Searched m version gsi (e ∷ es) start)
              (sym (
                ap
                  (λ b.
                    (if b then pure start else search_ioapics dev m tables gsi (start + 1) es)
                      (after_version e t))
                  passed))
              (Searched-next gsi e start es _ passed (
                search_ioapics_lem gsi (start + 1) es (after_version e t) answers
                  (λ j. ap (get_elem? tables.ioapics) (omega arith) ∙ same (suc j))))
      ])

  -- If the devices' version registers answer steadily, the search ends at the first controller
  -- for which the interrupt lies from its base up to, and without, the number of its last pin,
  -- and halts where there is none.
  pub ioapic_i_from_gsi-first :
      (gsi : ℕ) (t : Trace)
      → Answers dev m tables version
      → Searched m version gsi tables.ioapics 0 (ioapic_i_from_gsi dev m tables gsi t)
  unfolding ioapic_i_from_gsi
  ioapic_i_from_gsi-first gsi t answers =
      search_ioapics_lem gsi 0 tables.ioapics t answers
        (λ j. ap (get_elem? tables.ioapics) (omega arith))
