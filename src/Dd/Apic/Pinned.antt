-- ===== src/Dd/Apic/Pinned.antt =====
-- A legacy line whose pin is programmed, among the accesses to the controllers.
use fusioncore.Base.{
  List, ◌<◌, ℕ, ◌+◌, ◌≡◌, subst, sym, ap, ◌∙◌, true, some, [], ◌++◌, get_elem?, u8,
}
use mathlib.Core.Bool.{false≢true}
use mathlib.Core.List.{append_assoc, append-nil}
use fusioncore.Asm.{Access, Trace, Device, done}
use fusioncore.Asm.Appends.{Starts, IsClosed}
use fusioncore.Machine.Bytes.{Memory}
use fusioncore.Acpi.Madt.{Madt}
use fusioncore.Dd.Apic.Ioapic.{redirect_entry_of, ioapic_set_irq_redir}
use fusioncore.Dd.Apic.Accesses.{Asks}
use fusioncore.Dd.Apic.Pins.{covers}
use fusioncore.Dd.Apic.Program.{
  Programmed, programmed, no_controller, override_of, pin_reg, pin_writes,
}

module _ (dev : Device) (m : Memory) (tables : Madt) (version : ℕ → ℕ) where
  -- The interrupt that a legacy line has.
  abbrev pub gsi_of : ℕ → ℕ
  gsi_of line = (override_of dev m tables line tables.isos).0

  -- Some controller has the pin of a line's interrupt.
  pub record HasPin (line : ℕ) : Type 0 where
    pub index : ℕ
    pub controller : ℕ
    pub there : get_elem? tables.ioapics index ≡ some controller
    pub has : covers m version (gsi_of line) controller ≡ true

  -- The writes to a controller that program a line, masked, with the line's vector.
  abbrev pub line_writes : ℕ → ℕ → ℕ → List Access
  line_writes line id e =
      pin_writes dev m tables e (pin_reg dev m tables (gsi_of line) e)
        (redirect_entry_of id (u8 (line + 32)) (override_of dev m tables line tables.isos).1 true)

  -- Nothing but questions, and writes that program a legacy line, masked, on a controller that has
  -- its interrupt.
  pub data Rounds : List Access → Type 0 where
    stop : Rounds []
    asks : {ask rest : List Access} → Asks dev m tables ask → Rounds rest → Rounds (ask ++ rest)
    programs :
        {rest : List Access} (line id : ℕ)
        → line < 16
        → (pin : HasPin line) → Rounds rest
        → Rounds (line_writes line id pin.controller ++ rest)

  Rounds-app : (a b : List Access) → Rounds a → Rounds b → Rounds (a ++ b)
  Rounds-app _ b stop q = q
  Rounds-app _ b (asks {ask} {rest} asked p) q =
      subst Rounds (sym (append_assoc ask rest b)) (asks asked (Rounds-app rest b p q))
  Rounds-app _ b (programs {rest} line id less pin p) q =
      programs line id less pin (Rounds-app rest b p q)

  pub Rounds-IsClosed : IsClosed Rounds
  Rounds-IsClosed = record { nil = stop; app = Rounds-app }

  -- Among the accesses the line's pin is programmed with the line's vector, masked, for some
  -- processor.
  pub record LineIn (line : ℕ) (t : Trace) : Type 0 where
    pub pin : HasPin line
    pub lapic_id : ℕ
    pub before : Trace
    pub behind : Trace
    pub splits : t ≡ (before ++ line_writes line lapic_id pin.controller) ++ behind

  pub LineIn-later :
      {line : ℕ} {P : List Access → Type 0} {t t' : Trace}
      → Starts P t t'
      → LineIn line t
      → LineIn line t'
  LineIn-later s l = record {
    pin = l.pin;
    lapic_id = l.lapic_id;
    before = l.before;
    behind = l.behind ++ s.behind;
    splits = s.splits ∙ ap (λ a. a ++ s.behind) l.splits ∙ append_assoc _ l.behind s.behind;
  }

  -- One line.
  pub record Redirected (line id : ℕ) (t : Trace) : Type 0 where
    pub after : Trace
    pub returns :
        ioapic_set_irq_redir dev m tables id (u8 (line + 32)) line true t ≡ done (gsi_of line) after
    pub rounds : Starts Rounds t after
    pub programs : LineIn line after

  pub by_outcome :
      (line id : ℕ) (t : Trace)
      → line < 16
      → HasPin line
      → Programmed dev m tables
          (gsi_of line)
          version
          (gsi_of line)
          (redirect_entry_of id (u8 (line + 32)) (override_of dev m tables line tables.isos).1 true)
          t
          (ioapic_set_irq_redir dev m tables id (u8 (line + 32)) line true t)
      → Redirected line id t
  by_outcome line id t less pin (programmed i e t1 there has first asked own ran) =
      let here : HasPin line = record { index = i; controller = e; there = there; has = has } in
      record {
        after = t1 ++ line_writes line id e;
        returns = ran;
        rounds = record {
          behind = asked.behind ++ (line_writes line id e ++ []);
          splits =
              ap (λ a. a ++ line_writes line id e) asked.splits
              ∙ append_assoc t asked.behind (line_writes line id e);
          kind = asks asked.kind (programs line id less here stop);
        };
        programs = record {
          pin = here;
          lapic_id = id;
          before = t1;
          behind = [];
          splits = sym (append-nil _);
        };
      }
  by_outcome line id t less pin (no_controller t1 none_has ran) =
      absurd (false≢true (sym (none_has pin.index pin.controller pin.there) ∙ pin.has))
