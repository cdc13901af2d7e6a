-- ===== src/Dd/Apic/Accesses.antt =====
-- The search for a controller only asks: it selects version registers and reads.
use fusioncore.Base.{
  ℕ, ◌+◌, none, some, Option, List, [], ◌∷◌, ◌++◌, get_elem?, leb, ltb, ◌&&◌, u8, u32, u64,
}
use fusioncore.Asm.{Access, wrote, was_read, Device, pure, write_reg32}
use fusioncore.Asm.Appends.{
  IsClosed, Appends, pure-Appends, halt-Appends, fault-Appends, if-Appends, bind-Appends,
  write-Appends, read-Appends,
}
use fusioncore.Machine.Bytes.{Memory}
use fusioncore.Acpi.Madt.{Madt, ioapic_gsi_base}
use fusioncore.Dd.Apic.Ioapic.{
  ioapic_base, ioregsel, iowin, ioapicver_reg, ioapic_at, from_table, ioapic_read_reg,
  ioapic_get_max_redir, search_ioapics, ioapic_i_from_gsi,
}

module _ (dev : Device) (m : Memory) (tables : Madt) where
  -- Reads, and selections of a controller's version register.
  pub data Asks : List Access → Type 0 where
    nothing : Asks []
    reads : {xs : List Access} (addr : ℕ) → Asks xs → Asks (was_read addr ∷ xs)
    selects :
        {xs : List Access} (e : ℕ)
        → Asks xs
        → Asks (wrote (u64 (ioapic_base dev m tables e + ioregsel)) ioapicver_reg ∷ xs)

  Asks-app : (a b : List Access) → Asks a → Asks b → Asks (a ++ b)
  Asks-app _ b nothing q = q
  Asks-app _ b (reads {xs} addr p) q = reads addr (Asks-app xs b p q)
  Asks-app _ b (selects {xs} e p) q = selects e (Asks-app xs b p q)

  pub Asks-IsClosed : IsClosed Asks
  Asks-IsClosed = record { nil = nothing; app = Asks-app }

  at-Appends : (o : Option ℕ) → Appends Asks (from_table o)
  at-Appends none = fault-Appends Asks Asks-IsClosed
  at-Appends (some e) = pure-Appends Asks Asks-IsClosed e

  max_redir-Appends : (i : ℕ) → Appends Asks (ioapic_get_max_redir dev m tables i)
  unfolding ioapic_get_max_redir ioapic_read_reg
  max_redir-Appends i =
      bind-Appends Asks Asks-IsClosed (ioapic_read_reg dev m tables i ioapicver_reg) _
        (bind-Appends Asks Asks-IsClosed (ioapic_at dev m tables i) _
          (at-Appends (get_elem? tables.ioapics i))
          λ e.
            bind-Appends Asks Asks-IsClosed
              (write_reg32 (u64 (ioapic_base dev m tables e + ioregsel)) (u8 ioapicver_reg)) _
              (write-Appends Asks (u64 (ioapic_base dev m tables e + ioregsel)) (u8 ioapicver_reg)
                (selects e nothing))
              λ done.
                read-Appends Asks dev (u64 (ioapic_base dev m tables e + iowin)) (reads _ nothing))
        (λ v. pure-Appends Asks Asks-IsClosed _)

  search-Appends : (gsi i : ℕ) (es : List ℕ) → Appends Asks (search_ioapics dev m tables gsi i es)
  unfolding search_ioapics
  search-Appends gsi i [] = halt-Appends Asks Asks-IsClosed
  search-Appends gsi i (e ∷ es) =
      bind-Appends Asks Asks-IsClosed (ioapic_get_max_redir dev m tables i) _ (max_redir-Appends i)
        λ max.
          if-Appends Asks Asks-IsClosed
            (leb (ioapic_gsi_base m e) gsi && ltb gsi (u32 (ioapic_gsi_base m e + max))) (pure i)
            (search_ioapics dev m tables gsi (i + 1) es) (pure-Appends Asks Asks-IsClosed i)
            (search-Appends gsi (i + 1) es)

  pub ioapic_i_from_gsi-Appends : (gsi : ℕ) → Appends Asks (ioapic_i_from_gsi dev m tables gsi)
  unfolding ioapic_i_from_gsi
  ioapic_i_from_gsi-Appends gsi = search-Appends gsi 0 tables.ioapics
