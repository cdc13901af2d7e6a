-- ===== src/Mm/Virt/Space/Descend.antt =====
-- One level down the tree: `vmm_get_or_create_pml` in both of its cases.
use fusioncore.Base.{
  ℕ, suc, ◌+◌, ◌*◌, ◌<◌, ◌≤◌, bit_or, ◌≡◌, refl, ap, ◌∙◌, Option, none, some, arith, if-true, ◌==◌,
  ◌&&◌,
}
use fusioncore.Machine.{Machine, Run, done}
use fusioncore.Machine.Laws.{word, put}
use fusioncore.Mm.Phys.Free.{HasFree, HasFree-fewer, Granted-HasFree, HasFree-Granted}
use fusioncore.Mm.Virt.{table_of, vmm_get_or_create_pml}
use fusioncore.Mm.Virt.Walk.{is_present, table-present, get_present}
use fusioncore.Mm.Virt.Indices.{Leading}
use fusioncore.Mm.Virt.Tables.{vmm_get_or_create_pml-creates}
use fusioncore.Mm.Virt.Space.{Tables, add_table, PointsTo, Leads, IsSpace, lookup}
use fusioncore.Mm.Virt.Space.Create.{machine-IsSpace, machine-lookup}

-- The call returned the table of level `k` for prefix `p`; the tree may have grown by it, the
-- address space is as before, and `n` pages are still free.
pub record Descended (tbl : Tables) (root : ℕ) (m : Machine) (k p n : ℕ) (r : Run ℕ) : Type 0 where
  pub new : Tables
  pub table : ℕ
  pub after : Machine
  pub returns : r ≡ done table after
  pub space : IsSpace new root after
  pub here : new k p ≡ some table
  pub same : (v : ℕ) → lookup new after.mem v ≡ lookup tbl m.mem v
  pub free : HasFree (suc n) m.pmm → HasFree n after.pmm

module _ {tbl : Tables} {root : ℕ} (m : Machine) (s : IsSpace tbl root m) (k q a i ptr flags n : ℕ)
    (level : k ≤ 2) (above : tbl (suc (suc k)) q ≡ some a) (small : i < 512)
    (points : PointsTo ptr a) where
  -- The table is there.
  found :
      (b : ℕ)
      → tbl (suc k) (q * 512 + i) ≡ some b
      → Leads (some b) (word m.mem (a + 8 * i))
      → Descended tbl root m (suc k) (q * 512 + i) n (vmm_get_or_create_pml ptr i flags m)
  found b there (is_there, leads) =
      let entry = points i small in
      record {
        new = tbl;
        table = b;
        after = m;
        returns =
            get_present ptr i flags m (
              ap (λ t. is_present (word m.mem t)) entry
              ∙ table-present (word m.mem (a + 8 * i)) is_there)
            ∙ ap (λ t. done t m) (ap (λ t. table_of (word m.mem t)) entry ∙ leads);
        space = s;
        here = there;
        same = λ v. refl;
        free = HasFree-fewer;
      }

  module _ (free : HasFree (suc n) m.pmm) (flags_small : flags < 512)
      (present : Leading flags) where
    -- The table is made.
    made :
        tbl (suc k) (q * 512 + i) ≡ none
        → Leads none (word m.mem (a + 8 * i))
        → Descended tbl root m (suc k) (q * 512 + i) n (vmm_get_or_create_pml ptr i flags m)
    made missing not_there =
        let entry = points i small in
        let (page, p', got, g) = HasFree-Granted m.pmm s.pages free in
        let (cleared, m', is_m', clears, ran, _) =
          vmm_get_or_create_pml-creates ptr i flags m page p'
            (ap (λ t. is_present (word m.mem t)) entry ∙ not_there) got (omega (arith, g.address))
            (omega (arith, g.address, g.below_top, s.pages.fits_int)) flags_small present.0 in
        let m1 : Machine = record { mem = put cleared (a + 8 * i) (bit_or page flags); pmm = p' } in
        let same_m : m' ≡ m1 =
          is_m' ∙ ap (λ t. record { mem = put cleared t (bit_or page flags); pmm = p' }) entry in
        record {
          new = add_table (suc k) (q * 512 + i) page tbl;
          table = page;
          after = m1;
          returns = ran ∙ ap (done page) same_m;
          space =
              machine-IsSpace m s k q a i level above small missing page p' g cleared clears flags
                flags_small present;
          here = if-true (suc k == suc k && q * 512 + i == q * 512 + i) _ _ (ground arith);
          same =
              machine-lookup m s k q a i level above small missing page p' g cleared clears flags
                flags_small present;
          free = λ h. Granted-HasFree h g;
        }

    by_table :
        (o : Option ℕ)
        → tbl (suc k) (q * 512 + i) ≡ o
        → Leads o (word m.mem (a + 8 * i))
        → Descended tbl root m (suc k) (q * 512 + i) n (vmm_get_or_create_pml ptr i flags m)
    by_table none missing leads = made missing leads
    by_table (some b) there leads = found b there leads

    pub descend : Descended tbl root m (suc k) (q * 512 + i) n (vmm_get_or_create_pml ptr i flags m)
    descend = by_table (tbl (suc k) (q * 512 + i)) refl (s.linked k q a i above small)
