-- ===== src/Mm/Virt/Space/Translate.antt =====
-- The processor's walk finds what the tree says.
use fusioncore.Base.{
  ℕ, suc, ◌+◌, ◌*◌, ◌/◌, ◌%◌, ◌^◌, ◌<◌, ◌≤◌, ◌≡◌, refl, sym, subst, ap, ◌∙◌, Bool, true, false,
  ◌&&◌, Option, none, some, arith, if◌then◌else◌, inl, inr, Option-cases,
}
use mathlib.Core.Option.{none-ne-some}
use fusioncore.Machine.{Machine, done}
use fusioncore.Machine.Laws.{word, put}
use fusioncore.Mm.Virt.{entry_at, index_at, table_of, vmm_set_pt_value}
use fusioncore.Mm.Virt.Walk.{
  pml4_entry, pdpt_entry, pd_entry, pt_entry, is_present, is_table, walked, walked-all, translate,
  HasTables, set_present,
}
use fusioncore.Mm.Virt.Space.{Tables, Leads, IsSpace, leaf_of, lookup, present_word}
use fusioncore.Mm.Virt.Space.Words.{low-PointsTo}
use fusioncore.Mm.Virt.Space.Leaf.{
  page_number, index_small, prefix_lem, last_lem, HasValue, written-IsSpace, written-lookup,
}

walked-absent4 : (w4 w3 w2 w1 : ℕ) → is_present w4 ≡ false → walked w4 w3 w2 w1 ≡ none
walked-absent4 w4 w3 w2 w1 h = rw h refl

walked-absent3 : (w4 w3 w2 w1 : ℕ) → is_present w3 ≡ false → walked w4 w3 w2 w1 ≡ none
walked-absent3 w4 w3 w2 w1 h = at (is_table w4)
  where
    at :
        (b : Bool)
        → (if b && is_table w3 && is_table w2 && is_present w1 then some w1 else none) ≡ none
    at true = rw h refl
    at false = refl

walked-absent2 : (w4 w3 w2 w1 : ℕ) → is_present w2 ≡ false → walked w4 w3 w2 w1 ≡ none
walked-absent2 w4 w3 w2 w1 h = at (is_table w4) (is_table w3)
  where
    at : (b c : Bool) → (if b && c && is_table w2 && is_present w1 then some w1 else none) ≡ none
    at true true = rw h refl
    at true false = refl
    at false c = refl

module _ {tbl : Tables} {root : ℕ} (m : Machine) (s : IsSpace tbl root m) (virt : ℕ) where
  abbrev w4 : ℕ
  w4 = word m.mem (pml4_entry root virt)

  abbrev w3 : ℕ
  w3 = word m.mem (pdpt_entry m.mem root virt)

  abbrev w2 : ℕ
  w2 = word m.mem (pd_entry m.mem root virt)

  abbrev w1 : ℕ
  w1 = word m.mem (pt_entry m.mem root virt)

  abbrev p3 : ℕ
  p3 = 0 * 512 + index_at 39 virt

  abbrev p2 : ℕ
  p2 = p3 * 512 + index_at 30 virt

  abbrev p1 : ℕ
  p1 = p2 * 512 + index_at 21 virt

  -- The word that the walk reads in a table, from the word above that leads to it.
  below :
      (k p b w i : ℕ)
      → tbl k p ≡ some b
      → table_of w ≡ b
      → i < 512
      → word m.mem (entry_at (table_of w) i) ≡ word m.mem (b + 8 * i)
  below k p b w i there leads small =
      let t = s.tables k p b there in
      ap (λ t. word m.mem (entry_at t i)) leads
      ∙ ap (word m.mem) (low-PointsTo b t.aligned t.low i small)

  leads_below :
      (k p b w i : ℕ)
      → tbl (suc (suc k)) p ≡ some b
      → table_of w ≡ b
      → i < 512
      → Leads (tbl (suc k) (p * 512 + i)) (word m.mem (entry_at (table_of w) i))
  leads_below k p b w i there leads small =
      subst (Leads (tbl (suc k) (p * 512 + i)))
        (sym (below (suc (suc k)) p b w i there leads small)) (s.linked k p b i there small)

  -- No table of the lowest level, no page.
  lookup-none : tbl 1 p1 ≡ none → none ≡ lookup tbl m.mem (page_number virt)
  lookup-none missing =
      sym (
        ap (λ o. leaf_of m.mem o (page_number virt)) (ap (tbl 1) (sym (prefix_lem virt)) ∙ missing))

  by_pd :
      (o : Option ℕ)
      → tbl 1 p1 ≡ o
      → Leads o w2
      → is_table w4 ≡ true
      → is_table w3 ≡ true
      → walked w4 w3 w2 w1 ≡ lookup tbl m.mem (page_number virt)
  by_pd none missing absent has4 has3 = walked-absent2 w4 w3 w2 w1 absent ∙ lookup-none missing
  by_pd (some b) there (has2, leads) has4 has3 =
      walked-all w4 w3 w2 w1 has4 has3 has2
      ∙ ap present_word (
          below 1 p1 b w2 (index_at 12 virt) there leads (index_small virt 12)
          ∙ ap (λ i. word m.mem (b + 8 * i)) (last_lem virt))
      ∙ sym (
          ap (λ o. leaf_of m.mem o (page_number virt)) (ap (tbl 1) (sym (prefix_lem virt)) ∙ there))

  by_pdpt :
      (o : Option ℕ)
      → tbl 2 p2 ≡ o
      → Leads o w3
      → is_table w4 ≡ true
      → walked w4 w3 w2 w1 ≡ lookup tbl m.mem (page_number virt)
  by_pdpt none missing absent has4 =
      walked-absent3 w4 w3 w2 w1 absent
      ∙ lookup-none (s.rooted 1 p2 (index_at 21 virt) (omega arith) missing (index_small virt 21))
  by_pdpt (some b) there (has3, leads) has4 =
      by_pd (tbl 1 p1) refl
        (leads_below 0 p2 b w3 (index_at 21 virt) there leads (index_small virt 21)) has4 has3

  by_pml4 :
      (o : Option ℕ)
      → tbl 3 p3 ≡ o
      → Leads o w4
      → walked w4 w3 w2 w1 ≡ lookup tbl m.mem (page_number virt)
  by_pml4 none missing absent =
      walked-absent4 w4 w3 w2 w1 absent
      ∙ lookup-none (
          s.rooted 1 p2 (index_at 21 virt) (omega arith)
            (s.rooted 2 p3 (index_at 30 virt) (omega arith) missing (index_small virt 30))
            (index_small virt 21))
  by_pml4 (some b) there (has4, leads) =
      by_pdpt (tbl 2 p2) refl
        (leads_below 1 p3 b w4 (index_at 30 virt) there leads (index_small virt 30)) has4

  pml4_leads : Leads (tbl 3 p3) w4
  pml4_leads =
      subst (Leads (tbl 3 p3))
        (ap (word m.mem) (sym (s.points (index_at 39 virt) (index_small virt 39))))
        (s.linked 2 0 s.top (index_at 39 virt) s.is_root (index_small virt 39))

  pub translate-lookup : translate m.mem root virt ≡ lookup tbl m.mem (page_number virt)
  unfolding translate
  translate-lookup = by_pml4 (tbl 3 p3) refl pml4_leads

  has_above :
      (k p i b : ℕ)
      → k ≤ 3
      → i < 512
      → tbl k (p * 512 + i) ≡ some b
      → (c : ℕ) × (tbl (suc k) p ≡ some c)
  has_above k p i b upper small here = elim (Option-cases (tbl (suc k) p)) [
    | inl missing ↦ absurd (none-ne-some b (sym (s.rooted k p i upper missing small) ∙ here))
    | inr there ↦ there
  ]

  leads_to :
      (k p i b w : ℕ)
      → tbl k (p * 512 + i) ≡ some b
      → Leads (tbl k (p * 512 + i)) w
      → Leads (some b) w
  leads_to k p i b w there leads = subst (λ o. Leads o w) there leads

  -- Where the table of the lowest level is there, so are the three words above it.
  tables_above :
      (b : ℕ)
      → tbl 1 p1 ≡ some b
      → HasTables m.mem root virt × (pt_entry m.mem root virt ≡ b + 8 * index_at 12 virt)
  tables_above b there =
      let (b2, there2) =
        has_above 1 p2 (index_at 21 virt) b (omega arith) (index_small virt 21) there in
      let (b3, there3) =
        has_above 2 p3 (index_at 30 virt) b2 (omega arith) (index_small virt 30) there2 in
      let (has4, leads4) = leads_to 3 0 (index_at 39 virt) b3 w4 there3 pml4_leads in
      let (has3, leads3) =
        leads_to 2 p3 (index_at 30 virt) b2 w3 there2
          (leads_below 1 p3 b3 w4 (index_at 30 virt) there3 leads4 (index_small virt 30)) in
      let (has2, leads2) =
        leads_to 1 p2 (index_at 21 virt) b w2 there
          (leads_below 0 p2 b2 w3 (index_at 21 virt) there2 leads3 (index_small virt 21)) in
      let t = s.tables 1 p1 b there in
      (
        record { pml4 = has4; pdpt = has3; pd = has2 },
        ap (λ e. entry_at e (index_at 12 virt)) leads2
            ∙ low-PointsTo b t.aligned t.low (index_at 12 virt) (index_small virt 12),
      )

  -- Where the tables are there, no page is taken, whatever the flags are.
  pub vmm_set_pt_value-there :
      (flags value n b : ℕ)
      → value < 2 ^ 64
      → tbl 1 (page_number virt / 512) ≡ some b
      → HasValue tbl root m (page_number virt) value n n (vmm_set_pt_value root virt flags value m)
  vmm_set_pt_value-there flags value n b fits there =
      let (has, place) = tables_above b (ap (tbl 1) (prefix_lem virt) ∙ there) in
      let v = page_number virt in
      record {
        new = tbl;
        after = record m { mem = put m.mem (b + 8 * (v % 512)) value };
        returns =
            set_present root virt flags value m has
            ∙ ap (λ e. done tt (record m { mem = put m.mem e value }))
                (place ∙ ap (λ (i : ℕ). b + 8 * i) (last_lem virt));
        space = written-IsSpace m s v b value there fits;
        mapped = written-lookup m s v b value there fits;
        free = λ h. h;
      }
