-- ===== src/Mm/Virt/Space/Create.antt =====
-- A new table in the tree: what `vmm_get_or_create_pml` does where an entry is not present.
use fusioncore.Base.{
  ℕ, suc, ◌+◌, ◌*◌, ◌/◌, ◌%◌, ◌^◌, ◌<◌, ◌≤◌, bit_or, ◌≡◌, ◌≢◌, refl, sym, subst, ap, ◌∙◌, ◌⊎◌, inl,
  inr, true, false, ◌&&◌, Option, none, some, arith, ◌==◌, if◌then◌else◌, if-true, if-false,
  Bool-cases,
}
use mathlib.Core.Bool.{false≢true}
use mathlib.Core.Option.{some-injective, none-ne-some}
use fusioncore.Libk.Text.Laws.{in_block}
use fusioncore.Machine.{Machine}
use fusioncore.Machine.Bytes.{Memory}
use fusioncore.Machine.Laws.{word, put, word-put_self}
use fusioncore.Mm.Bitmap.{is_set}
use fusioncore.Mm.Memmap.{page_size}
use fusioncore.Mm.Phys.{Pmm}
use fusioncore.Mm.Phys.Roundtrip.{Granted, Granted-IsPmm}
use fusioncore.Mm.Virt.{table_of}
use fusioncore.Mm.Virt.Walk.{is_present, is_table}
use fusioncore.Mm.Virt.Indices.{table_of_lem, Leading}
use fusioncore.Mm.Virt.Tables.{leads-is_table, entry_fits}
use fusioncore.Mm.Virt.Space.{
  Tables, add_table, IsTable, Leads, IsSpace, leaf_of, lookup, present_word,
}
use fusioncore.Mm.Virt.Space.Words.{entry-put_other, word-cleared_other, word-cleared_page}

-- The table that was added, or one that was there.
add_table-cases :
    (k p b : ℕ) (tbl : Tables) (k' p' : ℕ)
    → ((k' ≡ k) × (p' ≡ p) × (add_table k p b tbl k' p' ≡ some b))
      ⊎ ((k' ≡ k → p' ≡ p → ⊥) × (add_table k p b tbl k' p' ≡ tbl k' p'))
add_table-cases k p b tbl k' p' = elim (Bool-cases (k' == k && p' == p)) [
  | inl same ↦ inl (ground arith, ground arith, if-true _ _ _ same)
  | inr other ↦ inr ((λ e e'. ground arith), if-false _ _ _ other)
]

module _ {tbl : Tables} {root : ℕ} (m : Machine) (s : IsSpace tbl root m) (k q a i : ℕ)
    (level : k ≤ 2) (above : tbl (suc (suc k)) q ≡ some a) (small : i < 512)
    (missing : tbl (suc k) (q * 512 + i) ≡ none) (page : ℕ) (p' : Pmm) (g : Granted 1 m.pmm page p')
    (cleared : Memory)
    (clears : (x : ℕ) → cleared x ≡ (if in_block page page_size x then 0 else m.mem x)) (flags : ℕ)
    (flags_small : flags < 512) (present : Leading flags) where
  abbrev new_tables : Tables
  new_tables = add_table (suc k) (q * 512 + i) page tbl

  abbrev after : Memory
  after = put cleared (a + 8 * i) (bit_or page flags)

  page_aligned : page % page_size ≡ 0
  page_aligned = omega (arith, g.address)

  page_low : page < 2 ^ 46
  page_low = omega (arith, g.address, g.below_top, s.pages.fits_int)

  a_aligned : a % page_size ≡ 0
  a_aligned = (s.tables (suc (suc k)) q a above).aligned

  -- The page is no table's.
  fresh : (k' r c : ℕ) → tbl k' r ≡ some c → c ≢ page
  fresh k' r c here same =
      false≢true (sym g.was_free ∙ ap (is_set m.pmm.bitmap) index ∙ (s.tables k' r c here).used)
    where
      index : g.index ≡ c / page_size
      index = omega (arith, g.address, same)

  kept_word :
      (c j : ℕ)
      → c % page_size ≡ 0
      → j < 512
      → c ≢ page
      → a + 8 * i ≢ c + 8 * j
      → word after (c + 8 * j) ≡ word m.mem (c + 8 * j)
  kept_word c j c_aligned j_small ne apart =
      entry-put_other cleared a i c j (bit_or page flags) a_aligned c_aligned apart
      ∙ word-cleared_other m.mem cleared page page_aligned clears c j c_aligned j_small ne

  written : word after (a + 8 * i) ≡ bit_or page flags
  written =
      word-put_self cleared (a + 8 * i) (bit_or page flags)
        (entry_fits page flags page_aligned (omega (arith, page_low)) flags_small)

  new_zero : (j : ℕ) → j < 512 → word after (page + 8 * j) ≡ 0
  new_zero j j_small =
      entry-put_other cleared a i page j (bit_or page flags) a_aligned page_aligned apart
      ∙ word-cleared_page m.mem cleared page page_aligned clears j j_small
    where
      apart : a + 8 * i ≢ page + 8 * j
      apart e = fresh (suc (suc k)) q a above (omega (arith, e, small, a_aligned, page_aligned))

  new_leads : Leads (some page) (word after (a + 8 * i))
  new_leads = (
    ap is_table written ∙ leads-is_table page flags page_aligned flags_small present,
    ap table_of written
        ∙ table_of_lem page flags page_aligned (omega (arith, page_low)) flags_small,
  )

  abbrev machine : Machine
  machine = record { mem = after; pmm = p' }

  still_IsTable : (c : ℕ) → IsTable m.pmm c → IsTable p' c
  still_IsTable c h = record {
    aligned = h.aligned;
    low = h.low;
    used = ground (arith, g.marked.filled.bits (c / page_size), h.used);
  }

  page-IsTable : IsTable p' page
  page-IsTable = record {
    aligned = page_aligned;
    low = page_low;
    used = taken (page / page_size) (omega (arith, g.address));
  }
    where
      taken : (j : ℕ) → j ≡ g.index → is_set p'.bitmap j ≡ true
      taken j same = ground (arith, g.marked.filled.bits j)

  new_tables-IsTable : (k' r c : ℕ) → new_tables k' r ≡ some c → IsTable p' c
  new_tables-IsTable k' r c h = elim (add_table-cases (suc k) (q * 512 + i) page tbl k' r) [
    | inl (_, _, e) ↦ subst (IsTable p') (some-injective page c (sym e ∙ h)) page-IsTable
    | inr (_, e) ↦ still_IsTable c (s.tables k' r c (sym e ∙ h))
  ]

  new_unshared :
      (k1 r1 k2 r2 c : ℕ)
      → new_tables k1 r1 ≡ some c
      → new_tables k2 r2 ≡ some c
      → (k1 ≡ k2) × (r1 ≡ r2)
  new_unshared k1 r1 k2 r2 c h1 h2 = elim (add_table-cases (suc k) (q * 512 + i) page tbl k1 r1) [
    | inl (e1, e1', n1) ↦ elim (add_table-cases (suc k) (q * 512 + i) page tbl k2 r2) [
      | inl (e2, e2', _) ↦ (e1 ∙ sym e2, e1' ∙ sym e2')
      | inr (_, o2) ↦ absurd (fresh k2 r2 c (sym o2 ∙ h2) (some-injective c page (sym h1 ∙ n1)))
    ]
    | inr (_, o1) ↦ elim (add_table-cases (suc k) (q * 512 + i) page tbl k2 r2) [
      | inl (_, _, n2) ↦ absurd (fresh k1 r1 c (sym o1 ∙ h1) (some-injective c page (sym h2 ∙ n2)))
      | inr (_, o2) ↦ s.unshared k1 r1 k2 r2 c (sym o1 ∙ h1) (sym o2 ∙ h2)
    ]
  ]

  -- The entry that was written is the only one of its prefix.
  clash :
      (k' r c j : ℕ)
      → tbl (suc (suc k')) r ≡ some c
      → j < 512
      → (suc k' ≡ suc k → r * 512 + j ≡ q * 512 + i → ⊥)
      → a + 8 * i ≢ c + 8 * j
  clash k' r c j here j_small ne e =
      let same_c : c ≡ a = omega (arith, a_aligned, (s.tables _ _ c here).aligned, e) in
      let same_j : j ≡ i = omega (arith, same_c, e) in
      let (same_k, same_r) =
        s.unshared (suc (suc k')) r (suc (suc k)) q a (here ∙ ap some same_c) above in
      ne (omega arith) (omega arith)

  -- An entry of a table that was there.
  old_linked :
      (k' r c j : ℕ)
      → tbl (suc (suc k')) r ≡ some c
      → j < 512
      → Leads (new_tables (suc k') (r * 512 + j)) (word after (c + 8 * j))
  old_linked k' r c j here j_small =
      elim (add_table-cases (suc k) (q * 512 + i) page tbl (suc k') (r * 512 + j)) [
        | inl (e, e', n) ↦
            let same_k : k' ≡ k = omega arith in
            let same_r : r ≡ q = omega (arith, e') in
            let same_j : j ≡ i = omega (arith, e') in
            let same_c : c ≡ a = some-injective c a (
              sym here
              ∙ ap (λ t. tbl (suc (suc t)) r) same_k
              ∙ ap (tbl (suc (suc k))) same_r
              ∙ above) in
            subst (λ o. Leads o (word after (c + 8 * j))) (sym n) (rw (same_c, same_j) new_leads)
        | inr (ne, o) ↦
            subst (λ t. Leads t (word after (c + 8 * j))) (sym o)
              (subst (Leads (tbl (suc k') (r * 512 + j)))
                (sym (
                  kept_word c j (s.tables _ _ c here).aligned j_small (fresh _ _ c here)
                    (clash k' r c j here j_small ne)))
                (s.linked k' r c j here j_small))
      ]

  new_linked :
      (k' r c j : ℕ)
      → new_tables (suc (suc k')) r ≡ some c
      → j < 512
      → Leads (new_tables (suc k') (r * 512 + j)) (word after (c + 8 * j))
  new_linked k' r c j here j_small =
      elim (add_table-cases (suc k) (q * 512 + i) page tbl (suc (suc k')) r) [
        | inl (e, e', n) ↦
            let same_c : page ≡ c = some-injective page c (sym n ∙ here) in
            let none_above : tbl (suc (suc k')) r ≡ none =
              ap (λ t. tbl t r) e ∙ ap (tbl (suc k)) e' ∙ missing in
            let empty : tbl (suc k') (r * 512 + j) ≡ none =
              s.rooted (suc k') r j (omega (arith, e)) none_above j_small in
            subst (λ o. Leads o (word after (c + 8 * j)))
              (sym (
                if-false (suc k' == suc k && r * 512 + j == q * 512 + i) (some page) _
                  (ground arith)
                ∙ empty))
              (subst (λ t. is_present (word after (t + 8 * j)) ≡ false) same_c
                (ap is_present (new_zero j j_small)))
        | inr (_, o) ↦ old_linked k' r c j (sym o ∙ here) j_small
      ]

  new_rooted :
      (k' r j : ℕ)
      → k' ≤ 3
      → new_tables (suc k') r ≡ none
      → j < 512
      → new_tables k' (r * 512 + j) ≡ none
  new_rooted k' r j upper none_above j_small =
      elim (add_table-cases (suc k) (q * 512 + i) page tbl (suc k') r) [
        | inl (_, _, n) ↦ absurd (none-ne-some page (sym none_above ∙ n))
        | inr (_, o) ↦ elim (add_table-cases (suc k) (q * 512 + i) page tbl k' (r * 512 + j)) [
          | inl (e, e', _) ↦
              let same_r : r ≡ q = omega (arith, e', small, j_small) in
              absurd (
                none-ne-some a (
                  sym (sym o ∙ none_above)
                  ∙ ap (λ t. tbl (suc t) r) e
                  ∙ ap (tbl (suc (suc k))) same_r
                  ∙ above))
          | inr (_, o') ↦ o' ∙ s.rooted k' r j upper (sym o ∙ none_above) j_small
        ]
      ]

  pub machine-IsSpace : IsSpace new_tables root machine
  machine-IsSpace = record {
    pages = Granted-IsPmm s.pages g;
    top = s.top;
    is_root = if-false (4 == suc k && 0 == q * 512 + i) (some page) _ (ground arith) ∙ s.is_root;
    points = s.points;
    tables = new_tables-IsTable;
    unshared = new_unshared;
    linked = new_linked;
    rooted = new_rooted;
  }

  -- A table of the lowest level that was there keeps its words.
  old_leaf : (v : ℕ) (o : Option ℕ) → tbl 1 (v / 512) ≡ o → leaf_of after o v ≡ leaf_of m.mem o v
  old_leaf v none here = refl
  old_leaf v (some c) here =
      ap present_word
        (kept_word c (v % 512) c_aligned (omega arith) (fresh 1 (v / 512) c here) apart)
    where
      c_aligned : c % page_size ≡ 0
      c_aligned = (s.tables 1 (v / 512) c here).aligned

      apart : a + 8 * i ≢ c + 8 * (v % 512)
      apart e =
          let same_c : c ≡ a = omega (arith, a_aligned, c_aligned, e) in
          let (level_1, _) =
            s.unshared 1 (v / 512) (suc (suc k)) q a (here ∙ ap some same_c) above in
          omega arith

  -- No page is mapped otherwise.
  pub machine-lookup : (v : ℕ) → lookup new_tables after v ≡ lookup tbl m.mem v
  machine-lookup v = elim (add_table-cases (suc k) (q * 512 + i) page tbl 1 (v / 512)) [
    | inl (e, e', n) ↦
        ap (λ o. leaf_of after o v) n
        ∙ ap present_word (new_zero (v % 512) (omega arith))
        ∙ sym (
            ap (λ o. leaf_of m.mem o v)
              (ap (λ t. tbl t (v / 512)) e ∙ ap (tbl (suc k)) e' ∙ missing))
    | inr (_, o) ↦ ap (λ o. leaf_of after o v) o ∙ old_leaf v (tbl 1 (v / 512)) refl
  ]
