-- ===== src/Mm/Virt/Space/Leaf.antt =====
-- `vmm_set_pt_value`: three levels down, and the word of the lowest table.
use fusioncore.Base.{
  ℕ, suc, ◌+◌, ◌*◌, ◌/◌, ◌%◌, ◌^◌, ◌<◌, ◌≡◌, ◌≢◌, refl, sym, subst, ap, ◌∙◌, false, Option, none,
  some, arith, ◌==◌, if◌then◌else◌, if-true, if-false, Bool-cases, inl, inr, ==_iff, ==_ne,
}
use mathlib.Core.Option.{some-injective, none-ne-some}
use fusioncore.Machine.{Machine, Run, done, write64}
use fusioncore.Machine.Bytes.{Memory}
use fusioncore.Machine.Laws.{word, put, word-put_self}
use fusioncore.Mm.Memmap.{page_size}
use fusioncore.Mm.Phys.Free.{HasFree}
use fusioncore.Mm.Virt.{entry_at, index_at, vmm_get_or_create_pml, vmm_set_pt_value}
use fusioncore.Mm.Virt.Indices.{Leading, index_at_lem}
use fusioncore.Mm.Virt.Space.{Tables, PointsTo, Leads, IsSpace, leaf_of, lookup, present_word}
use fusioncore.Mm.Virt.Space.Words.{low-PointsTo, entry-put_other}
use fusioncore.Mm.Virt.Space.Descend.{Descended, descend}

-- The number of the page that an address of 48 bits lies in.
abbrev pub page_number : ℕ → ℕ
page_number virt = virt / page_size % 2 ^ 36

-- The indices of an address, and its prefixes.
module _ (virt : ℕ) where
  pub index_small : (k : ℕ) → index_at k virt < 512
  index_small k = omega (arith, index_at_lem k virt)

  pub prefix_lem :
      ((0 * 512 + index_at 39 virt) * 512 + index_at 30 virt) * 512 + index_at 21 virt
      ≡ page_number virt / 512
  prefix_lem = omega (arith, index_at_lem 39 virt, index_at_lem 30 virt, index_at_lem 21 virt)

  pub last_lem : index_at 12 virt ≡ page_number virt % 512
  last_lem = omega (arith, index_at_lem 12 virt)

-- A word of a lowest table is written.
module _ {tbl : Tables} {root : ℕ} (m : Machine) (s : IsSpace tbl root m) (v a value : ℕ)
    (here : tbl 1 (v / 512) ≡ some a) (fits : value < 2 ^ 64) where
  abbrev after : Memory
  after = put m.mem (a + 8 * (v % 512)) value

  a_aligned : a % page_size ≡ 0
  a_aligned = (s.tables 1 (v / 512) a here).aligned

  -- Another word of a table.
  other_word :
      (k r c j : ℕ)
      → tbl k r ≡ some c
      → j < 512
      → (k ≡ 1 → r ≡ v / 512 → j ≢ v % 512)
      → word after (c + 8 * j) ≡ word m.mem (c + 8 * j)
  other_word k r c j there small ne =
      let c_aligned = (s.tables k r c there).aligned in
      entry-put_other m.mem a (v % 512) c j value a_aligned c_aligned (λ e.
        let same_c : c ≡ a = omega (arith, a_aligned, c_aligned, e) in
        let (level, prefix) = s.unshared k r 1 (v / 512) a (there ∙ ap some same_c) here in
        ne level prefix (omega (arith, e, same_c)))

  pub written-IsSpace : IsSpace tbl root (record m { mem = after })
  written-IsSpace = record {
    pages = s.pages;
    top = s.top;
    is_root = s.is_root;
    points = s.points;
    tables = s.tables;
    unshared = s.unshared;
    linked = λ k r c j there small.
        subst (Leads (tbl (suc k) (r * 512 + j)))
          (sym (other_word (suc (suc k)) r c j there small (λ e. absurd (omega (arith, e)))))
          (s.linked k r c j there small);
    rooted = s.rooted;
  }

  same_page : (w : ℕ) → (w == v) ≡ false → w / 512 ≡ v / 512 → w % 512 ≡ v % 512 → ⊥
  same_page w other prefix e = ground arith

  written_leaf :
      (w : ℕ) (o : Option ℕ)
      → tbl 1 (w / 512) ≡ o
      → leaf_of after o w ≡ (if w == v then present_word value else leaf_of m.mem o w)
  written_leaf w none missing = sym (
      if-false _ _ _
        (==_ne w v (λ same. none-ne-some a (sym missing ∙ ap (λ t. tbl 1 (t / 512)) same ∙ here))))
  written_leaf w (some c) there = elim (Bool-cases (w == v)) [
    | inl same ↦
        let at_v : w ≡ v = (==_iff _ _).0 same in
        let same_c : c ≡ a =
          some-injective c a (sym there ∙ ap (λ t. tbl 1 (t / 512)) at_v ∙ here) in
        ap present_word (
          ap (word after) (omega (arith, same_c, at_v))
          ∙ word-put_self m.mem (a + 8 * (v % 512)) value fits)
        ∙ sym (if-true _ _ _ same)
    | inr other ↦
        ap present_word (
          other_word 1 (w / 512) c (w % 512) there (omega arith)
            (λ _ prefix e. same_page w other prefix e))
        ∙ sym (if-false _ _ _ other)
  ]

  pub written-lookup :
      (w : ℕ) → lookup tbl after w ≡ (if w == v then present_word value else lookup tbl m.mem w)
  written-lookup w = written_leaf w (tbl 1 (w / 512)) refl

-- The value is the word of page `v`, all other pages are mapped as before, and of `had` free pages
-- `n` are left.
pub record HasValue (tbl : Tables) (root : ℕ) (m : Machine) (v value had n : ℕ) (r : Run (Unit {0}))
    : Type 0 where
  pub new : Tables
  pub after : Machine
  pub returns : r ≡ done tt after
  pub space : IsSpace new root after
  pub mapped :
      (w : ℕ) → lookup new after.mem w ≡ (if w == v then present_word value else lookup tbl m.mem w)
  pub free : HasFree had m.pmm → HasFree n after.pmm

module _ {tbl : Tables} {root : ℕ} (m : Machine) (s : IsSpace tbl root m) (virt flags value n : ℕ)
    (fits : value < 2 ^ 64) where
  points_to :
      {tbl : Tables} {root k p n : ℕ} {m : Machine} {r : Run ℕ} (d : Descended tbl root m k p n r)
      → PointsTo d.table d.table
  points_to d = let t = d.space.tables _ _ d.table d.here in low-PointsTo d.table t.aligned t.low

  -- The three calls and the write, from what each call did.
  set_lem :
      (d3 : Descended tbl root m 3
        (0 * 512 + index_at 39 virt)
        (suc (suc n))
        (vmm_get_or_create_pml root (index_at 39 virt) flags m))
      (d2 : Descended d3.new root d3.after 2
        ((0 * 512 + index_at 39 virt) * 512 + index_at 30 virt)
        (suc n)
        (vmm_get_or_create_pml d3.table (index_at 30 virt) flags d3.after))
      (d1 : Descended d2.new root d2.after 1
        (((0 * 512 + index_at 39 virt) * 512 + index_at 30 virt) * 512 + index_at 21 virt)
        n
        (vmm_get_or_create_pml d2.table (index_at 21 virt) flags d2.after))
      → HasValue tbl root m
          (page_number virt)
          value
          (suc (suc (suc n)))
          n
          (vmm_set_pt_value root virt flags value m)
  unfolding vmm_set_pt_value write64
  set_lem d3 d2 d1 =
      let v = page_number virt in
      let here : d1.new 1 (v / 512) ≡ some d1.table =
        subst (λ t. d1.new 1 t ≡ some d1.table) (prefix_lem virt) d1.here in
      let place : entry_at d1.table (index_at 12 virt) ≡ d1.table + 8 * (v % 512) =
        points_to d1 (index_at 12 virt) (index_small virt 12)
        ∙ ap (λ (t : ℕ). d1.table + 8 * t) (last_lem virt) in
      record {
        new = d1.new;
        after = record d1.after { mem = put d1.after.mem (d1.table + 8 * (v % 512)) value };
        returns =
            rw (d3.returns, d2.returns, d1.returns)
              (ap (λ t. done tt (record d1.after { mem = put d1.after.mem t value })) place);
        space = written-IsSpace d1.after d1.space v d1.table value here fits;
        mapped = λ w.
            written-lookup d1.after d1.space v d1.table value here fits w
            ∙ ap (λ o. if w == v then present_word value else o)
                (d1.same w ∙ d2.same w ∙ d3.same w);
        free = λ h. d1.free (d2.free (d3.free h));
      }

  -- Where tables are missing, three free pages are enough.
  pub vmm_set_pt_value-HasValue :
      HasFree (suc (suc (suc n))) m.pmm
      → flags < 512
      → Leading flags
      → HasValue tbl root m
          (page_number virt)
          value
          (suc (suc (suc n)))
          n
          (vmm_set_pt_value root virt flags value m)
  vmm_set_pt_value-HasValue free flags_small present =
      let d3 =
        descend m s 2 0 s.top (index_at 39 virt) root flags (suc (suc n)) (omega arith) s.is_root
          (index_small virt 39) s.points free flags_small present in
      let d2 =
        descend d3.after d3.space 1 (0 * 512 + index_at 39 virt) d3.table (index_at 30 virt)
          d3.table flags (suc n) (omega arith) d3.here (index_small virt 30) (points_to d3)
          (d3.free free) flags_small present in
      let d1 =
        descend d2.after d2.space 0 ((0 * 512 + index_at 39 virt) * 512 + index_at 30 virt) d2.table
          (index_at 21 virt) d2.table flags n (omega arith) d2.here (index_small virt 21)
          (points_to d2) (d2.free (d3.free free)) flags_small present in
      set_lem d3 d2 d1
