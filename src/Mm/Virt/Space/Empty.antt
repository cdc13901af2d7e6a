-- ===== src/Mm/Virt/Space/Empty.antt =====
-- The address space of a root table without entries, as `vmm_init` makes it first.
use fusioncore.Base.{
  ℕ, suc, ◌+◌, ◌*◌, ◌/◌, ◌%◌, ◌^◌, ◌<◌, ◌≡◌, refl, sym, ap, subst, ◌∙◌, true, false, ◌&&◌, none,
  some, arith, ◌==◌, if◌then◌else◌, if-true, if-false, Bool-cases, inl, inr,
}
use mathlib.Core.Option.{some-injective, none-ne-some}
use fusioncore.Machine.{Machine, done}
use fusioncore.Machine.Laws.{word}
use fusioncore.Mm.Bitmap.{is_set}
use fusioncore.Mm.Memmap.{page_size, phys_to_higher_half_data}
use fusioncore.Mm.Phys.{Pmm}
use fusioncore.Mm.Phys.Search.{IsPmm}
use fusioncore.Mm.Phys.Roundtrip.{Granted, Granted-IsPmm}
use fusioncore.Mm.Phys.Free.{HasFree, HasFree-Granted, Granted-HasFree}
use fusioncore.Mm.Zeroed.{pmm_allocz}
use fusioncore.Mm.Zeroed.Cleared.{pmm_allocz-clears}
use fusioncore.Mm.Virt.Walk.{is_present, translate}
use fusioncore.Mm.Virt.Space.{Tables, PointsTo, IsTable, Leads, IsSpace}
use fusioncore.Mm.Virt.Space.Words.{high-PointsTo, word-cleared_page}
use fusioncore.Mm.Virt.Space.Translate.{translate-lookup}

-- The root alone.
abbrev pub only_root : ℕ → Tables
only_root a k p = if k == 4 && p == 0 then some a else none

only_root-cases : (a k p b : ℕ) → only_root a k p ≡ some b → (k ≡ 4) × (p ≡ 0) × (a ≡ b)
only_root-cases a k p b h = elim (Bool-cases (k == 4 && p == 0)) [
  | inl is ↦ (ground arith, ground arith, some-injective a b (sym (if-true _ _ _ is) ∙ h))
  | inr not_root ↦ absurd (none-ne-some b (sym (if-false _ _ _ not_root) ∙ h))
]

module _ (m : Machine) (root a : ℕ) (pages : IsPmm m.pmm) (table : IsTable m.pmm a)
    (points : PointsTo root a) (zeros : (j : ℕ) → j < 512 → word m.mem (a + 8 * j) ≡ 0) where
  no_table :
      (k p b j : ℕ)
      → suc (suc k) ≡ 4
      → a ≡ b
      → j < 512
      → Leads (only_root a (suc k) (p * 512 + j)) (word m.mem (b + 8 * j))
  no_table k p b j e same small =
      subst (λ o. Leads o (word m.mem (b + 8 * j)))
        (sym (if-false (suc k == 4 && p * 512 + j == 0) (some a) none (ground (arith, e))))
        (subst (λ t. is_present (word m.mem (t + 8 * j)) ≡ false) same
          (ap is_present (zeros j small)))

  pub empty-IsSpace : IsSpace (only_root a) root m
  empty-IsSpace = record {
    pages = pages;
    top = a;
    is_root = refl;
    points = points;
    tables =
        λ k p b h. let (_, _, same) = only_root-cases a k p b h in subst (IsTable m.pmm) same table;
    unshared = λ k p k' p' b h h'.
        let (e, e', _) = only_root-cases a k p b h in
        let (f, f', _) = only_root-cases a k' p' b h' in (e ∙ sym f, e' ∙ sym f');
    linked = λ k p b j h small.
        let (e, e', same) = only_root-cases a (suc (suc k)) p b h in no_table k p b j e same small;
    rooted =
        λ k p j upper h small. if-false (k == 4 && p * 512 + j == 0) (some a) none (ground arith);
  }

  -- No page is mapped.
  pub empty-translate : (virt : ℕ) → translate m.mem root virt ≡ none
  empty-translate virt = translate-lookup m empty-IsSpace virt

-- On a well-formed allocator with a free page, the cleared page that vmm_init takes is, by its
-- pointer in the higher half, a root under which the tables are a tree of pages in use and the
-- processor's walk finds nothing for any address.
pub root-IsSpace :
    {n : ℕ} (m : Machine)
    → IsPmm m.pmm
    → HasFree (suc n) m.pmm
    → (page : ℕ) × (m' : Machine) × (pmm_allocz 1 m ≡ done page m')
      × IsSpace (only_root page) (phys_to_higher_half_data page) m'
      × ((virt : ℕ) → translate m'.mem (phys_to_higher_half_data page) virt ≡ none)
      × HasFree n m'.pmm
root-IsSpace m pages free =
    let (page, p', got, g) = HasFree-Granted m.pmm pages free in
    let (cleared, ran, clears) = pmm_allocz-clears 1 m page p' got in
    let m' : Machine = record { mem = cleared; pmm = p' } in
    let aligned : page % page_size ≡ 0 = omega (arith, g.address) in
    let low : page < 2 ^ 46 = omega (arith, g.address, g.below_top, pages.fits_int) in
    let used : is_set p'.bitmap (page / page_size) ≡ true =
      taken p' g (page / page_size) (omega (arith, g.address)) in
    let table : IsTable p' page = record { aligned = aligned; low = low; used = used } in
    let zeros : (j : ℕ) → j < 512 → word cleared (page + 8 * j) ≡ 0 =
      λ j small. word-cleared_page m.mem cleared page aligned clears j small in
    let root = phys_to_higher_half_data page in
    (
      page,
      m',
      ran,
      empty-IsSpace m' root page (Granted-IsPmm pages g) table (high-PointsTo page aligned low)
          zeros,
      empty-translate m' root page (Granted-IsPmm pages g) table (high-PointsTo page aligned low)
          zeros,
      Granted-HasFree free g,
    )
  where
    taken :
        {ptr : ℕ} (p' : Pmm) (g : Granted 1 m.pmm ptr p') (j : ℕ)
        → j ≡ g.index
        → is_set p'.bitmap j ≡ true
    taken p' g j same = ground (arith, g.marked.filled.bits j)
