-- ===== src/Mm/Virt/Space/Kept.antt =====
-- The address space, when the rest of the kernel only takes pages that are not in use.
use fusioncore.Base.{
  ℕ, suc, ◌+◌, ◌*◌, ◌/◌, ◌%◌, ◌<◌, ◌≡◌, refl, sym, ap, ◌∙◌, subst, Option, none, some, arith,
}
use fusioncore.Machine.{Machine}
use fusioncore.Machine.Laws.{word}
use fusioncore.Mm.Bitmap.{is_set}
use fusioncore.Mm.Memmap.{page_size}
use fusioncore.Mm.Kept.{Keeps}
use fusioncore.Mm.Virt.Walk.{translate}
use fusioncore.Mm.Virt.Space.{Tables, IsSpace, Leads, leaf_of, present_word}
use fusioncore.Mm.Virt.Space.Leaf.{page_number}
use fusioncore.Mm.Virt.Space.Translate.{translate-lookup}

module _ (tbl : Tables) (root : ℕ) (m m' : Machine) (s : IsSpace tbl root m) (k : Keeps m m') where
  entry-kept :
      (l p a i : ℕ) → tbl l p ≡ some a → i < 512 → word m'.mem (a + 8 * i) ≡ word m.mem (a + 8 * i)
  entry-kept l p a i there less =
      let t = s.tables l p a there in
      let aligned = t.aligned in
      let index : (a + 8 * i) / page_size ≡ a / page_size = omega arith in
      k.words (a + 8 * i) (omega arith) (ap (is_set m.pmm.bitmap) index ∙ t.used)

  pub IsSpace-kept : IsSpace tbl root m'
  IsSpace-kept = record {
    pages = k.valid;
    top = s.top;
    is_root = s.is_root;
    points = s.points;
    tables = λ l p a there.
        let t = s.tables l p a there in
        record { aligned = t.aligned; low = t.low; used = k.used _ t.used };
    unshared = s.unshared;
    linked = λ l p a i there less.
        subst (Leads (tbl (suc l) (p * 512 + i))) (sym (entry-kept (suc (suc l)) p a i there less))
          (s.linked l p a i there less);
    rooted = s.rooted;
  }

  leaf-kept : (v : ℕ) (o : Option ℕ) → tbl 1 (v / 512) ≡ o → leaf_of m'.mem o v ≡ leaf_of m.mem o v
  leaf-kept v none there = refl
  leaf-kept v (some a) there =
      ap present_word (entry-kept 1 (v / 512) a (v % 512) there (omega arith))

  pub translate-kept : (other : ℕ) → translate m'.mem root other ≡ translate m.mem root other
  translate-kept other =
      translate-lookup m' IsSpace-kept other
      ∙ leaf-kept (page_number other) (tbl 1 (page_number other / 512)) refl
      ∙ sym (translate-lookup m s other)
