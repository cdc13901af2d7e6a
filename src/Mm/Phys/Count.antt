-- ===== src/Mm/Phys/Count.antt =====
-- `pmm_init`: the count of pages in use when it returns.
use mathlib.Core.Option.{some-injective, none-ne-some}
use fusioncore.Base.{
  ℕ, ◌/◌, ◌≡◌, refl, sym, ap, ◌∙◌, Bool-cases, inl, inr, Option, none, some, List, [], ◌∷◌, sub64,
  if◌then◌else◌, if-true, if-false,
}
use fusioncore.Mm.Bitmap.{bitmap_set, ◌>>=◌}
use fusioncore.Mm.Memmap.{page_size, kb_to_pages, MmapEntry, is_usable}
use fusioncore.Mm.Phys.{
  Pmm, page_top, bitmap_size, carve, clear_pages, free_usable, pmm_free, pmm_init,
}

-- What is left of a count after the pages of the usable entries are taken off.
abbrev pub counted : List MmapEntry → ℕ → ℕ
counted [] c = c
counted (e ∷ es) c = counted es (if is_usable e then sub64 c (e.length / page_size) else c)

module _ {A B : Type 0} where
  bound :
      (o : Option A) (f : A → Option B) (b : B)
      → (o >>= f) ≡ some b
      → (a : A) × (o ≡ some a) × (f a ≡ some b)
  bound none f b h = absurd (none-ne-some b h)
  bound (some a) f b h = (a, refl, h)

pmm_free-counts :
    (a n : ℕ) (p p' : Pmm) → pmm_free a n p ≡ some p' → p'.used_page_cnt ≡ sub64 p.used_page_cnt n
unfolding pmm_free
pmm_free-counts a n p p' h =
    let (b, cleared, freed) = bound (clear_pages n (a / page_size) p.bitmap) _ p' h in
    ap (λ q. q.used_page_cnt) (sym (some-injective _ p' freed))

free_usable-counts :
    (es : List MmapEntry) (p p' : Pmm)
    → free_usable es p ≡ some p'
    → p'.used_page_cnt ≡ counted es p.used_page_cnt
unfolding free_usable
free_usable-counts [] p p' h = ap (λ q. q.used_page_cnt) (sym (some-injective p p' h))
free_usable-counts (e ∷ es) p p' h =
    let (q, one, others) =
      bound (if is_usable e then pmm_free e.base (e.length / page_size) p else some p) _ p' h in
    free_usable-counts es q p' others ∙ ap (counted es) (first q one)
  where
    first :
        (q : Pmm)
        → (if is_usable e then pmm_free e.base (e.length / page_size) p else some p) ≡ some q
        → q.used_page_cnt
          ≡ (if is_usable e then sub64 p.used_page_cnt (e.length / page_size) else p.used_page_cnt)
    first q one = elim (Bool-cases (is_usable e)) [
      | inl u ↦
          pmm_free-counts e.base (e.length / page_size) p q
            (sym (if-true (is_usable e) _ _ u) ∙ one)
          ∙ sym (if-true (is_usable e) _ _ u)
      | inr u ↦
          ap (λ q. q.used_page_cnt) (some-injective q p (sym one ∙ if-false (is_usable e) _ _ u))
          ∙ sym (if-false (is_usable e) _ _ u)
    ]

-- The pages below the top as pmm_init counts them, without those of the usable entries.
pub pmm_init-counts :
    (entries rest : List MmapEntry) (p : Pmm)
    → pmm_init entries ≡ some (p, rest)
    → p.used_page_cnt ≡ counted rest (kb_to_pages (page_top entries 0))
unfolding pmm_init
pmm_init-counts entries rest p h =
    let (cut, carved, h1) =
      bound (carve (bitmap_size (page_top entries 0)) entries) _ (p, rest) h in
    let (q, freed, h2) = bound (free_usable cut.1 _) _ (p, rest) h1 in
    let (b, set, h3) = bound (bitmap_set q.bitmap 0) _ (p, rest) h2 in
    let same = some-injective _ (p, rest) h3 in
    ap (λ r. r.0.used_page_cnt) (sym same)
    ∙ free_usable-counts cut.1 _ q freed
    ∙ ap (λ r. counted r.1 (kb_to_pages (page_top entries 0))) same
