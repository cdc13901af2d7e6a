-- ===== src/Mm/Phys/Pages.antt =====
-- `pmm_alloc` and `pmm_free`: what they return and which pages they mark.
use fusioncore.Base.{
  ℕ, zero, suc, ◌+◌, ◌*◌, ◌/◌, ◌^◌, ◌≤◌, ◌<◌, ◌≡◌, refl, ◌⊎◌, inl, inr, Bool, true, false, Option,
  some, arith, length, Bool-cases, ap, sym, ◌∙◌, u64, sub64, ltb, leb, if◌then◌else◌, ◌==◌, ==_iff,
  ◌&&◌,
}
use fusioncore.Mm.Bitmap.{Bitmap, is_set}
use fusioncore.Mm.Bitmap.Laws.{IsBitmap, Updated, bitmap_set-Updated, bitmap_clear-Updated}
use fusioncore.Mm.Memmap.{page_size}
use fusioncore.Mm.Phys.{Pmm, set_pages, clear_pages, get_ffp_range, pmm_alloc, pmm_free}
use fusioncore.Mm.Phys.Search.{IsPmm, FirstFree, found, exhausted, get_ffp_range-FirstFree}

-- `j` is one of the `n` pages from `index` on.
abbrev pub is_within : ℕ → ℕ → ℕ → Bool
is_within index n j = leb index j && ltb j (index + n)

-- `b'` is `b` with the `n` bits from `index` on all set to `v`.
pub record Filled (b : Bitmap) (index n : ℕ) (v : Bool) (b' : Bitmap) : Type 0 where
  pub valid : IsBitmap b'
  pub same_length : length b'.map ≡ length b.map
  pub same_size : b'.size ≡ b.size
  pub bits : (j : ℕ) → is_set b' j ≡ (if is_within index n j then v else is_set b j)

Filled-zero : (b : Bitmap) (index : ℕ) (v : Bool) → IsBitmap b → Filled b index 0 v b
Filled-zero b index v h = record {
  valid = h;
  same_length = refl;
  same_size = refl;
  bits = λ j. ground arith;
}

Filled-suc :
    {b b' b'' : Bitmap} {index n : ℕ} {v : Bool}
    → Updated b index v b'
    → Filled b' (index + 1) n v b''
    → Filled b index (suc n) v b''
Filled-suc u f = record {
  valid = f.valid;
  same_length = f.same_length ∙ u.same_length;
  same_size = f.same_size ∙ u.same_size;
  bits = λ j. ground (arith, f.bits j, u.bits j);
}

-- The range of bits lies in the map, and its indices fit an `int`.
abbrev pub RangeIn : Bitmap → ℕ → ℕ → Type 0
RangeIn b index n = (index + n ≤ 8 * length b.map) × (index + n ≤ 2 ^ 31)

-- Setting a range of pages in the map returns, and marks those pages and no others.
pub set_pages-Filled :
    (n index : ℕ) (b : Bitmap)
    → IsBitmap b
    → RangeIn b index n
    → (b' : Bitmap) × (set_pages n index b ≡ some b') × Filled b index n true b'
unfolding set_pages
set_pages-Filled zero index b h r = (b, refl, Filled-zero b index true h)
set_pages-Filled (suc n) index b h r =
    let (b', e, u) = bitmap_set-Updated b index h (omega arith, omega arith) in
    let (b'', e', f) =
      set_pages-Filled n (index + 1) b' u.valid (omega (arith, u.same_length), omega arith) in
    let same : u64 index ≡ index = omega arith in (b'', rw (same, e) e', Filled-suc u f)

-- Clearing a range of pages in the map returns, and frees those pages and no others.
pub clear_pages-Filled :
    (n index : ℕ) (b : Bitmap)
    → IsBitmap b
    → RangeIn b index n
    → (b' : Bitmap) × (clear_pages n index b ≡ some b') × Filled b index n false b'
unfolding clear_pages
clear_pages-Filled zero index b h r = (b, refl, Filled-zero b index false h)
clear_pages-Filled (suc n) index b h r =
    let (b', e, u) = bitmap_clear-Updated b index h (omega arith, omega arith) in
    let (b'', e', f) =
      clear_pages-Filled n (index + 1) b' u.valid (omega (arith, u.same_length), omega arith) in
    let same : u64 index ≡ index = omega arith in (b'', rw (same, e) e', Filled-suc u f)

-- The state behind an operation that set the `n` pages from `index` on to `v`.
pub record Marked (p : Pmm) (index n : ℕ) (v : Bool) (p' : Pmm) : Type 0 where
  pub filled : Filled p.bitmap index n v p'.bitmap
  pub same_top : p'.hi_page_top ≡ p.hi_page_top

-- pmm_free of pages that lie in a map of bytes returns, clears their bits and no others, and takes
-- their number off the count.
pub pmm_free-Marked :
    (ptr n : ℕ) (p : Pmm)
    → IsBitmap p.bitmap
    → RangeIn p.bitmap (ptr / page_size) n
    → (p' : Pmm) × (pmm_free ptr n p ≡ some p')
      × Marked p (ptr / page_size) n false p'
      × (p'.used_page_cnt ≡ sub64 p.used_page_cnt n)
unfolding pmm_free
pmm_free-Marked ptr n p h r =
    let (b, e, f) = clear_pages-Filled n (ptr / page_size) p.bitmap h r in
    (
      record p { bitmap = b; used_page_cnt = sub64 p.used_page_cnt n },
      rw e refl,
      record { filled = f; same_top = refl },
      refl,
    )

-- The outcomes of `pmm_alloc n`: NULL with nothing changed, or the first free page, with the
-- `n` pages from there on marked and counted.
pub data Allocated (n : ℕ) (p : Pmm) : Option (ℕ × Pmm) → Type 0 where
  refused :
      {r : Option (ℕ × Pmm)}
      → r ≡ some (0, p)
      → (p.used_page_cnt ≡ 0) ⊎ ((j : ℕ) → j < p.hi_page_top / page_size → is_set p.bitmap j ≡ true)
      → Allocated n p r
  granted :
      (i : ℕ) (p' : Pmm) {r : Option (ℕ × Pmm)}
      → r ≡ some (i * page_size, p')
      → 0 < p.used_page_cnt
      → 0 < i
      → i < p.hi_page_top / page_size
      → is_set p.bitmap i ≡ false
      → ((j : ℕ) → j < i → is_set p.bitmap j ≡ true)
      → Marked p i n true p'
      → p'.used_page_cnt ≡ u64 (p.used_page_cnt + n)
      → Allocated n p r

module _ (n : ℕ) (p : Pmm) (h : IsPmm p)
    (room : p.hi_page_top / page_size + n ≤ 8 * length p.bitmap.map + 1)
    (fits : p.hi_page_top / page_size + n ≤ 2 ^ 31 + 1) where
  -- Page 0 is marked, so the search never answers with it.
  free-ne-zero : (i : ℕ) → is_set p.bitmap i ≡ false → 0 < i
  free-ne-zero zero free = cc (h.null_used)
  free-ne-zero (suc i) free = omega arith

  abbrev taken : Bitmap → Pmm
  taken b = record p { bitmap = b; used_page_cnt = u64 (p.used_page_cnt + n) }

  alloc_runs :
      (i : ℕ) (b : Bitmap)
      → (p.used_page_cnt == 0) ≡ false
      → get_ffp_range n p ≡ some (i * page_size)
      → 0 < i
      → i < 2 ^ 31
      → set_pages n i p.bitmap ≡ some b
      → pmm_alloc n p ≡ some (i * page_size, taken b)
  unfolding pmm_alloc
  alloc_runs i b counted at pos small e =
      let nonnull : (i * page_size == 0) ≡ false = ground arith in
      let index : i * page_size / page_size ≡ i = omega arith in
      let address : u64 (i * page_size) ≡ i * page_size = omega arith in
      rw (counted, at, nonnull, index, e, address) refl

  alloc_null :
      (p.used_page_cnt == 0) ≡ false → get_ffp_range n p ≡ some 0 → pmm_alloc n p ≡ some (0, p)
  unfolding pmm_alloc
  alloc_null counted none_free = rw (counted, none_free) refl

  alloc_found :
      (counted : (p.used_page_cnt == 0) ≡ false) (r : Option ℕ)
      → get_ffp_range n p ≡ r
      → FirstFree p.bitmap 0 (p.hi_page_top / page_size) r
      → Allocated n p (pmm_alloc n p)
  alloc_found counted r e (exhausted all e') =
      refused (alloc_null counted (e ∙ e')) (inr λ j. all j (omega arith))
  alloc_found counted r e (found i _ below_top free below e') =
      let pos : 0 < i = free-ne-zero i free in
      let (b, e'', f) =
        set_pages-Filled n i p.bitmap h.valid (omega (arith, room), omega (arith, fits)) in
      granted i (taken b) (alloc_runs i b counted (e ∙ e') pos (omega (arith, h.fits_int)) e'')
        (ground arith) pos below_top free (λ j q. below j (omega arith) q)
        (record { filled = f; same_top = refl }) refl

  -- `pmm_alloc` with a count of 0 in use refuses, whether pages are free or not.
  pub pmm_alloc-uncounted : p.used_page_cnt ≡ 0 → pmm_alloc n p ≡ some (0, p)
  unfolding pmm_alloc
  pmm_alloc-uncounted z = rw z refl

  -- On a well-formed allocator with room for n pages behind the top, pmm_alloc of 1 to 4096 pages
  -- returns NULL and changes nothing exactly where the count is 0 or no page is free; otherwise it
  -- returns the first free page below the top and marks that page and the n - 1 behind it, and adds
  -- n to the count.
  pub pmm_alloc-Allocated : 0 < n → n ≤ 4096 → Allocated n p (pmm_alloc n p)
  pmm_alloc-Allocated pos small = elim (Bool-cases (p.used_page_cnt == 0)) [
    | inl z ↦
        let empty : p.used_page_cnt ≡ 0 = (==_iff _ _).0 z in
        refused (pmm_alloc-uncounted empty) (inl empty)
    | inr nz ↦ alloc_found nz _ refl (get_ffp_range-FirstFree n p h pos small)
  ]

-- The state stays well formed when pages other than page 0 are marked or freed.
pub Marked-IsPmm :
    {p p' : Pmm} {index n : ℕ} {v : Bool} → IsPmm p → 0 < index → Marked p index n v p' → IsPmm p'
Marked-IsPmm h pos m = record {
  valid = m.filled.valid;
  covers = rw (m.same_top, m.filled.same_length) h.covers;
  fits_int = rw m.same_top h.fits_int;
  null_used = ground (arith, m.filled.bits 0, h.null_used);
}

-- The same pages are in use.
abbrev pub SamePages : Bitmap → Bitmap → Type 0
SamePages b b' = (j : ℕ) → is_set b' j ≡ is_set b j

-- Freeing the pages that were just marked undoes the marking, if they were free before.
pub unmark :
    {b b' b'' : Bitmap} {i n : ℕ}
    → ((j : ℕ) → is_within i n j ≡ true → is_set b j ≡ false)
    → Filled b i n true b'
    → Filled b' i n false b''
    → SamePages b b''
unmark {b} {b'} {i} {n} free up down j = elim (Bool-cases (is_within i n j)) [
  | inl w ↦ down.bits j ∙ ap (λ (t : Bool). if t then false else is_set b' j) w ∙ sym (free j w)
  | inr w ↦
      down.bits j
      ∙ ap (λ (t : Bool). if t then false else is_set b' j) w
      ∙ up.bits j
      ∙ ap (λ (t : Bool). if t then true else is_set b j) w
]
