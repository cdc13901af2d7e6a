-- ===== src/Mm/Phys/Init.antt =====
-- `pmm_init`: which pages are free when it returns.
use fusioncore.Base.{
  ℕ, zero, suc, ◌+◌, ◌*◌, ◌/◌, ◌%◌, ◌^◌, ◌≤◌, ◌<◌, ◌≡◌, refl, inl, inr, Bool, true, false, not,
  ◌&&◌, ◌||◌, some, List, [], ◌∷◌, arith, length, Bool-cases, ap, ◌∙◌, if◌then◌else◌, ◌==◌, get_or,
  replicate, length-replicate, get_or-replicate,
}
use fusioncore.Base.Bits.{all_below, all_below-apply}
use fusioncore.Mm.Bitmap.{Bitmap, is_set}
use fusioncore.Mm.Bitmap.Laws.{IsBitmap, bitmap_set-Updated}
use fusioncore.Mm.Memmap.{page_size, kb_to_pages, align_up, align_down, MmapEntry, is_usable}
use fusioncore.Mm.Memmap.Align.{align_down_lem, align_up_lem}
use fusioncore.Mm.Phys.{Pmm, page_top, bitmap_size, carve, free_usable, pmm_init}
use fusioncore.Mm.Phys.Pages.{is_within, Marked, pmm_free-Marked}

-- Page `j` lies in a usable entry.
unfoldable pub any_usable : List MmapEntry → ℕ → Bool
any_usable [] j = false
any_usable (e ∷ es) j =
    is_usable e && is_within (e.base / page_size) (e.length / page_size) j || any_usable es j

-- The pages of every usable entry have their bits in a map of `size` bytes.
abbrev pub AllMapped : ℕ → List MmapEntry → Type 0
AllMapped size [] = Unit {0}
AllMapped size (e ∷ es) =
    (is_usable e ≡ true
      → (e.base / page_size + e.length / page_size ≤ 8 * size)
        × (e.base / page_size + e.length / page_size ≤ 2 ^ 31))
    × AllMapped size es

-- `p'` is `p` with the pages of the usable entries freed and no others.
record Freed (size : ℕ) (es : List MmapEntry) (p p' : Pmm) : Type 0 where
  valid : IsBitmap p'.bitmap
  mapped : length p'.bitmap.map ≡ size
  same_size : p'.bitmap.size ≡ p.bitmap.size
  same_top : p'.hi_page_top ≡ p.hi_page_top
  bits : (j : ℕ) → is_set p'.bitmap j ≡ (if any_usable es j then false else is_set p.bitmap j)

module _ {size : ℕ} {e : MmapEntry} {es : List MmapEntry} {p p'' : Pmm} where
  Freed-cons :
      {p' : Pmm}
      → is_usable e ≡ true
      → Marked p (e.base / page_size) (e.length / page_size) false p'
      → Freed size es p' p''
      → Freed size (e ∷ es) p p''
  unfolding any_usable
  Freed-cons u m f = record {
    valid = f.valid;
    mapped = f.mapped;
    same_size = f.same_size ∙ m.filled.same_size;
    same_top = f.same_top ∙ m.same_top;
    bits = λ j. ground (arith, f.bits j, m.filled.bits j);
  }

  Freed-skip : is_usable e ≡ false → Freed size es p p'' → Freed size (e ∷ es) p p''
  unfolding any_usable
  Freed-skip u f = record {
    valid = f.valid;
    mapped = f.mapped;
    same_size = f.same_size;
    same_top = f.same_top;
    bits = λ j. ground (arith, f.bits j);
  }

-- The third loop returns.
free_usable-Freed :
    (size : ℕ) (es : List MmapEntry) (p : Pmm)
    → IsBitmap p.bitmap
    → length p.bitmap.map ≡ size
    → AllMapped size es
    → (p' : Pmm) × (free_usable es p ≡ some p') × Freed size es p p'
unfolding free_usable any_usable
free_usable-Freed size [] p h l mapped =
    (p, refl, record { valid = h; mapped = l; same_size = refl; same_top = refl; bits = λ j. refl })
free_usable-Freed size (e ∷ es) p h l (here, rest) = elim (Bool-cases (is_usable e)) [
  | inl u ↦
      let (p', ran, m, _) =
        pmm_free-Marked e.base (e.length / page_size) p h (omega (arith, here u)) in
      let (p'', ran', f) =
        free_usable-Freed size es p' m.filled.valid (m.filled.same_length ∙ l) rest in
      (p'', rw (u, ran) ran', Freed-cons u m f)
  | inr n ↦
      let (p'', ran', f) = free_usable-Freed size es p h l rest in (p'', rw n ran', Freed-skip n f)
]

-- A fresh map, all of whose bits are 1.
full : ℕ → Bitmap
full size = record { map = replicate size 0xff; size = size }

replicate-byte : (n j : ℕ) → get_or (replicate n 0xff) j 0 < 256
replicate-byte zero j = omega arith
replicate-byte (suc n) zero = omega arith
replicate-byte (suc n) (suc j) = replicate-byte n j

full-IsBitmap : (size : ℕ) → IsBitmap (full size)
unfolding full
full-IsBitmap size = record { bytes = replicate-byte size }

ones_row : all_below 8 (λ k. 0xff / 2 ^ k % 2 == 1) ≡ true
unfolding all_below
ones_row = refl

full-is_set : (size j : ℕ) → j < 8 * size → is_set (full size) j ≡ true
unfolding full
full-is_set size j h =
    rw (get_or-replicate {A = ℕ} size (j / 8) 0xff 0 (omega arith))
      (all_below-apply (λ k. 0xff / 2 ^ k % 2 == 1) 8 (j % 8) (omega arith) ones_row)

-- The allocator's state before the third loop.
abbrev start : ℕ → Pmm
unfolding full
start top = record {
  bitmap = full (bitmap_size top);
  hi_page_top = top;
  used_page_cnt = kb_to_pages top;
}

-- What `pmm_init` leaves behind: the count and the top, and exactly the pages of usable entries
-- free, but for page 0.
pub record Initialised (entries rest : List MmapEntry) (p : Pmm) : Type 0 where
  pub valid : IsBitmap p.bitmap
  pub mapped : length p.bitmap.map ≡ bitmap_size (page_top entries 0)
  pub top : p.hi_page_top ≡ page_top entries 0
  pub bits :
      (j : ℕ)
      → j < 8 * bitmap_size (page_top entries 0)
      → is_set p.bitmap j ≡ (j == 0 || not (any_usable rest j))

-- Where the bitmap is not empty, a usable entry has room for it and all usable pages lie in it,
-- pmm_init returns a map in which exactly page 0 and the pages outside the usable entries (as the
-- cut leaves them) are marked.
pub pmm_init-Initialised :
    (entries rest : List MmapEntry) (base : ℕ)
    → 0 < bitmap_size (page_top entries 0)
    → carve (bitmap_size (page_top entries 0)) entries ≡ some (base, rest)
    → AllMapped (bitmap_size (page_top entries 0)) rest
    → (p : Pmm) × (pmm_init entries ≡ some (p, rest)) × Initialised entries rest p
unfolding pmm_init full
pmm_init-Initialised entries rest base pos carved mapped =
    let (p, ran, f) =
      free_usable-Freed (bitmap_size (page_top entries 0)) rest (start (page_top entries 0))
        (full-IsBitmap _) (length-replicate _ _) mapped in
    let (b, set, u) =
      bitmap_set-Updated p.bitmap 0 f.valid (omega arith, omega (arith, f.mapped, pos)) in
    (
      record p { bitmap = b },
      rw (carved, ran, set) refl,
      record {
        valid = u.valid;
        mapped = u.same_length ∙ f.mapped;
        top = f.same_top;
        bits = λ j h. ground (arith, u.bits j, f.bits j, full-is_set _ j h);
      },
    )

-- `bitmap_size` as division: the pages in groups of 8, rounded up to whole pages of bitmap.
pub bitmap_size_lem :
    (top : ℕ) → top < 2 ^ 64 → bitmap_size top ≡ (top / page_size / 8 + 4095) / 4096 * 4096
bitmap_size_lem top h =
    let down : align_down top page_size ≡ top / page_size * page_size = align_down_lem top h in
    ap (λ (t : ℕ). align_up (t / page_size / 8) page_size) down
    ∙ ap (λ (t : ℕ). align_up (t / 8) page_size) pages
    ∙ align_up_lem (top / page_size / 8) (omega arith)
  where
    pages : top / page_size * page_size / page_size ≡ top / page_size
    pages = omega arith

-- The map that pmm_init makes has a bit for each page below the top, if that is below 2^64 and the
-- number of pages is a multiple of 8.
pub bitmap_size-covers :
    (top : ℕ) → top < 2 ^ 64 → top / page_size % 8 ≡ 0 → top / page_size ≤ 8 * bitmap_size top
bitmap_size-covers top h whole = omega (arith, bitmap_size_lem top h)

-- The map lacks a bit for the last pages where the number of pages is 1 to 7 more than a multiple
-- of 32768, and the top is below 2^64.
pub bitmap_size_short :
    (k r : ℕ)
    → 0 < r
    → r < 8
    → (k * 32768 + r) * page_size < 2 ^ 64
    → 8 * bitmap_size ((k * 32768 + r) * page_size) < (k * 32768 + r) * page_size / page_size
bitmap_size_short k r pos small fits =
    omega (arith, bitmap_size_lem ((k * 32768 + r) * page_size) fits)
