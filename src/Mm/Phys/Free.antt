-- ===== src/Mm/Phys/Free.antt =====
-- A number of free pages, and what `pmm_alloc` leaves of them.
use fusioncore.Base.{
  ℕ, zero, suc, ◌≤◌, ap, ◌+◌, ◌*◌, ◌/◌, ◌^◌, ◌<◌, ◌≡◌, refl, sym, ◌∙◌, inl, inr, ◌⊎◌, true, false,
  Option, some, List, [], ◌∷◌, arith, length, Bool-cases, ◌==◌,
}
use mathlib.Core.Bool.{false≢true}
use fusioncore.Mm.Bitmap.{is_set}
use fusioncore.Mm.Memmap.{page_size}
use fusioncore.Mm.Phys.{Pmm, pmm_alloc}
use fusioncore.Mm.Phys.Search.{IsPmm}
use fusioncore.Mm.Phys.Pages.{Allocated, refused, granted, pmm_alloc-Allocated}
use fusioncore.Mm.Phys.Roundtrip.{Granted, one_is_Roomy}
use fusioncore.Mm.Phys.History.{elem, remove}
use fusioncore.Mm.Phys.History.Held.{Distinct, elem-remove, Distinct-remove, length-remove}

-- At least `n` pages below the top are free, and the count is neither 0 nor about to wrap.
pub record HasFree (n : ℕ) (p : Pmm) : Type 0 where
  pub pages : List ℕ
  pub distinct : Distinct pages
  pub enough : length pages ≡ n
  pub free : (j : ℕ) → elem j pages ≡ true → is_set p.bitmap j ≡ false
  pub below_top : (j : ℕ) → elem j pages ≡ true → j < p.hi_page_top / page_size
  pub counted : 0 < p.used_page_cnt
  pub fits : p.used_page_cnt + n < 2 ^ 64

-- One page fewer.
fewer :
    (n : ℕ) (xs : List ℕ)
    → Distinct xs
    → length xs ≡ suc n
    → (i : ℕ)
    → (ys : List ℕ) × Distinct ys
      × (length ys ≡ n)
      × ((j : ℕ) → elem j ys ≡ true → (elem j xs ≡ true) × ((j == i) ≡ false))
fewer n xs d e i = elim (Bool-cases (elem i xs)) [
  | inl mine ↦ (
    remove i xs,
    Distinct-remove i xs d,
    omega (arith, length-remove i xs mine),
    λ j h. (ground (arith, elem-remove i j xs d), ground (arith, elem-remove i j xs d)),
  )
  | inr other ↦ tail xs d e other
]
  where
    tail :
        (xs : List ℕ)
        → Distinct xs
        → length xs ≡ suc n
        → elem i xs ≡ false
        → (ys : List ℕ) × Distinct ys
          × (length ys ≡ n)
          × ((j : ℕ) → elem j ys ≡ true → (elem j xs ≡ true) × ((j == i) ≡ false))
    tail [] d e other = absurd (omega arith)
    tail (x ∷ xs) (fresh, d) e other = (
      xs,
      d,
      omega arith,
      λ j h.
          let here : j ≡ i → elem i xs ≡ true = λ same. rw (← same) h in
          (ground arith, ground (arith, here)),
    )

pub HasFree-fewer : {n : ℕ} {p : Pmm} → HasFree (suc n) p → HasFree n p
HasFree-fewer {n} h =
    let (ys, d, e, sub) = fewer n h.pages h.distinct h.enough 0 in
    record {
      pages = ys;
      distinct = d;
      enough = e;
      free = λ j mine. h.free j (sub j mine).0;
      below_top = λ j mine. h.below_top j (sub j mine).0;
      counted = h.counted;
      fits = omega (arith, h.fits);
    }

pub Granted-HasFree :
    {n : ℕ} {p p' : Pmm} {ptr : ℕ} → HasFree (suc n) p → Granted 1 p ptr p' → HasFree n p'
Granted-HasFree {n} {p} {p'} h g =
    let (ys, d, e, sub) = fewer n h.pages h.distinct h.enough g.index in
    record {
      pages = ys;
      distinct = d;
      enough = e;
      free =
          λ j mine. ground (arith, g.marked.filled.bits j, h.free j (sub j mine).0, (sub j mine).1);
      below_top = λ j mine. rw g.marked.same_top (h.below_top j (sub j mine).0);
      counted = omega (arith, g.counted, h.counted, h.fits);
      fits = omega (arith, g.counted, h.fits);
    }

-- With a free page, `pmm_alloc` does not refuse.
not_refused :
    {n : ℕ} (p : Pmm) (xs : List ℕ)
    → length xs ≡ suc n
    → ((j : ℕ) → elem j xs ≡ true → is_set p.bitmap j ≡ false)
    → ((j : ℕ) → elem j xs ≡ true → j < p.hi_page_top / page_size)
    → 0 < p.used_page_cnt
    → (p.used_page_cnt ≡ 0) ⊎ ((j : ℕ) → j < p.hi_page_top / page_size → is_set p.bitmap j ≡ true)
    → ⊥
not_refused p [] l free below_top pos why = absurd (omega arith)
not_refused p (x ∷ xs) l free below_top pos (inl z) = omega arith
not_refused p (x ∷ xs) l free below_top pos (inr all) =
    let first : elem x (x ∷ xs) ≡ true = ground arith in
    false≢true (sym (free x first) ∙ all x (below_top x first))

by_outcome :
    {n : ℕ} {p : Pmm} {r : Option (ℕ × Pmm)}
    → HasFree (suc n) p
    → Allocated 1 p r
    → (ptr : ℕ) × (p' : Pmm) × (r ≡ some (ptr, p')) × Granted 1 p ptr p'
by_outcome h (granted i p' e some_used pos below_top is_free below marked counted) = (
  i * page_size,
  p',
  e,
  record {
    index = i;
    address = refl;
    not_null = pos;
    below_top = below_top;
    was_free = is_free;
    marked = marked;
    counted = counted;
  },
)
by_outcome {n} {p} h (refused e why) =
    absurd (not_refused p h.pages h.enough h.free h.below_top h.counted why)

pub HasFree-Granted :
    {n : ℕ} (p : Pmm)
    → IsPmm p
    → HasFree (suc n) p
    → (ptr : ℕ) × (p' : Pmm) × (pmm_alloc 1 p ≡ some (ptr, p')) × Granted 1 p ptr p'
HasFree-Granted p h free =
    let (room, fits) = one_is_Roomy h in
    by_outcome free (pmm_alloc-Allocated 1 p h room fits (omega arith) (omega arith))

-- The numbers of `n` pages from `i` on.
abbrev pub pages_from : ℕ → ℕ → List ℕ
pages_from i zero = []
pages_from i (suc n) = i ∷ pages_from (suc i) n

pages_from-bounds : (i n j : ℕ) → elem j (pages_from i n) ≡ true → (i ≤ j) × (j < i + n)
pages_from-bounds i zero j h = absurd (false≢true h)
pages_from-bounds i (suc n) j h = elim (Bool-cases (i == j)) [
  | inl here ↦ (ground arith, ground arith)
  | inr behind ↦
      let (low, high) = pages_from-bounds (suc i) n j (ground arith) in (omega arith, omega arith)
]

pages_from-Distinct : (i n : ℕ) → Distinct (pages_from i n)
pages_from-Distinct i zero = tt
pages_from-Distinct i (suc n) = (
  elim (Bool-cases (elem i (pages_from (suc i) n))) [
    | inl again ↦ absurd (let (low, high) = pages_from-bounds (suc i) n i again in omega arith)
    | inr once ↦ once
  ],
  pages_from-Distinct (suc i) n,
)

length-pages_from : (i n : ℕ) → length (pages_from i n) ≡ n
length-pages_from i zero = refl
length-pages_from i (suc n) = ap suc (length-pages_from (suc i) n)

-- A stretch of free pages.
pub stretch-HasFree :
    (p : Pmm) (i n : ℕ)
    → ((j : ℕ) → i ≤ j → j < i + n → is_set p.bitmap j ≡ false)
    → i + n ≤ p.hi_page_top / page_size
    → 0 < p.used_page_cnt
    → p.used_page_cnt + n < 2 ^ 64
    → HasFree n p
stretch-HasFree p i n clear below counted fits = record {
  pages = pages_from i n;
  distinct = pages_from-Distinct i n;
  enough = length-pages_from i n;
  free = λ j mine. let (low, high) = pages_from-bounds i n j mine in clear j low high;
  below_top = λ j mine. let (low, high) = pages_from-bounds i n j mine in omega arith;
  counted = counted;
  fits = fits;
}
