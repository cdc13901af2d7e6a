-- ===== src/Mm/Phys/Roundtrip.antt =====
-- `pmm_alloc` and `pmm_free` in sequence.
use fusioncore.Base.{
  ℕ, ◌+◌, ◌*◌, ◌/◌, ◌^◌, ◌≤◌, ◌<◌, ◌≡◌, ◌≢◌, true, false, Option, some, arith, length, sym, ◌∙◌,
  u64, if◌then◌else◌,
}
use fusioncore.Mm.Bitmap.{is_set}
use fusioncore.Mm.Memmap.{page_size}
use fusioncore.Mm.Phys.{Pmm, pmm_alloc, pmm_free}
use fusioncore.Mm.Phys.Search.{IsPmm}
use fusioncore.Mm.Phys.Pages.{
  is_within, RangeIn, Marked, pmm_free-Marked, Allocated, refused, granted, pmm_alloc-Allocated,
  Marked-IsPmm, SamePages, unmark,
}

-- There is room in the map, and in an `int`, for a range of `n` pages that starts below the top.
abbrev pub Roomy : ℕ → Pmm → Type 0
Roomy n p =
    (p.hi_page_top / page_size + n ≤ 8 * length p.bitmap.map + 1)
    × (p.hi_page_top / page_size + n ≤ 2 ^ 31 + 1)

-- What a call of `pmm_alloc n` that did not return NULL has done.
pub record Granted (n : ℕ) (p : Pmm) (ptr : ℕ) (p' : Pmm) : Type 0 where
  pub index : ℕ
  pub address : ptr ≡ index * page_size
  pub not_null : 0 < index
  pub below_top : index < p.hi_page_top / page_size
  pub was_free : is_set p.bitmap index ≡ false
  pub marked : Marked p index n true p'
  pub counted : p'.used_page_cnt ≡ u64 (p.used_page_cnt + n)

some_pair :
    {A B : Type 0} {a c : A} {b d : B}
    → ◌≡◌ {A = Option (A × B)} (some (a, b)) (some (c, d))
    → (a ≡ c) × (b ≡ d)
some_pair h = (cc, cc)

Granted-of_Allocated :
    {n : ℕ} {p : Pmm} {r : Option (ℕ × Pmm)} {ptr : ℕ} {p' : Pmm}
    → Allocated n p r
    → r ≡ some (ptr, p')
    → ptr ≢ 0
    → Granted n p ptr p'
Granted-of_Allocated (refused e why) h ne = absurd (ne (sym (some_pair (sym e ∙ h)).0))
Granted-of_Allocated {n} {p} (granted i q e some_used pos below_top free below marked counted) h
      ne =
    let (where_to, same) = some_pair (sym e ∙ h) in
    record {
      index = i;
      address = sym where_to;
      not_null = pos;
      below_top = below_top;
      was_free = free;
      marked = rw (← same) marked;
      counted = rw (← same) counted;
    }

pub pmm_alloc-Granted :
    (n : ℕ) {p : Pmm} {ptr : ℕ} {p' : Pmm}
    → IsPmm p
    → Roomy n p
    → 0 < n
    → n ≤ 4096
    → pmm_alloc n p ≡ some (ptr, p')
    → ptr ≢ 0
    → Granted n p ptr p'
pmm_alloc-Granted n {p} h (room, fits) pos small e ne =
    Granted-of_Allocated (pmm_alloc-Allocated n p h room fits pos small) e ne

-- A grant keeps the allocator's state well formed.
pub Granted-IsPmm : {n : ℕ} {p : Pmm} {ptr : ℕ} {p' : Pmm} → IsPmm p → Granted n p ptr p' → IsPmm p'
Granted-IsPmm h g = Marked-IsPmm h g.not_null g.marked

module _ (n : ℕ) (p : Pmm) (ptr : ℕ) (p' : Pmm) (h : IsPmm p) (room : Roomy n p) (pos : 0 < n)
    (small : n ≤ 4096) (got : pmm_alloc n p ≡ some (ptr, p')) (ne : ptr ≢ 0) where
  -- On a well-formed allocator with room for n pages behind the top, freeing what pmm_alloc of 1 to
  -- 4096 pages gave, if not NULL, gives back the pages in use and the count of before, if the n
  -- pages were all free and the count fits 64 bits.
  pub pmm_free-pmm_alloc :
      p.used_page_cnt < 2 ^ 64
      → ((j : ℕ) → is_within (ptr / page_size) n j ≡ true → is_set p.bitmap j ≡ false)
      → (p'' : Pmm) × (pmm_free ptr n p' ≡ some p'')
        × SamePages p.bitmap p''.bitmap
        × (p''.used_page_cnt ≡ p.used_page_cnt)
  pmm_free-pmm_alloc wide free =
      let g = pmm_alloc-Granted n h room pos small got ne in
      let same : ptr / page_size ≡ g.index = omega (arith, g.address) in
      let range : RangeIn p'.bitmap (ptr / page_size) n =
        omega (arith, g.marked.filled.same_length, g.below_top, room.0, room.1, same) in
      let (p'', e, m, c) = pmm_free-Marked ptr n p' (Granted-IsPmm h g).valid range in
      (
        p'',
        e,
        unmark (λ j w. free j (rw same w)) g.marked.filled (rw same at m.filled),
        omega (arith, c, g.counted),
      )

-- There is always room for one page.
pub one_is_Roomy : {p : Pmm} → IsPmm p → Roomy 1 p
one_is_Roomy h = (omega (arith, h.covers), omega (arith, h.fits_int))

-- On a well-formed allocator, two single pages that are handed out one after the other, neither
-- of them NULL, are different.
pub pmm_alloc-distinct :
    (p p' p'' : Pmm) (a b : ℕ)
    → IsPmm p
    → pmm_alloc 1 p ≡ some (a, p')
    → a ≢ 0
    → pmm_alloc 1 p' ≡ some (b, p'')
    → b ≢ 0
    → a ≢ b
pmm_alloc-distinct p p' p'' a b h e ne e' ne' eq =
    let g = pmm_alloc-Granted 1 h (one_is_Roomy h) (omega arith) (omega arith) e ne in
    let h' = Granted-IsPmm h g in
    let g' = pmm_alloc-Granted 1 h' (one_is_Roomy h') (omega arith) (omega arith) e' ne' in
    let same : g'.index ≡ g.index = omega (arith, g.address, g'.address) in
    absurd (taken_twice g.index (rw same at g'.was_free) (g.marked.filled.bits g.index))
  where
    taken_twice :
        (i : ℕ)
        → is_set p'.bitmap i ≡ false
        → is_set p'.bitmap i ≡ (if is_within i 1 i then true else is_set p.bitmap i)
        → ⊥
    taken_twice i u v = ground (arith, u, v)
