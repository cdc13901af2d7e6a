-- ===== src/Mm/Phys/History/Sound.antt =====
-- What holds of the page allocator and of the pages that are held, whatever was asked before.
use fusioncore.Base.{
  ℕ, ◌+◌, ◌*◌, ◌/◌, ◌^◌, ◌<◌, ◌≤◌, ◌≡◌, refl, inl, inr, ◌⊎◌, Bool, true, false, not, ◌||◌, Option,
  some, ◌∷◌, arith, length, ◌==◌, Bool-cases, ==_iff, ◌∙◌, sym, ap, u64, sub64,
}
use fusioncore.Mm.Bitmap.{is_set}
use fusioncore.Mm.Memmap.{page_size}
use fusioncore.Mm.Phys.{Pmm, pmm_alloc}
use fusioncore.Mm.Phys.Search.{IsPmm}
use fusioncore.Mm.Phys.Pages.{
  Marked, Allocated, refused, granted, pmm_alloc-Allocated, pmm_free-Marked, Marked-IsPmm,
}
use fusioncore.Mm.Phys.Roundtrip.{one_is_Roomy}
use fusioncore.Mm.Phys.History.{
  Request, want, give, Leases, elem, remove, leased, serve, is_free, handed, promise,
}
use fusioncore.Mm.Phys.History.Held.{
  Distinct, elem-remove, Distinct-remove, length-remove, remove-not_held, first_where-found,
  first_where-none,
}

-- Address `a` is a page below `top` that was free at the start.
pub record IsLeasable (in_use : ℕ → Bool) (top a : ℕ) : Type 0 where
  pub index : ℕ
  pub address : a ≡ index * page_size
  pub not_null : 0 < index
  pub below_top : index < top
  pub was_free : in_use index ≡ false

-- The bits of the map are the pages in use at the start and the pages that are held, and no page
-- is held twice.
pub record Sound (in_use : ℕ → Bool) (top : ℕ) (s : Leases) : Type 0 where
  pub valid : IsPmm s.pmm
  pub same_top : s.pmm.hi_page_top / page_size ≡ top
  pub bits : (j : ℕ) → is_set s.pmm.bitmap j ≡ in_use j || elem (j * page_size) s.held
  pub distinct : Distinct s.held
  pub pages : (a : ℕ) → elem a s.held ≡ true → IsLeasable in_use top a

-- One request is served: the state is sound again, the pages held are those that the promise
-- says if the count is not 0, and the count goes with the number of pages held.
pub record Served (in_use : ℕ → Bool) (top : ℕ) (r : Request) (s s' : Leases) : Type 0 where
  pub sound : Sound in_use top s'
  pub kept_promise : 0 < s.pmm.used_page_cnt → s'.held ≡ promise in_use top r s.held
  pub grows : length s'.held ≤ length s.held + 1
  pub counted :
      (base : ℕ)
      → s.pmm.used_page_cnt ≡ base + length s.held
      → base + length s.held + 1 < 2 ^ 64
      → s'.pmm.used_page_cnt ≡ base + length s'.held

module _ {in_use : ℕ → Bool} {top : ℕ} (s : Leases) (h : Sound in_use top s) where
  -- A page is free by the map exactly where the promise has it free.
  is_free-is_set : (j : ℕ) → is_free in_use top s.held j ≡ not (is_set s.pmm.bitmap j)
  is_free-is_set j = ground (arith, h.bits j)

  Served-refused :
      (s.pmm.used_page_cnt ≡ 0)
        ⊎ ((j : ℕ) → j < s.pmm.hi_page_top / page_size → is_set s.pmm.bitmap j ≡ true)
      → Served in_use top want s s
  unfolding promise
  Served-refused why = record {
    sound = h;
    kept_promise = λ pos. elim why [
      | inl z ↦ absurd (omega (arith, z, pos))
      | inr all ↦ ap (handed in_use top s.held) (
          sym (
            first_where-none _ top 0
              (λ k _ lt. is_free-is_set k ∙ ap not (all k (omega (arith, lt, h.same_top))))))
    ];
    grows = omega arith;
    counted = λ base e fits. e;
  }

  module _ (i : ℕ) (p' : Pmm) (pos : 0 < i) (below_top : i < s.pmm.hi_page_top / page_size)
      (free : is_set s.pmm.bitmap i ≡ false) where
    fresh : in_use i || elem (i * page_size) s.held ≡ false
    fresh = sym (h.bits i) ∙ free

    abbrev with_page : Leases
    with_page = record { pmm = p'; held = i * page_size ∷ s.held }

    with_page-Sound : Marked s.pmm i 1 true p' → Sound in_use top with_page
    with_page-Sound m = record {
      valid = Marked-IsPmm h.valid pos m;
      same_top = ap (λ (t : ℕ). t / page_size) m.same_top ∙ h.same_top;
      bits = λ j. ground (arith, m.filled.bits j, h.bits j);
      distinct = (ground (arith, fresh), h.distinct);
      pages = λ a e. elim (Bool-cases (i * page_size == a)) [
        | inl new ↦ record {
          index = i;
          address = sym ((==_iff _ _).0 new);
          not_null = pos;
          below_top = omega (arith, below_top, h.same_top);
          was_free = ground (arith, fresh);
        }
        | inr old ↦ h.pages a (rw old at e)
      ];
    }

    Served-granted :
        Marked s.pmm i 1 true p'
        → ((j : ℕ) → j < i → is_set s.pmm.bitmap j ≡ true)
        → p'.used_page_cnt ≡ u64 (s.pmm.used_page_cnt + 1)
        → Served in_use top want s with_page
    unfolding promise
    Served-granted m below c = record {
      sound = with_page-Sound m;
      kept_promise = λ _. ap (handed in_use top s.held) (
          sym (
            first_where-found _ top 0 i (omega arith) (omega (arith, h.same_top))
              (is_free-is_set i ∙ ap not free) (λ k _ lt. is_free-is_set k ∙ ap not (below k lt))));
      grows = omega arith;
      counted = λ base e fits. omega (arith, c, e, fits);
    }

  Served-want :
      (r : Option (ℕ × Pmm))
      → Allocated 1 s.pmm r
      → (s' : Leases) × (leased s.held r ≡ some s') × Served in_use top want s s'
  Served-want r (refused e why) = (s, rw e refl, Served-refused why)
  Served-want r (granted i p' e _ pos below_top free below m c) =
      let nonnull : (i * page_size == 0) ≡ false = ground arith in
      (
        with_page i p' pos below_top free,
        rw (e, nonnull) refl,
        Served-granted i p' pos below_top free m below c,
      )

  module _ (ptr : ℕ) (mine : elem ptr s.held ≡ true) (p' : Pmm)
      (m : Marked s.pmm (ptr / page_size) 1 false p')
      (c : p'.used_page_cnt ≡ sub64 s.pmm.used_page_cnt 1) where
    abbrev without_page : Leases
    without_page = record { pmm = p'; held = remove ptr s.held }

    freed_bits :
        (i : ℕ)
        → ptr ≡ i * page_size
        → in_use i ≡ false
        → (j : ℕ) → is_set p'.bitmap j ≡ in_use j || elem (j * page_size) (remove ptr s.held)
    freed_bits i address was_free j =
        let here : i ≡ j → in_use j ≡ false = λ same. rw (← same) was_free in
        ground (
          arith,
          m.filled.bits j,
          h.bits j,
          elem-remove ptr (j * page_size) s.held h.distinct,
          address,
          here,
        )

    without_page-Sound : Sound in_use top without_page
    without_page-Sound =
        let page = h.pages ptr mine in
        let index : ptr / page_size ≡ page.index = omega (arith, page.address) in
        record {
          valid = Marked-IsPmm h.valid (omega (arith, index, page.not_null)) m;
          same_top = ap (λ (t : ℕ). t / page_size) m.same_top ∙ h.same_top;
          bits = λ j. freed_bits page.index page.address page.was_free j;
          distinct = Distinct-remove ptr s.held h.distinct;
          pages = λ a e. h.pages a (ground (arith, elem-remove ptr a s.held h.distinct));
        }

    Served-returned : Served in_use top (give ptr) s without_page
    unfolding promise
    Served-returned = record {
      sound = without_page-Sound;
      kept_promise = λ _. refl;
      grows = omega (arith, length-remove ptr s.held mine);
      counted = λ base e fits. omega (arith, c, e, fits, length-remove ptr s.held mine);
    }

  Served-give :
      (ptr : ℕ) → (s' : Leases) × (serve (give ptr) s ≡ some s') × Served in_use top (give ptr) s s'
  unfolding serve promise
  Served-give ptr = elim (Bool-cases (elem ptr s.held)) [
    | inl mine ↦
        let page = h.pages ptr mine in
        let (p', e, m, c) = pmm_free-Marked ptr 1 s.pmm h.valid.valid (
          omega (arith, page.address, page.below_top, h.same_top, h.valid.covers),
          omega (arith, page.address, page.below_top, h.same_top, h.valid.fits_int),
        ) in
        (without_page ptr mine p' m c, rw (mine, e) refl, Served-returned ptr mine p' m c)
    | inr other ↦ (
      s,
      rw other refl,
      record {
        sound = h;
        kept_promise = λ _. sym (remove-not_held ptr s.held other);
        grows = omega arith;
        counted = λ base e fits. e;
      },
    )
  ]

  -- Every request is served.
  pub serve-Served :
      (r : Request) → (s' : Leases) × (serve r s ≡ some s') × Served in_use top r s s'
  unfolding serve
  serve-Served want =
      let (room, fits) = one_is_Roomy h.valid in
      Served-want (pmm_alloc 1 s.pmm)
        (pmm_alloc-Allocated 1 s.pmm h.valid room fits (omega arith) (omega arith))
  serve-Served (give ptr) = Served-give ptr
