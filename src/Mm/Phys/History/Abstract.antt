-- ===== src/Mm/Phys/History/Abstract.antt =====
-- Sequences of requests, from any well-formed allocator and from the one that `pmm_init` makes.
use fusioncore.Base.{
  ℕ, ◌+◌, ◌/◌, ◌^◌, ◌<◌, ◌≡◌, refl, Bool, some, List, [], ◌∷◌, arith, length, ◌∙◌, ap,
}
use fusioncore.Mm.Bitmap.{is_set, ◌>>=◌}
use fusioncore.Mm.Memmap.{page_size}
use fusioncore.Mm.Phys.{Pmm}
use fusioncore.Mm.Phys.Search.{IsPmm}
use fusioncore.Mm.Phys.History.{Request, Leases, serve_all, promise_all}
use fusioncore.Mm.Phys.History.Sound.{Sound, serve-Served}

module _ {in_use : ℕ → Bool} {top : ℕ} where
  requests-Sound :
      (rs : List Request) (s : Leases)
      → Sound in_use top s
      → (s' : Leases) × (serve_all rs s ≡ some s') × Sound in_use top s'
  unfolding serve_all
  requests-Sound [] s h = (s, refl, h)
  requests-Sound (r ∷ rs) s h =
      let (s', e, served) = serve-Served s h r in
      let (s'', e', h') = requests-Sound rs s' served.sound in
      (s'', ap (λ o. o >>= serve_all rs) e ∙ e', h')

  -- With a count that is right and does not wrap, each answer is the promised one.
  requests-promise :
      (base : ℕ) (rs : List Request) (s : Leases)
      → Sound in_use top s
      → 0 < base
      → s.pmm.used_page_cnt ≡ base + length s.held
      → base + length s.held + length rs < 2 ^ 64
      → (s' : Leases) × (serve_all rs s ≡ some s')
        × Sound in_use top s'
        × (s'.held ≡ promise_all in_use top rs s.held)
        × (s'.pmm.used_page_cnt ≡ base + length s'.held)
  unfolding serve_all promise_all
  requests-promise base [] s h pos c fits = (s, refl, h, refl, c)
  requests-promise base (r ∷ rs) s h pos c fits =
      let (s', e, served) = serve-Served s h r in
      let (s'', e', h', kept, c') =
        requests-promise base rs s' served.sound pos (served.counted base c (omega arith))
          (omega (arith, served.grows)) in
      (
        s'',
        ap (λ o. o >>= serve_all rs) e ∙ e',
        h',
        kept ∙ ap (promise_all in_use top rs) (served.kept_promise (omega (arith, c, pos))),
        c',
      )

-- Nobody holds a page.
abbrev pub unleased : Pmm → Leases
unleased p = record { pmm = p; held = [] }

unleased-Sound :
    (p : Pmm) → IsPmm p → Sound (is_set p.bitmap) (p.hi_page_top / page_size) (unleased p)
unleased-Sound p h = record {
  valid = h;
  same_top = refl;
  bits = λ j. ground arith;
  distinct = tt;
  pages = λ a e. cc e;
}

-- From a well-formed allocator, after every sequence of requests for single pages and returns of
-- pages that are held, the allocator is well formed, the bits of its map are those of the start and
-- of the pages that are held, and these are all different, none is NULL, and they were free at the
-- start and lie below the top.
pub serve_all-Sound :
    (p : Pmm) (rs : List Request)
    → IsPmm p
    → (s' : Leases) × (serve_all rs (unleased p) ≡ some s')
      × Sound (is_set p.bitmap) (p.hi_page_top / page_size) s'
serve_all-Sound p rs h = requests-Sound rs (unleased p) (unleased-Sound p h)

-- From a well-formed allocator whose count is not 0 and fits 64 bits with one more for each
-- request, every sequence of requests for single pages and returns of pages that are held is
-- served, and the pages held at its end are exactly those of the abstract set of pages, from which
-- the lowest free page is taken; the count has grown by their number.
pub serve_all-promise :
    (p : Pmm) (rs : List Request)
    → IsPmm p
    → 0 < p.used_page_cnt
    → p.used_page_cnt + length rs < 2 ^ 64
    → (s' : Leases) × (serve_all rs (unleased p) ≡ some s')
      × Sound (is_set p.bitmap) (p.hi_page_top / page_size) s'
      × (s'.held ≡ promise_all (is_set p.bitmap) (p.hi_page_top / page_size) rs [])
      × (s'.pmm.used_page_cnt ≡ p.used_page_cnt + length s'.held)
serve_all-promise p rs h pos fits =
    requests-promise p.used_page_cnt rs (unleased p) (unleased-Sound p h) pos (omega arith)
      (omega arith)
