-- ===== src/Mm/Phys/History.antt =====
-- `pmm_alloc` and `pmm_free` under any sequence of requests for single pages, and what the
-- sequence promises: a set of pages from which the lowest free one is taken.
pub mod Held
pub mod Sound
pub mod Abstract
pub mod Boot
use fusioncore.Base.{
  ℕ, zero, suc, ◌+◌, ◌*◌, ◌/◌, Bool, false, not, ◌||◌, Option, none, some, List, [], ◌∷◌, ◌==◌,
  if◌then◌else◌,
}
use fusioncore.Mm.Bitmap.{◌>>=◌}
use fusioncore.Mm.Memmap.{page_size}
use fusioncore.Mm.Phys.{Pmm, pmm_alloc, pmm_free}

-- A request for a page, or the return of the page at an address.
pub data Request : Type 0 where
  want : Request
  give : ℕ → Request

-- The allocator, and the pages that its clients have, by their addresses.
pub record Leases : Type 0 where
  pub pmm : Pmm
  pub held : List ℕ

abbrev pub elem : ℕ → List ℕ → Bool
elem a [] = false
elem a (x ∷ xs) = x == a || elem a xs

abbrev pub remove : ℕ → List ℕ → List ℕ
remove a [] = []
remove a (x ∷ xs) = if x == a then xs else x ∷ remove a xs

-- What a client makes of the answer: NULL is no page.
abbrev pub keep : ℕ → List ℕ → List ℕ
keep ptr held = if ptr == 0 then held else ptr ∷ held

abbrev pub leased : List ℕ → Option (ℕ × Pmm) → Option Leases
leased held none = none
leased held (some (ptr, p)) = some (record { pmm = p; held = keep ptr held })

abbrev pub returned : List ℕ → Option Pmm → Option Leases
returned held none = none
returned held (some p) = some (record { pmm = p; held = held })

-- Clients give back only what they have.
unfoldable pub serve : Request → Leases → Option Leases
serve want s = leased s.held (pmm_alloc 1 s.pmm)
serve (give ptr) s =
    if elem ptr s.held then returned (remove ptr s.held) (pmm_free ptr 1 s.pmm) else some s

unfoldable pub serve_all : List Request → Leases → Option Leases
unfolding serve
serve_all [] s = some s
serve_all (r ∷ rs) s = do s' ← serve r s; serve_all rs s'

-- The first of the `n` numbers from `i` on for which a test holds.
abbrev pub first_where : (ℕ → Bool) → ℕ → ℕ → Option ℕ
first_where f zero i = none
first_where f (suc n) i = if f i then some i else first_where f n (i + 1)

-- The promise: of the pages below `top` that were not in use at the start and that nobody holds,
-- the lowest is handed out; a page that is given back is free again.
module _ (in_use : ℕ → Bool) (top : ℕ) where
  abbrev pub is_free : List ℕ → ℕ → Bool
  is_free held j = not (in_use j || elem (j * page_size) held)

  abbrev pub handed : List ℕ → Option ℕ → List ℕ
  handed held none = held
  handed held (some i) = i * page_size ∷ held

  unfoldable pub promise : Request → List ℕ → List ℕ
  promise want held = handed held (first_where (is_free held) top 0)
  promise (give ptr) held = remove ptr held

  unfoldable pub promise_all : List Request → List ℕ → List ℕ
  unfolding promise
  promise_all [] held = held
  promise_all (r ∷ rs) held = promise_all rs (promise r held)
