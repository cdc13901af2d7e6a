-- ===== src/Mm/Slab/Stock.antt =====
-- The free list that the making of a slab leaves: its objects in order, each linked to the next.
pub mod Extended
pub mod Linked
pub mod Grown
pub mod Supply
pub mod Described
pub mod Create
pub mod Tight
pub mod Home
use fusioncore.Base.{
  ℕ, zero, suc, ◌+◌, ◌-◌, ◌*◌, ◌^◌, ◌≤◌, ◌<◌, ◌≡◌, ◌≢◌, refl, sym, ap, ◌∙◌, subst, ◌⊎◌, inl, inr,
  arith, u64, ltb, ◌==◌, if◌then◌else◌, if-true, if-false, eq_or_lt, eq_or_lt_or_gt, ==_ne, lt→ltb,
  ltb-false,
}
use fusioncore.Machine.{Machine, Run, done, ◌>>=◌, ◌>>◌, and_then, read64, write64, pure}
use fusioncore.Machine.Bytes.{Memory}
use fusioncore.Machine.Laws.{word, put, word-put_self, word-put_apart, words}
use fusioncore.Mm.Memmap.{page_size}
use fusioncore.Mm.Slab.{slab_init_bufctls, init_bufctls}
use fusioncore.Mm.Slab.Layout.{
  bufctl_ptr, slab_freelist, slab_freelist_head, cache_slab_size, cache_bufctl_count_max,
  cache_slabs, sizeof_cache, sizeof_slab, slab_bufctl_count, slab_next,
}
use fusioncore.Mm.Slab.Objects.{Apart}
use native.Mathlib.Nat.{mod-eq_of_lt, mul-le-mul_left}

-- The head of the slab at the end of a page, and the page's objects.
abbrev pub slab_of : ℕ → ℕ
slab_of page = page + (page_size - sizeof_slab)

abbrev pub object_at : ℕ → ℕ → ℕ → ℕ
object_at page size i = page + size * i

-- A page with room for `count` objects of `size` bytes, as many as a cache counts, apart from the
-- cache. The two fields of a free object take 16 bytes, more than the smallest objects have.
pub record Room (cache page size count : ℕ) : Type 0 where
  pub wide : 4 ≤ size
  pub fits : size * count ≤ page_size - sizeof_cache
  pub page_exists : 0 < page
  pub page_small : page + page_size ≤ 2 ^ 64
  pub cache_apart : Apart cache sizeof_cache page page_size

-- The first and the last of the `k` objects that are linked so far.
abbrev pub first_of : ℕ → ℕ → ℕ
first_of page zero = 0
first_of page (suc k) = page

abbrev pub last_of : ℕ → ℕ → ℕ → ℕ
last_of page size zero = 0
last_of page size (suc k) = object_at page size k

-- Memory in which the first `k` objects are put in: the words of the cache and of the slab's head.
pub record Filling (cache page size count k : ℕ) (mem : Memory) : Type 0 where
  pub size_word : word mem (cache_slab_size cache) ≡ size
  pub count_word : word mem (cache_bufctl_count_max cache) ≡ count
  pub free_word : word mem (slab_bufctl_count (slab_of page)) ≡ count
  pub cursor_word : word mem (cache_slabs cache) ≡ slab_of page
  pub head_word : word mem (slab_freelist_head (slab_of page)) ≡ first_of page k
  pub tail_word : word mem (slab_freelist (slab_of page)) ≡ last_of page size k

-- The first `k` objects are linked in order and the others have no link yet.
pub record Chain (page size count k : ℕ) (mem : Memory) : Type 0 where
  pub next_word : word mem (slab_next (slab_of page)) ≡ 0
  pub links : (i : ℕ) → suc i < k → word mem (object_at page size i) ≡ object_at page size (suc i)
  pub ends : (i : ℕ) → i < count → k ≤ suc i → word mem (object_at page size i) ≡ 0

-- Where the link to object `k` is written, and memory after that object is put in.
abbrev pub link_at : ℕ → ℕ → ℕ → ℕ
link_at page size zero = slab_freelist_head (slab_of page)
link_at page size (suc k) = object_at page size k

abbrev pub extended : ℕ → ℕ → Memory → ℕ → Memory
extended page size mem k =
    let new = object_at page size k in
    put (put (put mem (bufctl_ptr new) new) (link_at page size k) new)
      (slab_freelist (slab_of page)) new

module _ (cache page size count : ℕ) (room : Room cache page size count) where
  pub spread : (i j : ℕ) → i < j → size * i + size ≤ size * j
  spread i j less = omega (arith, mul-le-mul_left size less)

  pub inside : (i : ℕ) → i < count → size * i + size ≤ page_size - sizeof_cache
  inside i less = omega (arith, spread i count less, room.fits)

  -- The words outside the page keep, and so do the cache's.
  pub off_page :
      (mem : Memory) (a v c : ℕ)
      → page ≤ a
      → a + 8 ≤ page + page_size
      → Apart c 8 page page_size
      → word (put mem a v) c ≡ word mem c
  off_page mem a v c low high apart = word-put_apart mem a v c (ground arith)

  pub of_cache : (c : ℕ) → cache ≤ c → c + 8 ≤ cache + sizeof_cache → Apart c 8 page page_size
  of_cache c low high = let apart = room.cache_apart in ground arith

  pub objects_apart :
      (i j : ℕ) → i ≢ j → (size * i + size ≤ size * j) ⊎ (size * j + size ≤ size * i)
  objects_apart i j ne = elim (eq_or_lt_or_gt i j) [
    | inl same ↦ absurd (ne same)
    | inr (inl less) ↦ inl (spread i j less)
    | inr (inr more) ↦ inr (spread j i more)
  ]
