-- ===== src/Libk/Malloc/Heap.antt =====
-- fckrnl/libk/malloc.c: the heap that `malloc_heap_init` leaves, and its first blocks.
use mathlib.Core.Option.{some-injective, none-ne-some}
use fusioncore.Base.{
  ℕ, zero, suc, ◌≤◌, ◌≡◌, refl, subst, some, true, List, [], ◌∷◌, arith, get_elem?,
}
use fusioncore.Machine.{Machine, done}
use fusioncore.Mm.Phys.Search.{IsPmm}
use fusioncore.Mm.Phys.Free.{HasFree}
use fusioncore.Mm.Kept.{Keeps, Keeps-refl, Keeps-trans}
use fusioncore.Mm.Slab.{is_power_of_two}
use fusioncore.Mm.Slab.Cache.{slab_cache_create}
use fusioncore.Mm.Slab.Stock.Home.{Home, Home-Keeps, slab_cache_create-Made}
use fusioncore.Libk.Malloc.{malloc_heap_init}

-- A cache at home for each of the sizes.
abbrev Homes : List ℕ → List ℕ → Machine → Type 0
Homes [] [] m = Unit {0}
Homes [] (c ∷ cs) m = ⊥
Homes (s ∷ ss) [] m = ⊥
Homes (s ∷ ss) (c ∷ cs) m = Home s c m × Homes ss cs m

all_kept : (ss cs : List ℕ) {m m' : Machine} → Keeps m m' → Homes ss cs m → Homes ss cs m'
all_kept [] [] k h = tt
all_kept [] (c ∷ cs) k h = absurd h
all_kept (s ∷ ss) [] k h = absurd h
all_kept (s ∷ ss) (c ∷ cs) k (home, rest) = (Home-Keeps k home, all_kept ss cs k rest)

abbrev onto : List ℕ → List ℕ → List ℕ
onto [] ys = ys
onto (x ∷ xs) ys = onto xs (x ∷ ys)

Homes-onto :
    (ss cs ss' cs' : List ℕ) (m : Machine)
    → Homes ss cs m
    → Homes ss' cs' m
    → Homes (onto ss ss') (onto cs cs') m
Homes-onto [] [] ss' cs' m h h' = h'
Homes-onto [] (c ∷ cs) ss' cs' m h h' = absurd h
Homes-onto (s ∷ ss) [] ss' cs' m h h' = absurd h
Homes-onto (s ∷ ss) (c ∷ cs) ss' cs' m (home, rest) h' =
    Homes-onto ss cs (s ∷ ss') (c ∷ cs') m rest (home, h')

-- The caches that are made so far, the last one first, and what `m0` had in use.
record Stage (ss cs : List ℕ) (n : ℕ) (m0 m : Machine) : Type 0 where
  homes : Homes ss cs m
  keeps : Keeps m0 m
  free : HasFree n m.pmm

-- One more cache.
stocked :
    (name size : ℕ) (ss cs : List ℕ) (n : ℕ) (m0 m : Machine)
    → 4 ≤ size
    → size ≤ 512
    → is_power_of_two size ≡ true
    → Stage ss cs (suc (suc n)) m0 m
    → (cache : ℕ) × (m' : Machine) × (slab_cache_create name size 3 m ≡ done cache m')
      × Stage (size ∷ ss) (cache ∷ cs) n m0 m'
stocked name size ss cs n m0 m low high power s =
    let (cache, m', ran, made) =
      slab_cache_create-Made n name size 3 m s.keeps.valid s.free low high power in
    (
      cache,
      m',
      ran,
      record {
        homes = (made.home, all_kept ss cs made.keeps s.homes);
        keeps = Keeps-trans s.keeps made.keeps;
        free = made.free;
      },
    )

-- The pages of the heap's caches, with `n` more.
abbrev pub heap_pages : ℕ → ℕ
heap_pages n =
    suc (suc (suc (suc (suc (suc (suc (suc (suc (suc (suc (suc (suc (suc (suc (suc n)))))))))))))))

-- The sizes of the objects of the eight caches.
abbrev pub heap_sizes : List ℕ
heap_sizes = 4 ∷ 8 ∷ 16 ∷ 32 ∷ 64 ∷ 128 ∷ 256 ∷ 512 ∷ []

-- Each of the eight caches is at home.
pub record IsHeap (caches : List ℕ) (m : Machine) : Type 0 where
  pub homes :
      (i size : ℕ)
      → get_elem? heap_sizes i ≡ some size
      → (c : ℕ) × (get_elem? caches i ≡ some c) × Home size c m

found_at :
    (ss cs : List ℕ) (m : Machine)
    → Homes ss cs m
    → (i size : ℕ) → get_elem? ss i ≡ some size
    → (c : ℕ) × (get_elem? cs i ≡ some c) × Home size c m
found_at [] cs m hs i size at = absurd (none-ne-some size at)
found_at (s ∷ ss) [] m hs i size at = absurd hs
found_at (s ∷ ss) (c ∷ cs) m (home, rest) zero size at =
    (c, refl, subst (λ n. Home n c m) (some-injective s size at) home)
found_at (s ∷ ss) (c ∷ cs) m (home, rest) (suc i) size at = found_at ss cs m rest i size at

-- What malloc_heap_init comes to.
pub record MakesHeap (n : ℕ) (m : Machine) (caches : List ℕ) (m' : Machine) : Type 0 where
  pub heap : IsHeap caches m'
  pub keeps : Keeps m m'
  pub free : HasFree n m'.pmm

-- On a well-formed allocator with 16 free pages and n more, malloc_heap_init returns eight caches,
-- of objects of 4, 8 and so on to 512 bytes; each still has at the end its page and its slab's,
-- both in use, and its counts, with all objects of the slab free and, from 16 bytes on, linked in
-- the order of their addresses; the allocator is well formed, what was in use before is in use and
-- its words keep, and n free pages are left.
pub malloc_heap_init-MakesHeap :
    (names : ℕ → ℕ) (n : ℕ) (m : Machine)
    → IsPmm m.pmm
    → HasFree (heap_pages n) m.pmm
    → (caches : List ℕ) × (m' : Machine) × (malloc_heap_init names m ≡ done caches m')
      × MakesHeap n m caches m'
unfolding malloc_heap_init is_power_of_two
malloc_heap_init-MakesHeap names n m valid free =
    let s : Stage [] [] (heap_pages n) m m = record {
      homes = tt;
      keeps = Keeps-refl valid;
      free = free;
    } in
    let (c0, m0, ran0, s0) = stocked (names 0) 4 _ _ _ m m (omega arith) (omega arith) refl s in
    let (c1, m1, ran1, s1) = stocked (names 1) 8 _ _ _ m m0 (omega arith) (omega arith) refl s0 in
    let (c2, m2, ran2, s2) = stocked (names 2) 16 _ _ _ m m1 (omega arith) (omega arith) refl s1 in
    let (c3, m3, ran3, s3) = stocked (names 3) 32 _ _ _ m m2 (omega arith) (omega arith) refl s2 in
    let (c4, m4, ran4, s4) = stocked (names 4) 64 _ _ _ m m3 (omega arith) (omega arith) refl s3 in
    let (c5, m5, ran5, s5) = stocked (names 5) 128 _ _ _ m m4 (omega arith) (omega arith) refl s4 in
    let (c6, m6, ran6, s6) = stocked (names 6) 256 _ _ _ m m5 (omega arith) (omega arith) refl s5 in
    let (c7, m7, ran7, s7) = stocked (names 7) 512 _ _ _ m m6 (omega arith) (omega arith) refl s6 in
    let caches = c0 ∷ c1 ∷ c2 ∷ c3 ∷ c4 ∷ c5 ∷ c6 ∷ c7 ∷ [] in
    (
      caches,
      m7,
      rw (ran0, ran1, ran2, ran3, ran4, ran5, ran6, ran7) refl,
      record {
        heap = record {
          homes = found_at heap_sizes caches m7 (
              Homes-onto (512 ∷ 256 ∷ 128 ∷ 64 ∷ 32 ∷ 16 ∷ 8 ∷ 4 ∷ [])
                (c7 ∷ c6 ∷ c5 ∷ c4 ∷ c3 ∷ c2 ∷ c1 ∷ c0 ∷ []) [] [] m7 s7.homes tt);
        };
        keeps = s7.keeps;
        free = s7.free;
      },
    )
