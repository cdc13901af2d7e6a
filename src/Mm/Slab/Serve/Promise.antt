-- ===== src/Mm/Slab/Serve/Promise.antt =====
-- fckrnl/mm/slab.c: calls on a cache in any order, and what they promise: a stack of free objects.
use fusioncore.Base.{ℕ, ◌+◌, ◌<◌, ◌≡◌, List, [], ◌∷◌, length, true, false, if◌then◌else◌}
use fusioncore.Machine.{Cmd, pure, ◌>>=◌, ◌>>◌}
use fusioncore.Machine.Bytes.{Memory}
use fusioncore.Mm.Phys.History.{Request, want, give, elem, remove, keep}
use fusioncore.Mm.Phys.History.Held.{Distinct}
use fusioncore.Mm.Slab.Cache.{slab_cache_alloc, slab_cache_free}
use fusioncore.Mm.Slab.Stock.{slab_of, object_at}
use fusioncore.Mm.Slab.Stack.{IsStack}

-- A client's calls: it keeps the addresses that it has, and gives back only those.
unfoldable pub slab_serve : ℕ → Request → List ℕ → Cmd (List ℕ)
slab_serve cache want held = do ptr ← slab_cache_alloc 2 cache 0; pure (keep ptr held)
slab_serve cache (give ptr) held =
    if elem ptr held then (do slab_cache_free 1 cache ptr 0; pure (remove ptr held)) else pure held

unfoldable pub slab_serve_all : ℕ → List Request → List ℕ → Cmd (List ℕ)
unfolding slab_serve
slab_serve_all cache [] held = pure held
slab_serve_all cache (r ∷ rs) held = do
  held' ← slab_serve cache r held
  slab_serve_all cache rs held'

-- The promise: a stack of free objects, and the objects that the client has.
pub record Shares : Type 0 where
  pub free : List ℕ
  pub held : List ℕ

-- The top object, if there is one, goes to the client.
abbrev pub dealt : List ℕ → List ℕ → Shares
dealt [] held = record { free = []; held = held }
dealt (x ∷ free) held = record { free = free; held = x ∷ held }

abbrev pub share : Request → Shares → Shares
share want s = dealt s.free s.held
share (give ptr) s =
    if elem ptr s.held then record { free = ptr ∷ s.free; held = remove ptr s.held } else s

abbrev pub share_all : List Request → Shares → Shares
share_all [] s = s
share_all (r ∷ rs) s = share_all rs (share r s)

-- One of the page's objects.
abbrev pub IsSlot : ℕ → ℕ → ℕ → ℕ → Type 0
IsSlot page size count x = (i : ℕ) × (i < count) × (x ≡ object_at page size i)

-- Memory serves the shares: its free list is the stack, and each object of the page is free or held
-- once.
pub record Serves (cache page size count : ℕ) (s : Shares) (mem : Memory) : Type 0 where
  pub stack : IsStack cache (slab_of page) count s.free mem
  pub free_slots : (x : ℕ) → elem x s.free ≡ true → IsSlot page size count x
  pub held_slots : (x : ℕ) → elem x s.held ≡ true → IsSlot page size count x
  pub free_once : Distinct s.free
  pub held_once : Distinct s.held
  pub disjoint : (x : ℕ) → elem x s.free ≡ true → elem x s.held ≡ false
  pub total : length s.free + length s.held ≡ count
