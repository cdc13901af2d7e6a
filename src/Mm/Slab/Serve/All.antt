-- ===== src/Mm/Slab/Serve/All.antt =====
-- fckrnl/mm/slab.c: a new cache, and any sequence of calls on it.
use fusioncore.Base.{
  ℕ, zero, suc, ◌+◌, ◌≤◌, ◌<◌, ◌≡◌, refl, sym, ap, ◌∙◌, inl, inr, arith, List, [], true, Bool-cases,
}
use mathlib.Core.Bool.{false≢true}
use fusioncore.Machine.{Machine, done, and_then, ◌>>=◌}
use fusioncore.Machine.Bytes.{Memory}
use fusioncore.Mm.Phys.History.{Request, elem}
use fusioncore.Mm.Phys.History.Held.{Distinct}
use fusioncore.Mm.Slab.Stock.{Room, slab_of, object_at, objects_apart}
use fusioncore.Mm.Slab.Stock.Described.{count_max, count_max-small}
use fusioncore.Mm.Slab.Stack.{IsStack}
use fusioncore.Mm.Slab.Serve.{objects_from, length-objects_from, all-IsStack}
use fusioncore.Mm.Slab.Serve.Promise.{slab_serve_all, Shares, share_all, Serves}
use fusioncore.Mm.Slab.Serve.Each.{elem-cases, slab_serve_all-share}
use fusioncore.Mm.Phys.Search.{IsPmm}
use fusioncore.Mm.Phys.Free.{HasFree}
use fusioncore.Mm.Slab.{is_power_of_two}
use fusioncore.Mm.Slab.Cache.{slab_cache_create}
use fusioncore.Mm.Slab.Stock.Create.{slab_cache_create-Chain}

module _ (cache page size count : ℕ) (room : Room cache page size count) where
  objects_from-slot :
      (i n x : ℕ)
      → i + n ≡ count
      → elem x (objects_from page size i n) ≡ true
      → (j : ℕ) × (i ≤ j) × (j < count) × (x ≡ object_at page size j)
  objects_from-slot i zero x all h = absurd (false≢true h)
  objects_from-slot i (suc n) x all h =
      elim (elem-cases (object_at page size i) x (objects_from page size (suc i) n) h) [
        | inl same ↦ (i, omega arith, omega arith, sym same)
        | inr behind ↦
            let (j, low, less, at) = objects_from-slot (suc i) n x (omega arith) behind in
            (j, omega arith, less, at)
      ]

  objects_from-Distinct : (i n : ℕ) → i + n ≡ count → Distinct (objects_from page size i n)
  objects_from-Distinct i zero all = tt
  objects_from-Distinct i (suc n) all = (
    elim (Bool-cases (elem (object_at page size i) (objects_from page size (suc i) n))) [
      | inl again ↦
          let (j, low, less, at) =
            objects_from-slot (suc i) n (object_at page size i) (omega arith) again in
          absurd (elim (objects_apart cache page size count room i j (λ same. omega arith)) [
            | inl before ↦ omega (arith, before, room.wide)
            | inr after ↦ omega (arith, after, room.wide)
          ])
      | inr once ↦ once
    ],
    objects_from-Distinct (suc i) n (omega arith),
  )

  all-Serves :
      (mem : Memory)
      → IsStack cache (slab_of page) count (objects_from page size 0 count) mem
      → Serves cache page size count
          (record { free = objects_from page size 0 count; held = [] })
          mem
  all-Serves mem stack = record {
    stack = stack;
    free_slots = λ x mine.
        let (j, low, less, at) = objects_from-slot 0 count x (omega arith) mine in (j, less, at);
    held_slots = λ x mine. absurd (false≢true mine);
    free_once = objects_from-Distinct 0 count (omega arith);
    held_once = tt;
    disjoint = λ x mine. refl;
    total = omega (arith, length-objects_from page size 0 count);
  }

-- What the calls on a new cache come to: the client has what the promise says, and memory serves
-- the objects that are left.
pub record Served (name size flags : ℕ) (rs : List Request) (m : Machine) : Type 0 where
  pub cache : ℕ
  pub page : ℕ
  pub after : Machine
  pub room : Room cache page size (count_max size)
  pub ran :
      (slab_cache_create name size flags >>= λ c. slab_serve_all c rs []) m
      ≡ done
          (share_all rs
            (record { free = objects_from page size 0 (count_max size); held = [] })).held
          after
  pub serves :
      Serves cache page size
        (count_max size)
        (share_all rs (record { free = objects_from page size 0 (count_max size); held = [] }))
        after.mem

-- On a well-formed allocator with two free pages, for objects of 16 to 512 bytes, a power of two,
-- making a cache returns, and every sequence of calls of slab_cache_alloc, without flags, and of
-- slab_cache_free of objects that are held is served after it as by a stack that starts with all
-- objects of one page in the order of their addresses: the client holds at the end what the stack
-- has given it, memory links the objects that are left in the stack's order, and each object of the
-- page is free or held once, with no overlap of an object, the cache and the slab's head.
pub slab_cache_create-Served :
    (name size flags : ℕ) (rs : List Request) (m : Machine)
    → IsPmm m.pmm
    → HasFree 2 m.pmm
    → 16 ≤ size
    → size ≤ 512
    → is_power_of_two size ≡ true
    → Served name size flags rs m
slab_cache_create-Served name size flags rs m valid free low high power =
    let (cache, made, created, stocked) =
      slab_cache_create-Chain name size flags m valid free low high power in
    let start : Shares = record {
      free = objects_from stocked.page size 0 (count_max size);
      held = [];
    } in
    let stack =
      all-IsStack cache stocked.page size (count_max size) stocked.room low made.mem stocked.filling
        stocked.holds stocked.exists stocked.head in
    let (after, served, serves) =
      slab_serve_all-share cache stocked.page size (count_max size) stocked.room low
        (omega (arith, count_max-small size (omega arith))) rs made start
        (all-Serves cache stocked.page size (count_max size) stocked.room made.mem stack) in
    record {
      cache = cache;
      page = stocked.page;
      after = after;
      room = stocked.room;
      ran = ap (λ o. and_then o (λ c. slab_serve_all c rs [])) created ∙ served;
      serves = serves;
    }
