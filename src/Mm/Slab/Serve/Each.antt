-- ===== src/Mm/Slab/Serve/Each.antt =====
-- fckrnl/mm/slab.c: each call on a cache of one slab, against the promise.
use fusioncore.Base.{
  ℕ, suc, ◌+◌, ◌≤◌, ◌^◌, ◌<◌, ◌≡◌, ◌≢◌, refl, sym, ap, ◌∙◌, subst, ◌⊎◌, inl, inr, arith, List, [],
  ◌∷◌, length, ◌==◌, ==_ne, true, false, if-false, Bool-cases,
}
use mathlib.Core.Bool.{false≢true}
use fusioncore.Machine.{Machine, done, and_then, pure, ◌>>◌}
use fusioncore.Machine.Laws.{word, put}
use fusioncore.Mm.Phys.History.{Request, want, give, elem, remove, keep}
use fusioncore.Mm.Phys.History.Held.{elem-remove, Distinct-remove, length-remove}
use fusioncore.Mm.Slab.Cache.{slab_cache_free}
use fusioncore.Mm.Slab.Layout.{cache_slabs, slab_freelist_head}
use fusioncore.Mm.Slab.Objects.{Apart}
use fusioncore.Mm.Slab.Stock.{Room, slab_of, object_at, objects_apart}
use fusioncore.Mm.Slab.Stack.{IsObject}
use fusioncore.Mm.Slab.Stack.Pop.{
  slab_cache_alloc-pops, slab_cache_alloc-empty, popped, pop-IsStack, empty-IsStack,
}
use fusioncore.Mm.Slab.Stack.Push.{slab_cache_free-pushes, pushed, push-IsStack}
use fusioncore.Mm.Slab.Serve.{object_at-IsObject}
use fusioncore.Mm.Slab.Serve.Promise.{
  slab_serve, slab_serve_all, Shares, dealt, share, share_all, IsSlot, Serves,
}

pub elem-cases : (x y : ℕ) (xs : List ℕ) → elem y (x ∷ xs) ≡ true → (x ≡ y) ⊎ (elem y xs ≡ true)
elem-cases x y xs h = ground arith

-- What is in a list without `x` is not `x`.
fresh-elem :
    (x y : ℕ) (xs ys : List ℕ)
    → elem x xs ≡ false
    → elem y xs ≡ true
    → elem y ys ≡ false
    → elem y (x ∷ ys) ≡ false
fresh-elem x y xs ys fresh mine other =
    let ne : x ≢ y = λ same. false≢true (sym fresh ∙ ap (λ a. elem a xs) same ∙ mine) in
    ground arith

module _ (cache page size count : ℕ) (room : Room cache page size count) (roomy : 16 ≤ size)
    (small : count < 2 ^ 62) where
  slots-Apart :
      (x y : ℕ) → IsSlot page size count x → IsSlot page size count y → x ≢ y → Apart x 16 y 16
  slots-Apart x y (i, i_less, at_x) (j, j_less, at_y) ne =
      elim (objects_apart cache page size count room i j
        (λ same. ne (at_x ∙ ap (object_at page size) same ∙ sym at_y))) [
          | inl before ↦ inl (omega (arith, before, roomy))
          | inr behind ↦ inr (omega (arith, behind, roomy))
        ]

  slot-IsObject : (x : ℕ) → IsSlot page size count x → IsObject cache (slab_of page) x
  slot-IsObject x (i, less, at) =
      subst (IsObject cache (slab_of page)) (sym at)
        (object_at-IsObject cache page size count room roomy i less)

  serve-want :
      (m : Machine) (free held : List ℕ)
      → Serves cache page size count (record { free = free; held = held }) m.mem
      → (m' : Machine) × (slab_serve cache want held m ≡ done (dealt free held).held m')
        × Serves cache page size count (dealt free held) m'.mem
  unfolding slab_serve
  serve-want m [] held serves = (
    record m { mem = put (put m.mem (cache_slabs cache) (slab_of page)) (cache_slabs cache) 0 },
    ap (λ r. and_then r λ ptr. pure (keep ptr held))
        (slab_cache_alloc-empty cache (slab_of page) count 0 m serves.stack),
    record {
      stack = empty-IsStack cache (slab_of page) count m.mem serves.stack;
      free_slots = serves.free_slots;
      held_slots = serves.held_slots;
      free_once = serves.free_once;
      held_once = serves.held_once;
      disjoint = serves.disjoint;
      total = serves.total;
    },
  )
  serve-want m (x ∷ free) held serves =
      let fits : length free + 1 < 2 ^ 64 = omega (arith, serves.total) in
      let mine : elem x (x ∷ free) ≡ true = ground arith in
      let object = slot-IsObject x (serves.free_slots x mine) in
      (
        record m { mem = popped cache (slab_of page) count m.mem (word m.mem x) (length free) },
        ap (λ r. and_then r λ ptr. pure (keep ptr held))
              (slab_cache_alloc-pops cache (slab_of page) count 1 0 m x free fits serves.stack)
            ∙ ap
                (λ l. done l (record m {
                  mem = popped cache (slab_of page) count m.mem (word m.mem x) (length free);
                }))
                (if-false (x == 0) held (x ∷ held) (==_ne x 0 object.exists)),
        record {
          stack = pop-IsStack cache (slab_of page) count m.mem x free fits serves.stack;
          free_slots = λ y yes_free. serves.free_slots y (ground arith);
          held_slots = λ y yes_held. elim (elem-cases x y held yes_held) [
            | inl same ↦ subst (IsSlot page size count) same (serves.free_slots x mine)
            | inr before ↦ serves.held_slots y before
          ];
          free_once = serves.free_once.1;
          held_once = (serves.disjoint x mine, serves.held_once);
          disjoint = λ y yes_free.
              fresh-elem x y free held serves.free_once.0 yes_free
                (serves.disjoint y (ground arith));
          total = omega (arith, serves.total);
        },
      )

  serve-give :
      (m : Machine) (free held : List ℕ) (ptr : ℕ)
      → elem ptr held ≡ true
      → Serves cache page size count (record { free = free; held = held }) m.mem
      → (m' : Machine) × ((slab_cache_free 1 cache ptr 0 >> pure (remove ptr held)) m
          ≡ done (remove ptr held) m')
        × Serves cache page size count (record { free = ptr ∷ free; held = remove ptr held }) m'.mem
  serve-give m free held ptr has serves =
      let one_less = length-remove ptr held has in
      let slot = serves.held_slots ptr has in
      let object = slot-IsObject ptr slot in
      let fits : length free + 1 < 2 ^ 64 = omega (arith, serves.total) in
      let other : (y : ℕ) → elem y free ≡ true → ptr ≢ y = λ y yes_free same.
        false≢true (sym (serves.disjoint y yes_free) ∙ ap (λ a. elem a held) (sym same) ∙ has) in
      let not_free : elem ptr free ≡ false = elim (Bool-cases (elem ptr free)) [
        | inl mine ↦ absurd (other ptr mine refl)
        | inr not_mine ↦ not_mine
      ] in
      let top = word m.mem (slab_freelist_head (slab_of page)) in
      (
        record m { mem = pushed cache (slab_of page) count m.mem ptr top (suc (length free)) },
        ap (λ r. and_then r (λ _. pure (remove ptr held)))
            (slab_cache_free-pushes cache (slab_of page) count 0 0 m ptr free fits
              (omega (arith, serves.total)) object serves.stack),
        record {
          stack =
              push-IsStack cache (slab_of page) count m.mem ptr free fits object
                (λ y yes_free.
                  slots-Apart ptr y slot (serves.free_slots y yes_free) (other y yes_free))
                serves.stack;
          free_slots = λ y yes_free. elim (elem-cases ptr y free yes_free) [
            | inl same ↦ subst (IsSlot page size count) same slot
            | inr before ↦ serves.free_slots y before
          ];
          held_slots = λ y yes_held.
              serves.held_slots y (ground (arith, elem-remove ptr y held serves.held_once));
          free_once = (not_free, serves.free_once);
          held_once = Distinct-remove ptr held serves.held_once;
          disjoint = λ y yes_free. elim (elem-cases ptr y free yes_free) [
            | inl same ↦ ground (arith, elem-remove ptr y held serves.held_once)
            | inr before ↦
                ground (arith, elem-remove ptr y held serves.held_once, serves.disjoint y before)
          ];
          total = omega (arith, serves.total);
        },
      )

  slab_serve-share :
      (r : Request) (m : Machine) (s : Shares)
      → Serves cache page size count s m.mem
      → (m' : Machine) × (slab_serve cache r s.held m ≡ done (share r s).held m')
        × Serves cache page size count (share r s) m'.mem
  unfolding slab_serve
  slab_serve-share want m s serves = serve-want m s.free s.held serves
  slab_serve-share (give ptr) m s serves = elim (Bool-cases (elem ptr s.held)) [
    | inl has ↦ rw has (serve-give m s.free s.held ptr has serves)
    | inr hasnt ↦ rw hasnt (m, refl, serves)
  ]

  pub slab_serve_all-share :
      (rs : List Request) (m : Machine) (s : Shares)
      → Serves cache page size count s m.mem
      → (m' : Machine) × (slab_serve_all cache rs s.held m ≡ done (share_all rs s).held m')
        × Serves cache page size count (share_all rs s) m'.mem
  unfolding slab_serve_all
  slab_serve_all-share [] m s serves = (m, refl, serves)
  slab_serve_all-share (r ∷ rs) m s serves =
      let (m1, served, serves1) = slab_serve-share r m s serves in
      let (m2, rest, serves2) = slab_serve_all-share rs m1 (share r s) serves1 in
      (m2, ap (λ o. and_then o (slab_serve_all cache rs)) served ∙ rest, serves2)
