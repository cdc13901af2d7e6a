-- ===== src/Kernel/Reached.antt =====
-- fckrnl/kernel.c: under the tables that `vmm_init` loads, the pages below 4 GiB are where they were.
use fusioncore.Base.{
  ℕ, ◌+◌, ◌*◌, ◌/◌, ◌^◌, ◌≤◌, ◌<◌, ◌≡◌, refl, ap, ◌∙◌, true, some, List, [], ◌∷◌, arith, bit_or,
  if-true, if-false, ltb-false, lt→ltb, ==_refl, Bool-cases, inl, inr,
}
use fusioncore.Base.Bits.{all_below, all_below-all}
use fusioncore.Machine.{Machine}
use fusioncore.Mm.Bitmap.{is_set}
use fusioncore.Mm.Memmap.{
  MmapEntry, page_size, gib, higher_half_data, higher_half_code, heap_start_addr, heap_max_size,
}
use fusioncore.Mm.Memmap.Align.{align_down_lem, align_up_lem}
use fusioncore.Mm.Virt.{rounds, kernel_read, kernel_read_write}
use fusioncore.Mm.Virt.Walk.{translate}
use fusioncore.Mm.Virt.Space.Ranged.{distance}
use fusioncore.Mm.Virt.Space.Boot.{Window, Fitting, entry_windows, fixed_windows, seen}
use fusioncore.Kernel.{reached_page}

rounds_lem : (end : ℕ) → end ≤ 2 ^ 48 → rounds 0 end ≡ (end + 4095) / page_size
rounds_lem end low = omega (arith, align_down_lem 0 (omega arith), align_up_lem end (omega arith))

-- A window that does not reach a page shows what was seen before.
seen-behind :
    (w : Window) (ws : List Window) (other : ℕ)
    → rounds 0 w.end ≤ distance w.virt other
    → seen (w ∷ ws) other ≡ seen ws other
seen-behind w ws other far = if-false _ _ _ (ltb-false (distance w.virt other) (rounds 0 w.end) far)

module _ (j : ℕ) (low : j < 2 ^ 20) where
  seen-entries :
      (es : List MmapEntry) (ws : List Window)
      → Fitting es
      → seen (entry_windows es ws) (j * page_size) ≡ seen ws (j * page_size)
  seen-entries [] ws fit = refl
  seen-entries (e ∷ es) ws ((pos, short), fit) =
      let w : Window = record {
        virt = higher_half_data;
        end = e.length;
        flags = kernel_read_write;
      } in
      seen-entries es (w ∷ ws) fit
      ∙ seen-behind w ws (j * page_size) (omega (arith, rounds_lem e.length (omega arith)))

  seen-fixed : seen fixed_windows (j * page_size) ≡ some (bit_or (j * page_size) kernel_read_write)
  seen-fixed =
      seen-behind (record { virt = higher_half_code; end = 2 * gib; flags = kernel_read })
        (heap ∷ data_half ∷ itself ∷ []) (j * page_size)
        (omega (arith, rounds_lem (2 * gib) (omega arith)))
      ∙ seen-behind heap (data_half ∷ itself ∷ []) (j * page_size)
          (omega (arith, rounds_lem heap_max_size (omega arith)))
      ∙ seen-behind data_half (itself ∷ []) (j * page_size)
          (omega (arith, rounds_lem (4 * gib) (omega arith)))
      ∙ if-true _ _ _ (lt→ltb (distance 0 (j * page_size)) (rounds 0 (4 * gib)) near)
      ∙ ap (λ (a : ℕ). some (bit_or a kernel_read_write)) at_itself
    where
      heap : Window
      heap = record { virt = heap_start_addr; end = heap_max_size; flags = kernel_read_write }

      data_half : Window
      data_half = record { virt = higher_half_data; end = 4 * gib; flags = kernel_read_write }

      itself : Window
      itself = record { virt = 0; end = 4 * gib; flags = kernel_read_write }

      near : distance 0 (j * page_size) < rounds 0 (4 * gib)
      near = omega (arith, rounds_lem (4 * gib) (omega arith))

      at_itself : 0 + distance 0 (j * page_size) * page_size ≡ j * page_size
      at_itself = omega arith

module _ (rest : List MmapEntry) (fit : Fitting rest) (root : ℕ) (before m : Machine)
    (walk : (other : ℕ)
      → translate m.mem root other ≡ seen (entry_windows rest fixed_windows) other) where
  reached_page-true : (j : ℕ) → j < 2 ^ 20 → reached_page root before m j ≡ true
  reached_page-true j low =
      let here =
        walk (j * page_size) ∙ seen-entries j low rest fixed_windows fit ∙ seen-fixed j low in
      elim (Bool-cases (is_set m.pmm.bitmap j)) [
        | inl used ↦ elim (Bool-cases (is_set before.pmm.bitmap j)) [
          | inl old ↦ rw (used, old) refl
          | inr new ↦ rw (used, new, here) (==_refl (bit_or (j * page_size) kernel_read_write))
        ]
        | inr unused ↦ rw unused refl
      ]

  -- No page below 4 GiB is out of reach.
  pub all-reached :
      (top : ℕ) → top ≤ 4 * gib → all_below (top / page_size) (reached_page root before m) ≡ true
  all-reached top low =
      all_below-all (reached_page root before m) (top / page_size)
        (λ j less. reached_page-true j (omega arith))
