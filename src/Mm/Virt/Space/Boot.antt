-- ===== src/Mm/Virt/Space/Boot.antt =====
-- fckrnl/mm/virt.c: `vmm_init`, from a root without entries to the kernel's address space.
use fusioncore.Base.{
  ℕ, ◌+◌, ◌*◌, ◌/◌, ◌%◌, ◌^◌, ◌<◌, ◌≤◌, ◌≡◌, ◌≢◌, refl, sym, subst, ap, ◌∙◌, Option, none, some,
  List, [], ◌∷◌, suc, bit_or, arith, ltb, if◌then◌else◌, sub64, ◌==◌,
}
use fusioncore.Machine.{Machine, Cmd, done, and_then, ◌>>◌, pure, panic}
use fusioncore.Machine.Steps.{after_call, after_test}
use fusioncore.Mm.Memmap.{
  MmapEntry, page_size, gib, higher_half_data, higher_half_code, heap_max_size, heap_start_addr,
  phys_to_higher_half_data,
}
use fusioncore.Mm.Phys.Search.{IsPmm}
use fusioncore.Mm.Phys.Free.{HasFree}
use fusioncore.Mm.Virt.{
  vmm_map_range, rounds, map_entries, vmm_init, kernel_read, kernel_read_write,
}
use fusioncore.Mm.Virt.Indices.{Leading}
use fusioncore.Mm.Virt.Walk.{translate}
use fusioncore.Mm.Virt.Space.{Tables, IsSpace}
use fusioncore.Mm.Virt.Space.Need.{lowest_tables}
use fusioncore.Mm.Virt.Space.Ranged.{distance, ranged}
use fusioncore.Mm.Virt.Space.Range.{MapsRange, vmm_map_range-MapsRange}
use fusioncore.Mm.Virt.Space.Empty.{only_root, root-IsSpace}

-- The first `end` bytes of physical memory, seen from `virt` on with the flags.
pub record Window : Type 0 where
  pub virt : ℕ
  pub end : ℕ
  pub flags : ℕ

-- What the walk finds through windows, the last one that was opened first.
abbrev pub seen : List Window → ℕ → Option ℕ
seen [] other = none
seen (w ∷ ws) other = ranged w.virt 0 w.flags (rounds 0 w.end) (seen ws) other

abbrev pub fixed_windows : List Window
fixed_windows =
    record { virt = higher_half_code; end = 2 * gib; flags = kernel_read }
    ∷ record { virt = heap_start_addr; end = heap_max_size; flags = kernel_read_write }
    ∷ record { virt = higher_half_data; end = 4 * gib; flags = kernel_read_write }
    ∷ record { virt = 0; end = 4 * gib; flags = kernel_read_write }
    ∷ []

-- The windows that the loop over the memory map opens on top.
abbrev pub entry_windows : List MmapEntry → List Window → List Window
entry_windows [] ws = ws
entry_windows (e ∷ es) ws =
    entry_windows es
      (record { virt = higher_half_data; end = e.length; flags = kernel_read_write } ∷ ws)

-- The pages that the tables of a window and of the loop's windows can take.
abbrev pub window_pages : ℕ → ℕ → ℕ
window_pages virt end = 3 * lowest_tables (virt / page_size) (rounds 0 end)

abbrev pub entry_pages : List MmapEntry → ℕ → ℕ
entry_pages [] n = n
entry_pages (e ∷ es) n = window_pages higher_half_data e.length + entry_pages es n

-- The lengths for which the image stays in the higher half.
abbrev pub Fitting : List MmapEntry → Type 0
Fitting [] = Unit {0}
Fitting (e ∷ es) = ((0 < e.length) × (e.length ≤ 2 ^ 47)) × Fitting es

-- The run returns, the tables are a tree, and the walk sees the windows; `n` free pages are left.
pub record Shows (root : ℕ) (ws : List Window) (n : ℕ) (m' : Machine) : Type 0 where
  pub tables : Tables
  pub space : IsSpace tables root m'
  pub walk : (other : ℕ) → translate m'.mem root other ≡ seen ws other
  pub free : HasFree n m'.pmm

kernel_read-Leading : Leading kernel_read
kernel_read-Leading = (omega arith, omega arith)

kernel_read_write-Leading : Leading kernel_read_write
kernel_read_write-Leading = (omega arith, omega arith)

module _ (root n : ℕ) (m : Machine) (ws : List Window) where
  -- Another window.
  opened :
      (virt end flags : ℕ)
      → flags < 512
      → Leading flags
      → virt % page_size ≡ 0
      → 0 < end
      → end ≤ 2 ^ 48
      → virt + (end + 4095) / page_size * page_size ≤ 2 ^ 64
      → Shows root ws (window_pages virt end + n) m
      → (m' : Machine) × (vmm_map_range root 0 end virt flags m ≡ done tt m')
        × Shows root (record { virt = virt; end = end; flags = flags } ∷ ws) n m'
  opened virt end flags small odd aligned pos low wide s =
      let same : 0 + virt ≡ virt = omega arith in
      let r =
        subst
          (λ v. MapsRange root m v 0 flags (rounds 0 end) n (vmm_map_range root 0 end virt flags m))
          same
          (vmm_map_range-MapsRange root flags virt small odd aligned 0 end n m s.space
            (subst (λ v. HasFree (3 * lowest_tables (v / page_size) (rounds 0 end) + n) m.pmm)
              (sym same) s.free)
            pos low wide) in
      (
        r.after,
        r.returns,
        record {
          tables = r.tables;
          space = r.space;
          walk = λ other.
              r.translates other
              ∙ ap
                  (λ o.
                    if ltb (distance virt other) (rounds 0 end)
                    then some (bit_or (0 + distance virt other * page_size) flags)
                    else o)
                  (s.walk other);
          free = r.free;
        },
      )

-- The loop over the memory map.
map_entries-Shows :
    (root n : ℕ) (es : List MmapEntry) (m : Machine) (ws : List Window)
    → Fitting es
    → Shows root ws (entry_pages es n) m
    → (m' : Machine) × (map_entries root es m ≡ done tt m') × Shows root (entry_windows es ws) n m'
unfolding map_entries
map_entries-Shows root n [] m ws fit s = (m, refl, s)
map_entries-Shows root n (e ∷ es) m ws ((pos, low), fit) s =
    let (m1, ran, s1) =
      opened root (entry_pages es n) m ws higher_half_data e.length kernel_read_write (omega arith)
        kernel_read_write-Leading (omega arith) pos (omega arith) (omega arith) s in
    let (m2, rest, s2) =
      map_entries-Shows root n es m1
        (record { virt = higher_half_data; end = e.length; flags = kernel_read_write } ∷ ws) fit
        s1 in
    (
      m2,
      after_call (vmm_map_range root 0 e.length higher_half_data kernel_read_write)
            (map_entries root es) m m1 ran
          ∙ rest,
      s2,
    )

-- The pages that vmm_init can take: its root, and the tables of all windows.
abbrev pub boot_pages : List MmapEntry → ℕ → ℕ
boot_pages es n = suc (
    window_pages 0 (4 * gib)
    + (window_pages higher_half_data (4 * gib)
        + (window_pages heap_start_addr heap_max_size
            + (window_pages higher_half_code (2 * gib) + entry_pages es n))))

-- The root's address in the higher half is not NULL and leads back to its page.
module _ (page : ℕ) (m : Machine)
    (space : IsSpace (only_root page) (phys_to_higher_half_data page) m) where
  page-low : page < 2 ^ 46
  page-low = (space.tables 4 0 page refl).low

  root-ne-zero : phys_to_higher_half_data page ≢ 0
  root-ne-zero = let low = page-low in ground arith

  root_address : sub64 (phys_to_higher_half_data page) higher_half_data ≡ page
  root_address = let low = page-low in ground arith

-- What vmm_init does with its root.
abbrev open_windows : List MmapEntry → ℕ → Cmd (ℕ × ℕ)
open_windows es root = do
  vmm_map_range root 0 (4 * gib) 0 kernel_read_write
  vmm_map_range root 0 (4 * gib) higher_half_data kernel_read_write
  vmm_map_range root 0 heap_max_size heap_start_addr kernel_read_write
  vmm_map_range root 0 (2 * gib) higher_half_code kernel_read
  map_entries root es
  pure (root, sub64 root higher_half_data)

-- On a well-formed allocator with a free page for the root, three for each table of 512 pages that
-- a window touches and n more, and a memory map whose entries have lengths of 1 to 2^47, vmm_init
-- returns the root by its pointer in the higher half and its physical address; the tables are a
-- tree of pages in use, and the processor's walk finds for every address what the windows show, the
-- last one that was opened first: the first 4 GiB at their own addresses and in the higher half,
-- the heap's and the code's windows, and on top one window of the higher half from address 0 for
-- each entry's length; n free pages are left.
pub vmm_init-Shows :
    (es : List MmapEntry) (n : ℕ) (m : Machine)
    → IsPmm m.pmm
    → HasFree (boot_pages es n) m.pmm
    → Fitting es
    → (page : ℕ) × (m' : Machine) × (vmm_init es m ≡ done (phys_to_higher_half_data page, page) m')
      × Shows (phys_to_higher_half_data page) (entry_windows es fixed_windows) n m'
unfolding vmm_init
vmm_init-Shows es n m pages free fit =
    let (page, m0, ran0, space, nothing, left) = root-IsSpace m pages free in
    let root = phys_to_higher_half_data page in
    let s0 : Shows root [] _ m0 = record {
      tables = only_root page;
      space = space;
      walk = nothing;
      free = left;
    } in
    let (m1, ran1, s1) =
      opened root _ m0 _ 0 (4 * gib) kernel_read_write (omega arith) kernel_read_write-Leading
        (omega arith) (omega arith) (omega arith) (omega arith) s0 in
    let (m2, ran2, s2) =
      opened root _ m1 _ higher_half_data (4 * gib) kernel_read_write (omega arith)
        kernel_read_write-Leading (omega arith) (omega arith) (omega arith) (omega arith) s1 in
    let (m3, ran3, s3) =
      opened root _ m2 _ heap_start_addr heap_max_size kernel_read_write (omega arith)
        kernel_read_write-Leading (omega arith) (omega arith) (omega arith) (omega arith) s2 in
    let (m4, ran4, s4) =
      opened root _ m3 _ higher_half_code (2 * gib) kernel_read (omega arith) kernel_read-Leading
        (omega arith) (omega arith) (omega arith) (omega arith) s3 in
    let (m5, ran5, s5) = map_entries-Shows root n es m4 fixed_windows fit s4 in
    (
      page,
      m5,
      ap
            (λ r. and_then r λ a.
              let b = phys_to_higher_half_data a in if b == 0 then panic else open_windows es b)
            ran0
          ∙ after_test root panic (open_windows es root) m0 (root-ne-zero page m0 space)
          ∙ after_call (vmm_map_range root 0 (4 * gib) 0 kernel_read_write) _ m0 m1 ran1
          ∙ after_call (vmm_map_range root 0 (4 * gib) higher_half_data kernel_read_write) _ m1 m2
              ran2
          ∙ after_call (vmm_map_range root 0 heap_max_size heap_start_addr kernel_read_write) _ m2
              m3 ran3
          ∙ after_call (vmm_map_range root 0 (2 * gib) higher_half_code kernel_read) _ m3 m4 ran4
          ∙ after_call (map_entries root es) _ m4 m5 ran5
          ∙ ap (λ a. done (root, a) m5) (root_address page m0 space),
      s5,
    )
