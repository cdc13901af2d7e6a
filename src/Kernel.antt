-- ===== src/Kernel.antt =====
-- fckrnl/kernel.c: `kinit` up to the heap, over the memory and the state that its parts leave.
pub mod Reached
pub mod Ready
pub mod Devices
use fusioncore.Base.{
  ℕ, ◌*◌, ◌/◌, ◌==◌, bit_or, true, false, if◌then◌else◌, Bool, Option, none, some, List,
}
use fusioncore.Asm.{Device, Trace, Out}
use fusioncore.Machine.{Machine, Run, Cmd, done, halted, fault, spinning, ◌>>=◌, pure}
use fusioncore.Base.Bits.{all_below}
use fusioncore.Mm.Bitmap.{is_set}
use fusioncore.Mm.Virt.Walk.{translate}
use fusioncore.Acpi.Sdt.{Outcome, returned, overrun}
use fusioncore.Acpi.Sdt
use fusioncore.Acpi.Init.{Signatures, AcpiTables, acpi_init}
use fusioncore.Dd.Apic.{apic_init}
use fusioncore.Machine.Bytes.{Memory}
use fusioncore.Cpu.Gdt.{Gdt, Tss, GdtPtr, gdt_init}
use fusioncore.Cpu.Idt.{IdtDesc, IdtPtr, idt_init}
use fusioncore.Mm.Memmap.{MmapEntry, page_size}
use fusioncore.Mm.Phys.{Pmm, pmm_init}
use fusioncore.Mm.Virt.{vmm_init, kernel_read_write}
use fusioncore.Libk.Malloc.{malloc_heap_init}

-- What the linker and the data of the kernel fix: the addresses of `stack`, `gdt`, `idt`, of the
-- interrupt handlers and of the caches' names, and the interrupt table before `idt_init`.
pub record Image : Type 0 where
  pub stack : ℕ
  pub gdt_addr : ℕ
  pub idt_addr : ℕ
  pub isr_vector : ℕ → ℕ
  pub cache_names : ℕ → ℕ
  pub idt : List IdtDesc

-- The state of the parts that `kinit` has started.
pub record Kernel : Type 0 where
  pub root_page_tbl : ℕ
  pub cr3 : ℕ
  pub segments : Gdt × Tss × GdtPtr
  pub interrupts : List IdtDesc × IdtPtr
  pub slab_caches : List ℕ

-- `pmm.hi_page_top`, which only `pmm_init` sets.
abbrev pub hi_page_top : Cmd ℕ
hi_page_top m = done m.pmm.hi_page_top m

abbrev pub is_entry : Option ℕ → ℕ → Bool
is_entry none entry = false
is_entry (some w) entry = w == entry

-- A page is out of use, or was in use before, or the loaded tables show it at its own address,
-- writable.
abbrev pub reached_page : ℕ → Machine → Machine → ℕ → Bool
reached_page root before m j =
    if is_set m.pmm.bitmap j
    then (if is_set before.pmm.bitmap j
        then true
        else is_entry (translate m.mem root (j * page_size))
            (bit_or (j * page_size) kernel_read_write))
    else true

-- The end of a run under the loaded tables: what it has taken it has written, at its own address,
-- which is a page fault where the tables do not show it there.
abbrev pub checked : {A : Type 0} → ℕ → ℕ → Machine → Run A → Run A
checked root top before (done a m) =
    if all_below (top / page_size) (reached_page root before m) then done a m else fault
checked root top before halted = halted
checked root top before fault = fault
checked root top before spinning = spinning

abbrev pub under_tables : {A : Type 0} → ℕ → ℕ → Cmd A → Cmd A
under_tables root top c m = checked root top m (c m)

-- The calls of `kinit` behind `pmm_init`, with the memory map as that leaves it. `vmm_init` loads its tables,
-- under which the heap is made; the kernel's own data are in its image and not in this memory.
unfoldable pub kinit_after_pmm : Image → List MmapEntry → Cmd Kernel
kinit_after_pmm image entries = do
  top ← hi_page_top
  (root_page_tbl, cr3) ← vmm_init entries
  let segments = gdt_init image.stack image.gdt_addr
  let interrupts = idt_init image.isr_vector image.idt_addr image.idt
  slab_caches ← under_tables root_page_tbl top (malloc_heap_init image.cache_names)
  pure (record {
    root_page_tbl = root_page_tbl;
    cr3 = cr3;
    segments = segments;
    interrupts = interrupts;
    slab_caches = slab_caches;
  })

abbrev pub after_pmm : Image → Memory → Option (Pmm × List MmapEntry) → Run Kernel
after_pmm image mem none = fault
after_pmm image mem (some (p, rest)) = kinit_after_pmm image rest (record { mem = mem; pmm = p })

-- `kinit` up to `malloc_heap_init`, from the memory map. Its logs, and the ports that `idt_init`
-- writes, change none of this state.
unfoldable pub kinit_to_heap : Image → Memory → List MmapEntry → Run Kernel
kinit_to_heap image mem entries = after_pmm image mem (pmm_init entries)

abbrev pub after_acpi : Device → Memory → Bool → Trace → Outcome AcpiTables → Outcome (Out ℕ)
after_acpi dev m available t (returned acpi) =
    returned (apic_init dev m acpi.entries acpi.madt available t)
after_acpi dev m available t Sdt.halted = Sdt.halted
after_acpi dev m available t overrun = overrun
after_acpi dev m available t Sdt.spinning = Sdt.spinning

-- `kinit` behind the heap, over the memory as it is then: the firmware's tables, and with them the
-- interrupt controllers. `available` is what `apic_is_avail` answers; the fuel is that of the walks
-- along tags and tables.
unfoldable pub kinit_devices : Device → ℕ → Memory → ℕ → Signatures → Bool → Trace → Outcome (Out ℕ)
kinit_devices dev fuel m stivale2_struct sigs available t =
    after_acpi dev m available t (acpi_init fuel m stivale2_struct sigs)
