-- ===== src/Lib.antt =====
-- fusioncore is a small kernel for x86-64. This library models its C code and proves what the
-- parts promise each other.
--
-- How the program works. The boot loader enters kmain (fckrnl/kernel.c) with a list of tags
-- (fckrnl/boot). kinit starts the parts in order: the allocator of physical pages, whose state is
-- a bitmap (fckrnl/mm/phys.c, bmap.c); the page tables, whose tables are such pages (mm/virt.c);
-- the segment and interrupt descriptors (fckrnl/cpu); the heap, which takes small blocks from slab
-- caches and large ones from the page allocator (fckrnl/libk/malloc.c, mm/slab.c); the firmware's
-- tables (fckrnl/acpi); and the interrupt controllers, which are found through those tables
-- (fckrnl/dd/apic). The legacy interrupt controllers and the serial port (fckrnl/dd/pic, dd/com)
-- are driven by port accesses.
--
-- Which file models which part. A function keeps its name without leading underscores.
--   Base, Base/*          Boolean tests, lists with indices, fixed widths, and the laws of & and |.
--   Machine, Machine/*    a run over memory and the page allocator's state, loads and stores.
--   Asm                   asm/utils.h: accesses to ports and registers, as a trace that a driver
--                         only adds to (Asm/Appends).
--   Mm/Bitmap             mm/bmap.c. Mm/Memmap: mm/mm.h and the entries of the memory map.
--   Mm/Phys               mm/phys.c: pmm_init, pmm_alloc, pmm_free, _get_ffp_range; proofs on the
--                         search (Search), on ranges of pages (Pages), on calls one after the
--                         other (Roundtrip), on any history of calls (History) and on the start
--                         (Init, Count); Free: what the search answers, from the free pages
--                         alone. Mm/Kept: what a part of the kernel leaves as it was.
--   Mm/Zeroed             pmm_allocz and pmm_free on the whole machine.
--   Mm/Slab               mm/slab.c: making slabs; Mm/Slab/Cache: the operations of a cache;
--                         Mm/Slab/Layout: the structures' fields by address; Mm/Slab/Stock: the
--                         free list of a new slab, with the cases of objects that have no
--                         room for their links (Tight) and of a cache that other parts leave
--                         alone (Home); Mm/Slab/Stack, Serve: a cache as a stack.
--   Mm/Virt               mm/virt.c; Mm/Virt/Walk: the processor's walk through the tables;
--                         Mm/Virt/Space: the tables as a tree, and what a mapping changes in
--                         it; Need: the tables that a range can take; Boot: vmm_init.
--   Libk/Text             libk/string.c. Libk/Malloc: libk/malloc.c; Blocks, Small, First: a
--                         block and back; Heap: malloc_heap_init.
--   Libk/Log              libk/serial/log.c, debug.c and assert.h; Libk/Log/Said, Status: proofs.
--   Dd/Pic, Dd/Com        dd/pic/pic.c and dd/com/com.c; Dd/Com/Sent, Received: the port's waits.
--   Dd/Apic               dd/apic/apic.c; Dd/Apic/Ioapic: the functions on I/O controllers;
--                         Dd/Apic/Program: the registers that a redirection writes; Lines: the
--                         loops of apic_init; Accesses, Pinned: what they write.
--   Acpi/Sdt, Rsdp, Madt  acpi/acpi.c, tbl/rsdt.c and tbl/madt.c; Acpi/Madt/Walk, Stuck: its
--                         entries, in order or with length 0; Acpi/Init: acpi_init.
--   Cpu/Gdt, Idt, Features   cpu/gdt.c, idt.c, and cpuid of cpu.h.
--   Cpu/State, Cpu/Isr    the register dump and the interrupt handler of cpu/isr.c; Cpu/Isr/Faults:
--                         exceptions that the processor raises.
--   Boot                  boot/boot.c.
--   Kernel                kernel.c: kinit up to the heap (Ready, Reached) and, over the memory as
--                         it is then, from the firmware's tables on (Devices).
--   Examples/*            the functions on small inputs.
--
-- The modelling. Integers are natural numbers with the wrap-around of their C type written out.
-- The page allocator is a record that each function takes and gives; none is an access outside
-- the bitmap, which C leaves undefined. What works on memory is a command over a machine with
-- byte-addressed memory; its outcomes are a result, halted for log(PANIC, ...), fault for an
-- undefined access and spinning for a loop that has used up its fuel. Memory is indexed by
-- physical address, and the parts on their own take every address as mapped; kinit, after it has
-- loaded its tables, faults if the heap takes a page that they do not show at its own address,
-- writable. The firmware's tables are read at the addresses that the code uses, physical or in the
-- higher half. Drivers are commands over the trace of accesses so far, and a device is any function
-- from the trace to an answer, so a theorem on a driver holds for each device or names what it asks
-- of it. A driver that stops the processor ends as halted, with the trace up to there. The log writes to the serial port: the printf that fills
-- its buffer is a parameter, a Formatter, and a text that does not fit in the buffer is a fault.
--
-- Bounds and fuel. Loops with a counter are recursions on the rounds that are left. The walks of
-- lists in memory (slabs, tags, entries of firmware tables) and the waits for a device have fuel;
-- the theorems on them say how much is enough, or that none is. The inner loop of slab_cache_grow
-- has fuel 4097, more than the objects of a page. The log has two: the polls of the serial port
-- for each byte, and the depth of its calls of itself through a failed assertion, where 1 is
-- enough, as the colours that it passes on satisfy the assertion.
--
-- What is not modelled: writes to the kernel's own data and stack, which are no part of this
-- memory, so that their window, which is read-only, does not come into play; the rights that upper
-- entries of the page tables take away; the log calls of the parts other than the interrupt
-- handler, which stand as nothing where the log only reports and as halted where it panics, and the
-- lines that slab_cache_dump prints, since nothing reads them back; the printf of a third party; the assembly files, which load tables and save registers; the
-- vendor string, which only serves a log; the header that the boot loader reads. The contents of
-- the page bitmap are kept apart from the memory that is handed out, as pmm_init cuts its bytes
-- out of the memory map. The boot loader's memory map, the firmware's tables and the answers of
-- devices and of cpuid are parameters. The bytes that acpi_init and apic_init take from malloc, for
-- lists of entries and for a map of lines, are values of the models.
pub mod Base
pub mod Machine
pub mod Asm
pub mod Libk
pub mod Mm
pub mod Dd
pub mod Acpi
pub mod Cpu
pub mod Boot
pub mod Kernel
pub mod Examples
