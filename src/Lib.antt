-- ===== src/Lib.antt =====
-- XIS, a small x86 kernel in C: a model of its core, with the theorems that make it correct.
--
-- Modelled parts and their files (paths of the repository on the right):
--   Ring       util.c, util.h: the byte ring buffer between the keyboard interrupt and its
--              reader. A `RingBuffer` is the struct with the memory that it points to.
--   Util       util.c, util.h: `strlen`, `strncmp` (Strings), `_itoa` (`itoa_base`), `_lltoa`
--              (`lltoa_base`) and `ptrtoa` over a memory of bytes. Digits and Reverse are about
--              the loops of `_itoa`, Numeral reads the digits back, Itoa has what a caller may
--              rely on. Hex has numerals of a fixed width, Pad the zeros in front, Lltoa the 64
--              bits. Format is `sprintf`: Items has formats as lists of directives, Texts and
--              Steps the directives one by one, Apart what the writes leave as it is, Expand the
--              string that is left.
--   Lock       lock.c, lock.h: the spin lock, instruction by instruction, with Exclusion.
--   Vga        system.c: `print_vga` and `print_vga_fixed` on the bytes of the text screen.
--   Keyboard   keyboard.c, keyboard.h: `kbd_process_scan_code` (Keyboard), its theorems (Scan),
--              and `keyboard_init` and `keyboard_handle_interrupt` (Driver) over the ring and the
--              screen.
--   Memory     memory.c, memory.h: the buddy allocator. `Buddy` holds the page descriptors by
--              frame number, the free lists as sequences and the counters. Blocks has the
--              arithmetic of buddies, Invariant what a valid state is, Insert and Merge the two
--              branches of `page_add_to_slot`, Add its loop, Take, Mark, Split and Alloc those of
--              `page_alloc`, Contract what callers may rely on. Init is `mem_init`: the page
--              descriptors that the memory map gives (Marks, Map, Entries), the frames that its
--              last loop frees (Frames, System, Usable), the bounds of the array of descriptors
--              (Inside), and the whole function over Page32 (Mapped). Kmap is
--              `page_alloc_kmap_linear`. Bitmap has the bitmaps of the object caches, Cache their
--              sizes.
--   Interrupt  interrupt.c, interrupt.h: the table of ISA interrupts (Table) and what
--              `ioapic_setisa_irqs` stores in the IOAPIC (Redirect).
--   Page32     page32.c, page32.h: the page tables over a memory of words. Walk is how the
--              processor reads them and what the kernel keeps of them, Build the loops for one
--              page, Slot and Clear one page mapped or cleared, Map and Unmap the kernel's
--              ranges, Locks the choice of a lock, Share two directories that read alike; User
--              has `alloc_user_page` over the page allocator, with its orders (Order), its
--              retries (Rounds) and its error returns (Errors).
--   Setup32    setup32.c, setup32.h: the descriptor tables (Segments, Gates), and the dispatch of
--              an interrupt to the timer and the keyboard with its acknowledgement (Dispatch,
--              Ticks). Paging has the page faults of `trap_handler` (Repair) and the directory
--              that a processor starts with (Copy), over Page32.
--   Debug      debug.c: `printf` with its circular buffer (Buffer) and a message that fits into
--              it (Message), over Util.Format.
--   Acpi       acpi.c: `acpi_find_rsdp` (Rsdp) and `acpi_process_madt` (Madt) over the bytes of
--              the memory.
--   Apic       apic.c, apic.h: `init_lapic` and the calibration of the timer (Calibrate, Start),
--              over Page32 and the interrupts of Setup32.Dispatch, and `lapic_switch`.
--   Smp        smp.c: `smp_start` (Tables, Start) and `finish_smp_initialization` (Count).
--   Usermode   usermode.c: `initialize_usermode` and `load_usermode_text`, over Page32.User, and
--              the failure of the stack (Failure).
--   Prelude    shared names, Boolean tests, arrays and lists, `^` with a power of two.
--
-- Conventions. A `u8`, `u16` or `u32` is a natural number, its wrap-around written out. A C array
-- is a list or a function from its index; a NUL-terminated string is the list of its bytes before
-- the NUL. The bits of a flag word are Boolean fields. A loop is recursion on the rounds that are
-- left, so that no fuel can run out: the loops of the allocator count the orders up to
-- MAX_ALLOC_ORDER. The loop over a format has as many rounds as there are addresses, which is
-- enough for any format that ends. `sprintf` writes into the memory that it reads, byte by byte,
-- and its theorem asks that the places are apart; `printf` writes into its own buffer. The loop
-- over the digits has 32 rounds, as many as a number of 32 bits has digits in any base, and the
-- loop of `strlen` one round for each address. A processor of Lock takes one instruction at a
-- time, and an interleaving is the list of the processors in the order of their steps.
-- `acpi_process_madt` is given rounds, and it is a theorem how many are enough; what is said of
-- `acpi_find_rsdp` holds of the address it returns, for any rounds. `map_kernel_with_pagetable`
-- has a round for each page of the address space and its calls of `build_pagetable` two for their
-- one page; that these are enough is part of the theorems. The retries of `alloc_user_page` are
-- given rounds, and it is a theorem that two are enough. A pointer to a word of a page table is
-- its address, and the table of a kernel address is read at its linear address. Locks are left
-- out of the sequential models: each operation runs between its own lock and unlock.
-- Keyboard.Driver and Setup32.Dispatch put the parts together: an interrupt reaches the keyboard
-- driver, which uses the ring and the screen; the timer prints the seconds by `_itoa` on it.
--
-- Parameters: the bytes that the linker puts behind the scan code table (`beyond`), the addresses
-- that it gives the tables and the handlers of handlr32.S, the size of `struct kpage`, what the
-- stack holds before a call, what `cpuid`, the register 0x1b and the registers of the local APIC
-- give, the interrupts that arrive during a wait, and the scan codes that the keyboard's port
-- gives.
--
-- Not modelled: the boot loader, the assembler files and the assembler in system.c and usermode.c
-- (ports, PIC, PIT, the switch to user mode), reads of the IOAPIC, `acpi_process_table` and
-- `acpi_init`, which read a length before its page is mapped, and the lists of descriptors of the
-- object caches.
mod Prelude
pub mod Util
pub mod Lock
pub mod Ring
pub mod Vga
pub mod Keyboard
pub mod Memory
pub mod Page32
pub mod Setup32
pub mod Debug
pub mod Acpi
pub mod Interrupt
pub mod Apic
pub mod Smp
pub mod Usermode
