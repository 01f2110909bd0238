-- ===== src/Setup32/Segments.antt =====
-- setup32.c: what the processor reads in the segment descriptors.
use xis.Prelude.{
  ℕ, ◌+◌, ◌*◌, ◌/◌, ◌%◌, ◌^◌, ◌≤◌, ◌<◌, ◌≡◌, ◌≢◌, refl, arith, ◌==◌, ◌||◌, if◌then◌else◌,
}
use xis.Setup32.{
  user_code_seg, user_data_seg, kernel_code_seg, kernel_data_seg, max_num_smps, last_seg, GdtEntry,
  gdt_entry, Gdt, code_segment, data_segment, initialize_gdt32, initialize_ldt32, initialize_tss32,
  TssEntry, kernel_stack_size, tss_entry_size, task_selector,
}

-- The base address and the segment limit as the processor puts them together.
abbrev pub base_of : GdtEntry → ℕ
base_of e = e.base_address_low + e.base_address_mid * 2 ^ 16 + e.base_address_high * 2 ^ 24

abbrev pub limit_of : GdtEntry → ℕ
limit_of e = e.segment_limit_low + e.segment_limit_high * 2 ^ 16

-- The base of 32 bits and the limit of 20 bits that `SET_GDT_ENTRY` spreads over the fields are the
-- ones the processor puts together, and the entry is present.
gdt_entry_lem :
    (segment_limit base_address type system dpl db granularity : ℕ)
    → segment_limit < 2 ^ 20
    → base_address < 2 ^ 32
    → let e = gdt_entry segment_limit base_address type system dpl db granularity in
      (limit_of e ≡ segment_limit) × (base_of e ≡ base_address) × (e.present ≡ 1)
gdt_entry_lem segment_limit base_address type system dpl db granularity p q =
    (omega arith, omega arith, refl)

-- The segment of a selector: its index is in the bits above the lowest three.
abbrev pub segment : Gdt → ℕ → GdtEntry
segment gdt selector = gdt (selector / 8)

-- After `initializeGDT32`, `initializeLDT32` and `initializeTSS32` of a processor below 32, with
-- the task states below `2 ^ 32`: the kernel's and the user's code and data segments are flat,
-- with privilege level 0 and 3; the selector that `loadTSS32` loads has level 3, and its entry,
-- within the table, has the address and the size of the processor's task state; the entries
-- present are these five and the local table's, so the null entry is absent.
segments_lem :
    (stack_start tss_address ldt_address smp_id : ℕ) (tss : ℕ → TssEntry)
    → smp_id < max_num_smps
    → tss_address + max_num_smps * tss_entry_size ≤ 2 ^ 32
    → let gdt =
        (initialize_tss32 stack_start tss_address smp_id
          (tss, (initialize_ldt32 ldt_address initialize_gdt32).1)).1 in
      let task = task_selector smp_id in
      (segment gdt kernel_code_seg ≡ code_segment 0xfffff 0 0)
      × (segment gdt kernel_data_seg ≡ data_segment 0xfffff 0 0)
      × (segment gdt user_code_seg ≡ code_segment 0xfffff 0 3)
      × (segment gdt user_data_seg ≡ data_segment 0xfffff 0 3)
      × (base_of (segment gdt task) ≡ tss_address + smp_id * tss_entry_size)
      × (limit_of (segment gdt task) ≡ tss_entry_size)
      × (task % 4 ≡ 3)
      × (task < last_seg)
      × ((i : ℕ)
          → (gdt i).present ≡ (
              if i == 2 || i == 4 || i == 6 || i == 8 || i == 10 || i == 12 + smp_id then 1 else 0))
unfolding initialize_tss32 initialize_ldt32 initialize_gdt32
segments_lem stack_start tss_address ldt_address smp_id tss p q = (
  ground arith,
  ground arith,
  ground arith,
  ground arith,
  ground arith,
  ground arith,
  omega arith,
  omega arith,
  λ i. ground arith,
)

-- Initializing the task state of one processor leaves the task state and the descriptor of any
-- other one alone; its stack starts as many stack sizes behind the first one's as its number says,
-- as long as that is below `2 ^ 32`.
initialize_tss32_lem :
    (stack_start tss_address smp_id other : ℕ) (tss : ℕ → TssEntry) (gdt : Gdt)
    → other ≢ smp_id
    → stack_start + smp_id * kernel_stack_size < 2 ^ 32
    → let t = initialize_tss32 stack_start tss_address smp_id (tss, gdt) in
      (t.0 other ≡ tss other)
      × (segment t.1 (task_selector other) ≡ segment gdt (task_selector other))
      × ((t.0 smp_id).esp0 ≡ stack_start + smp_id * kernel_stack_size)
unfolding initialize_tss32
initialize_tss32_lem stack_start tss_address smp_id other tss gdt n q =
    (ground arith, ground arith, ground arith)
