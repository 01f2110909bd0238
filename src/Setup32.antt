-- ===== src/Setup32.antt =====
-- setup32.c and setup32.h: the descriptor tables, the task states and the interrupt gates.
use xis.Prelude.{ℕ, zero, suc, ◌+◌, ◌*◌, ◌/◌, ◌%◌, ◌^◌, List, [], ◌∷◌}
use xis.Prelude.Maps.{update}
pub mod Gates
pub mod Segments
pub mod Dispatch
pub mod Paging
mod Tests

abbrev pub user_code_seg : ℕ
user_code_seg = 0x10

abbrev pub user_data_seg : ℕ
user_data_seg = 0x20

abbrev pub kernel_code_seg : ℕ
kernel_code_seg = 0x30

abbrev pub kernel_data_seg : ℕ
kernel_data_seg = 0x40

abbrev pub ldt_selector : ℕ
ldt_selector = 0x50

abbrev pub first_task_seg : ℕ
first_task_seg = 0x60

abbrev pub max_num_smps : ℕ
max_num_smps = 32

abbrev pub last_seg : ℕ
last_seg = first_task_seg + max_num_smps * 8

pub record GdtEntry : Type 0 where
  pub segment_limit_low : ℕ
  pub base_address_low : ℕ
  pub base_address_mid : ℕ
  pub type : ℕ
  pub system : ℕ
  pub dpl : ℕ
  pub present : ℕ
  pub segment_limit_high : ℕ
  pub avl : ℕ
  pub l : ℕ
  pub db : ℕ
  pub granularity : ℕ
  pub base_address_high : ℕ

abbrev pub zero_gdt_entry : GdtEntry
zero_gdt_entry = record {
  segment_limit_low = 0;
  base_address_low = 0;
  base_address_mid = 0;
  type = 0;
  system = 0;
  dpl = 0;
  present = 0;
  segment_limit_high = 0;
  avl = 0;
  l = 0;
  db = 0;
  granularity = 0;
  base_address_high = 0;
}

-- `SET_GDT_ENTRY`, with what each bit field keeps of the value.
abbrev pub gdt_entry : ℕ → ℕ → ℕ → ℕ → ℕ → ℕ → ℕ → GdtEntry
gdt_entry segment_limit base_address type system dpl db granularity = record {
  segment_limit_low = segment_limit % 2 ^ 16;
  base_address_low = base_address % 2 ^ 16;
  base_address_mid = base_address / 2 ^ 16 % 2 ^ 8;
  type = type % 2 ^ 4;
  system = system % 2;
  dpl = dpl % 2 ^ 2;
  present = 1;
  segment_limit_high = segment_limit / 2 ^ 16 % 2 ^ 4;
  avl = 0;
  l = 0;
  db = db % 2;
  granularity = granularity % 2;
  base_address_high = base_address / 2 ^ 24 % 2 ^ 8;
}

abbrev pub Gdt : Type 0
Gdt = ℕ → GdtEntry

-- `SET_KERNEL_CODE_SEGMENT` and the macros behind it.
abbrev pub code_segment : ℕ → ℕ → ℕ → GdtEntry
code_segment segment_limit base_address dpl = gdt_entry segment_limit base_address 0xa 1 dpl 1 1

abbrev pub data_segment : ℕ → ℕ → ℕ → GdtEntry
data_segment segment_limit base_address dpl = gdt_entry segment_limit base_address 2 1 dpl 1 1

abbrev pub task_segment : ℕ → ℕ → GdtEntry
task_segment segment_limit base_address = gdt_entry segment_limit base_address 9 0 3 0 0

abbrev pub ldt_descriptor : ℕ → ℕ → GdtEntry
ldt_descriptor segment_limit base_address = gdt_entry segment_limit base_address 2 0 3 0 0

-- `memset(gdt, 0, LAST_SEG)` covers the whole table. The operand of `lgdt` is left out.
pub initialize_gdt32 : Gdt
initialize_gdt32 =
    let a = update (λ _. zero_gdt_entry) (kernel_code_seg / 8) (code_segment 0xfffff 0 0) in
    let b = update a (kernel_data_seg / 8) (data_segment 0xfffff 0 0) in
    let c = update b (user_code_seg / 8) (code_segment 0xfffff 0 3) in
    update c (user_data_seg / 8) (data_segment 0xfffff 0 3)

-- The tables `ldt` and `gdt` behind the call, for the address of `ldt`.
pub initialize_ldt32 : ℕ → Gdt → Gdt × Gdt
initialize_ldt32 ldt_address gdt = (
  update (update (λ _. zero_gdt_entry) 0 (code_segment 0xfffff 0 3)) 1 (data_segment 0xfffff 0 3),
  update gdt (ldt_selector / 8) (ldt_descriptor 16 ldt_address),
)

abbrev pub kernel_stack_size : ℕ
kernel_stack_size = 0x2000

-- `sizeof(struct tss_entry)`.
abbrev pub tss_entry_size : ℕ
tss_entry_size = 104

-- The two fields that are assigned; the others are 0.
pub record TssEntry : Type 0 where
  pub esp0 : ℕ
  pub ss0 : ℕ

-- The tables `tss` and `gdt`, for the addresses of `_kernel_stack_0_start` and `tss`.
pub initialize_tss32 : ℕ → ℕ → ℕ → (ℕ → TssEntry) × Gdt → (ℕ → TssEntry) × Gdt
initialize_tss32 stack_start tss_address smp_id (tss, gdt) = (
  update tss smp_id (record {
    esp0 = (stack_start + smp_id * kernel_stack_size) % 2 ^ 32;
    ss0 = kernel_data_seg;
  }),
  update gdt ((first_task_seg + smp_id * 8) / 8)
      (task_segment tss_entry_size ((tss_address + smp_id * tss_entry_size) % 2 ^ 32)),
)

-- The selector that `loadTSS32` loads; the or with 3 is a sum, as the other bits are above.
abbrev pub task_selector : ℕ → ℕ
task_selector smp_id = first_task_seg + smp_id * 8 + 3

pub record IdtEntry : Type 0 where
  pub offset_low : ℕ
  pub segment_selector : ℕ
  pub type : ℕ
  pub dpl : ℕ
  pub present : ℕ
  pub offset_high : ℕ

abbrev pub Idt : Type 0
Idt = ℕ → IdtEntry

abbrev pub zero_idt_entry : IdtEntry
zero_idt_entry = record {
  offset_low = 0;
  segment_selector = 0;
  type = 0;
  dpl = 0;
  present = 0;
  offset_high = 0;
}

-- `SET_IDT_ENTRY`; the fields `unused` and `s` stay 0.
abbrev pub idt_entry : ℕ → ℕ → ℕ → ℕ → ℕ → IdtEntry
idt_entry offset segment_selector type dpl present = record {
  offset_low = offset % 2 ^ 16;
  segment_selector = segment_selector % 2 ^ 16;
  type = type % 2 ^ 4;
  dpl = dpl % 2 ^ 2;
  present = present % 2;
  offset_high = offset / 2 ^ 16 % 2 ^ 16;
}

abbrev pub interrupt_gate : ℕ → IdtEntry
interrupt_gate offset = idt_entry offset kernel_code_seg 0xe 3 1

abbrev pub trap_gate : ℕ → IdtEntry
trap_gate offset = idt_entry offset kernel_code_seg 0xf 3 1

-- The addresses of the handlers of handlr32.S, by the number in their names.
pub record Handlers : Type 0 where
  pub irq_handler : ℕ → ℕ
  pub trap_handler : ℕ → ℕ
  pub sys_call_handler : ℕ → ℕ

pub interrupt_gates : ℕ → ℕ → Handlers → Idt → Idt
interrupt_gates zero i h idt = idt
interrupt_gates (suc n) i h idt =
    interrupt_gates n (i + 1) h (update idt (32 + i) (interrupt_gate (h.irq_handler i)))

pub trap_gates : List ℕ → Handlers → Idt → Idt
trap_gates [] h idt = idt
trap_gates (v ∷ l) h idt = trap_gates l h (update idt v (trap_gate (h.trap_handler v)))

abbrev pub trap_numbers : List ℕ
trap_numbers =
    0 ∷ 1 ∷ 2 ∷ 3 ∷ 4 ∷ 5 ∷ 6 ∷ 7 ∷ 8 ∷ 9 ∷ 10 ∷ 11 ∷ 12 ∷ 13 ∷ 14 ∷ 16 ∷ 17 ∷ 18 ∷ 19 ∷ 30 ∷ []

-- The operand of `lidt` is left out.
pub initialize_idt32 : Handlers → Idt
initialize_idt32 h =
    let gates = interrupt_gates 16 0 h (λ _. zero_idt_entry) in
    update (trap_gates trap_numbers h gates) 128 (trap_gate (h.sys_call_handler 128))

pub set_idt : ℕ → ℕ → Idt → Idt
set_idt vector idt_function idt = update idt vector (interrupt_gate idt_function)
