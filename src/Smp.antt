-- ===== src/Smp.antt =====
-- smp.c: the other processors are started and count themselves in.
use Prim.Native.Nat.{bit_or}
use xis.Prelude.Maps.{update}
use xis.Prelude.{
  ℕ, zero, suc, ◌+◌, ◌-◌, ◌*◌, ◌/◌, ◌%◌, ◌^◌, Bool, Option, none, some, List, [], ◌∷◌, ◌++◌,
  if◌then◌else◌,
}
use xis.Util.{Bytes}
use xis.Page32.{
  Words, Layout, kernel_virt_addr, page_size, pte_write, get_cpu_pgdir, map_kernel_with_pagetable,
}
use xis.Setup32.{max_num_smps}
use xis.Setup32.Paging.{copy_words, setup32_pgdir}
use xis.Apic.{
  Event, store, pit_wait_ms, kernel_flags, lapic_spurious_reg, lapic_lvt_timer_reg,
  lapic_idt_vector, lapic_divide_configuration_reg, lapic_divide_config_value,
  lapic_initial_counter_reg, lapic_counter_value,
}
pub mod Tables
pub mod Count
pub mod Start
mod Tests

abbrev pub kernel_pgdir_entry : ℕ
kernel_pgdir_entry = 0x800 / 4

-- The pages of the directories of processor `i` and the following ones.
pub pg_tables_loop : ℕ → Layout → ℕ → Words → Words
pg_tables_loop zero y i m = m
pg_tables_loop (suc n) y i m =
    let pgd = get_cpu_pgdir y i in
    let m' = copy_words 1024 pgd y.master_kernel_pg_dir m in
    pg_tables_loop n y (i + 1) (update m' pgd (m' (pgd + 4 * kernel_pgdir_entry)))

pub initialize_kernel_pg_tables : Layout → Words → Words
initialize_kernel_pg_tables y m = pg_tables_loop (max_num_smps - 1) y 1 m

-- `smp_bits` and `smp_nums` are of 32 bits.
pub record Smp : Type 0 where
  pub smp_bits : ℕ
  pub smp_nums : ℕ
  pub smp_on_hold : Bool

-- `finish_smp_initialization` between the lock and the unlock; none where the processor goes back
-- to `retry`.
pub count_in : ℕ → Smp → Option Smp
count_in smp_id s =
    let counted = record s {
      smp_nums = (s.smp_nums + 1) % 2 ^ 32;
      smp_bits = bit_or s.smp_bits (2 ^ smp_id % 2 ^ 32);
    } in
    if s.smp_on_hold then none else some counted

abbrev pub lapic_icr_1 : ℕ
lapic_icr_1 = 0x300

abbrev pub lapic_icr_2 : ℕ
lapic_icr_2 = 0x310

abbrev pub ap_init_phys_text : ℕ
ap_init_phys_text = 0x7c00

-- The addresses of krnlconst.hdr, from BASE_WRITE_ADDR on.
abbrev pub ap_first_stack : ℕ
ap_first_stack = 0x2080

abbrev pub ap_lapic_base_register : ℕ
ap_lapic_base_register = 0x2084

abbrev pub ap_kernel_pg_dir : ℕ
ap_kernel_pg_dir = 0x208c

abbrev pub ap_finish_code : ℕ
ap_finish_code = 0x2090

-- `init_ap_size` bytes; the code lies apart from its copy.
pub copy_bytes : ℕ → ℕ → ℕ → Bytes → Bytes
copy_bytes zero d s m = m
copy_bytes (suc n) d s m = copy_bytes n (d + 1) (s + 1) (update m d (m s))

-- What the linker gives: the code of the other processors, the first stack and the function.
pub record Image : Type 0 where
  pub init_ap : ℕ
  pub init_ap_size : ℕ
  pub kernel_stack_0_start : ℕ
  pub finish_smp_initialization : ℕ

-- The memory of the code as bytes, that of the tables and the parameters as words, and what the
-- devices see.
pub record Boot : Type 0 where
  pub bytes : Bytes
  pub words : Words
  pub events : List Event

abbrev pub write_register : ℕ → ℕ → ℕ → Boot → Boot
write_register base register value s = record s {
  events = s.events ++ store ((base + register) % 2 ^ 32) value ∷ [];
}

abbrev pub wait_ms : ℕ → Boot → Boot
wait_ms ms s = record s { events = s.events ++ pit_wait_ms ms ∷ [] }

abbrev pub copy_smp_init_to_low_mem : Image → Boot → Boot
copy_smp_init_to_low_mem i s = record s {
  bytes = copy_bytes i.init_ap_size (ap_init_phys_text + kernel_virt_addr) i.init_ap s.bytes;
}

-- The four words for the code of the other processors.
pub ap_parameters : Layout → Image → ℕ → Words → Words
ap_parameters y i base m =
    let m1 = update m (ap_first_stack + kernel_virt_addr) i.kernel_stack_0_start in
    let m2 = update m1 (ap_lapic_base_register + kernel_virt_addr) base in
    let dir = (y.kernel_pg_dir + 2 ^ 32 - kernel_virt_addr) % 2 ^ 32 in
    let m3 = update m2 (ap_kernel_pg_dir + kernel_virt_addr) dir in
    update m3 (ap_finish_code + kernel_virt_addr) i.finish_smp_initialization

-- `base` is `lapic_base_register`. The messages are left out.
pub smp_start : Layout → Image → Bool → ℕ → Boot → Boot
smp_start y i lapic_present base s =
    let s1 = copy_smp_init_to_low_mem i s in
    let s2 = record s1 {
      words = ap_parameters y i base (initialize_kernel_pg_tables y s1.words);
    } in
    let s3 = write_register base lapic_icr_2 0 (write_register base lapic_icr_1 0x000c4500 s2) in
    let vector = bit_or 0x000c4600 (ap_init_phys_text / 4096) in
    let s4 =
      write_register base lapic_icr_2 0 (write_register base lapic_icr_1 vector (wait_ms 10 s3)) in
    if lapic_present then wait_ms 200 s4 else s

-- `finish_smp_initialization` behind the count, up to user mode, with the tables of `setup32`; none
-- if the mapping does not end. `device` gives the registers.
pub join_kernel : Layout → ℕ → ℕ → (ℕ → ℕ) → Boot → Option Boot
join_kernel y cpu base device s =
    let spurious = bit_or (device ((base + lapic_spurious_reg) % 2 ^ 32)) 0x1ff in
    let mapped =
      map_kernel_with_pagetable y cpu base base page_size pte_write kernel_flags
        (setup32_pgdir y cpu s.words) in
    elim mapped [
      | none ↦ none
      | some m ↦ some (
          write_register base lapic_initial_counter_reg lapic_counter_value (
            write_register base lapic_divide_configuration_reg lapic_divide_config_value (
              write_register base lapic_lvt_timer_reg (bit_or lapic_idt_vector 0x20000)
                (write_register base lapic_spurious_reg spurious (record s { words = m })))))
    ]
