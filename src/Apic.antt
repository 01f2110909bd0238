-- ===== src/Apic.antt =====
-- apic.c, apic.h: the local APIC, its page in the kernel's tables and the calibration of its timer.
use Prim.Native.Nat.{bit_or, bit_xor}
use xis.Prelude.{
  ℕ, ◌+◌, ◌-◌, ◌*◌, ◌/◌, ◌%◌, ◌^◌, Bool, true, false, Option, none, some, List, [], ◌∷◌, ◌++◌, ltb,
  if◌then◌else◌,
}
use xis.Util.{Bytes}
use xis.Page32.{Words, Layout, MapFlags, page_size, pte_write, map_kernel_with_pagetable}
use xis.Setup32.Dispatch.{Kernel}
use xis.Setup32.Dispatch.Ticks.{interrupts}
pub mod Calibrate
pub mod Start
mod Tests

abbrev pub lapic_id_reg : ℕ
lapic_id_reg = 0x20

abbrev pub lapic_spurious_reg : ℕ
lapic_spurious_reg = 0xf0

abbrev pub lapic_lvt_timer_reg : ℕ
lapic_lvt_timer_reg = 0x320

abbrev pub lapic_initial_counter_reg : ℕ
lapic_initial_counter_reg = 0x380

abbrev pub lapic_divide_configuration_reg : ℕ
lapic_divide_configuration_reg = 0x3e0

abbrev pub lapic_idt_vector : ℕ
lapic_idt_vector = 32

abbrev pub lapic_divide_config_value : ℕ
lapic_divide_config_value = 10

abbrev pub lapic_counter_value : ℕ
lapic_counter_value = 1024

-- What the device sees: a word stored at an address, or a wait of so many milliseconds.
pub data Event : Type 0 where
  store : ℕ → ℕ → Event
  pit_wait_ms : ℕ → Event

-- The globals, the tables of the kernel, and the events so far.
pub record Apic : Type 0 where
  pub kernel : Kernel
  pub words : Words
  pub lapic_id : ℕ
  pub lapic_timer_enabled : Bool
  pub events : List Event

-- `device` is what the registers give, by their addresses.
abbrev pub lapic_read_register : (ℕ → ℕ) → ℕ → Apic → ℕ
lapic_read_register device register s = device ((s.kernel.lapic_base_register + register) % 2 ^ 32)

abbrev pub lapic_write_register : ℕ → ℕ → Apic → Apic
lapic_write_register register value s = record s {
  events = s.events ++ store ((s.kernel.lapic_base_register + register) % 2 ^ 32) value ∷ [];
}

-- What happens around a processor: what the array of `common_interrupt_handler` holds, the bytes
-- behind the scan code table, and the processor's number.
pub record Around : Type 0 where
  pub stack : Bytes
  pub beyond : ℕ → ℕ
  pub cpu : ℕ

-- A wait, in which the interrupts of the list arrive.
abbrev pub wait_with : Around → ℕ → List (ℕ × ℕ) → Apic → Apic
wait_with o ms arrived s = record s {
  kernel = interrupts o.stack o.beyond o.cpu arrived s.kernel;
  events = s.events ++ pit_wait_ms ms ∷ [];
}

abbrev pub set_calibration_mode : Bool → Apic → Apic
set_calibration_mode b s = record s { kernel = record s.kernel { lapic_calibration_mode = b } }

pub calibrate_lapic_timer : Around → List (ℕ × ℕ) → Apic → Apic
calibrate_lapic_timer o arrived s =
    let s1 = lapic_write_register lapic_lvt_timer_reg (bit_or lapic_idt_vector 0x20000) s in
    let s2 = lapic_write_register lapic_divide_configuration_reg lapic_divide_config_value s1 in
    let s3 =
      lapic_write_register lapic_initial_counter_reg lapic_counter_value
        (set_calibration_mode true s2) in
    let s4 = lapic_write_register lapic_initial_counter_reg 0 (wait_with o 1 arrived s3) in
    lapic_write_register lapic_initial_counter_reg lapic_counter_value
      (record (set_calibration_mode false s4) { lapic_timer_enabled = true })

-- `>> 24` of an `int`.
abbrev pub shift_24 : ℕ → ℕ
shift_24 v = if ltb v (2 ^ 31) then v / 2 ^ 24 else v / 2 ^ 24 + 2 ^ 32 - 2 ^ 8

abbrev pub kernel_flags : MapFlags
kernel_flags = record { user = false; local_cpu = false; pgd_locked = false }

-- The registers are mapped: the rest of `init_lapic`.
pub use_lapic : Around → (ℕ → ℕ) → List (ℕ × ℕ) → Apic → Apic
use_lapic o device arrived s =
    let spurious = bit_or (lapic_read_register device lapic_spurious_reg s) 0x100 in
    let s1 = record s { lapic_id = shift_24 (lapic_read_register device lapic_id_reg s) } in
    let s2 = lapic_write_register lapic_spurious_reg spurious s1 in
    calibrate_lapic_timer o arrived
      (record s2 { kernel = record s2.kernel { lapic_present = true } })

-- `local_lapic_present` is what `cpuid` says and `eax` the low word of the register 0x1b; none if
-- the mapping does not end. The messages are left out.
pub init_lapic : Layout → Around → Bool → ℕ → (ℕ → ℕ) → List (ℕ × ℕ) → Apic → Option Apic
init_lapic y o local_lapic_present eax device arrived s =
    let base = eax / 4096 * 4096 in
    let s1 = record s { kernel = record s.kernel { lapic_base_register = base } } in
    let mapped =
      map_kernel_with_pagetable y o.cpu base base page_size pte_write kernel_flags s.words in
    let started : Option Apic = elim mapped [
      | none ↦ none
      | some m ↦ some (use_lapic o device arrived (record s1 { words = m }))
    ] in
    if local_lapic_present then started else some s

-- `value &= ~0x1ff` clears the bits that `|` has set.
pub lapic_switch : (ℕ → ℕ) → Bool → Apic → Apic
lapic_switch device enable s =
    let value = lapic_read_register device lapic_spurious_reg s in
    let value' = if enable then bit_or value 0x1ff else bit_xor (bit_or value 0x1ff) 0x1ff in
    lapic_write_register lapic_spurious_reg value' s
