-- ===== src/Setup32/Dispatch.antt =====
-- setup32.c: `common_interrupt_handler`, `sendEOI` and the counters of the timer.
use xis.Prelude.{
  ℕ, zero, suc, ◌+◌, ◌*◌, ◌/◌, ◌%◌, ◌^◌, Bool, true, false, not, ◌&&◌, ◌||◌, List, [], ◌∷◌, ltb,
  leb, ◌==◌, if◌then◌else◌,
}
use xis.Prelude.Maps.{update}
use xis.Util.{Bytes, itoa_base, string_at}
use xis.Vga.{print_vga_fixed}
use xis.Keyboard.Driver.{Driver, keyboard_handle_interrupt}
pub mod Ticks

abbrev pub pit_hz : ℕ
pit_hz = 1193182 / 1000

-- The globals of the interrupt path; the arrays are by processor, the integers have 32 bits.
pub record Kernel : Type 0 where
  pub sched_tick : ℕ → ℕ
  pub timer_counter : ℕ → ℕ
  pub seconds : ℕ → ℕ
  pub lapic_calibration_tick : ℕ
  pub lapic_calibration_mode : Bool
  pub lapic_present : Bool
  pub ioapic_initialized : Bool
  pub lapic_base_register : ℕ
  pub driver : Driver

-- What leaves the processor: a store of a word to the local APIC, or a byte to a port.
pub data Eoi : Type 0 where
  movl : ℕ → ℕ → Eoi
  outb : ℕ → ℕ → Eoi

-- The comparison `jl` is on a signed byte.
pub send_eoi : ℕ → Kernel → List Eoi
send_eoi intno k =
    if k.ioapic_initialized || intno == 0 && k.lapic_present
    then movl ((k.lapic_base_register + 0xb0) % 2 ^ 32) 0 ∷ []
    else if ltb ((intno + 2 ^ 7) % 2 ^ 8) (2 ^ 7 + 8)
    then outb 0x20 0x20 ∷ []
    else outb 0xa0 0x20 ∷ outb 0x20 0x20 ∷ []

-- `++` on an `int`.
abbrev pub increment : (ℕ → ℕ) → ℕ → ℕ → ℕ
increment f i = update f i ((f i + 1) % 2 ^ 32)

-- `a >= b` on 32 bits as signed integers.
abbrev pub signed_ge : ℕ → ℕ → Bool
signed_ge a b = leb ((b + 2 ^ 31) % 2 ^ 32) ((a + 2 ^ 31) % 2 ^ 32)

abbrev pub period : Kernel → ℕ
period k = if k.lapic_present then 1000 * k.lapic_calibration_tick % 2 ^ 32 else pit_hz

-- The branch of a timer interrupt; `stack` is what the array `s` of 20 bytes holds before.
unfoldable pub timer_interrupt : Bytes → ℕ → Kernel → Kernel
timer_interrupt stack cpu k =
    let ticked = record k { sched_tick = increment k.sched_tick cpu } in
    let counter = increment k.timer_counter cpu in
    let seconds = increment k.seconds cpu in
    let s = string_at 20 0 (itoa_base (seconds cpu) 0 10 false stack) in
    if k.lapic_calibration_mode
    then record ticked { lapic_calibration_tick = (k.lapic_calibration_tick + 1) % 2 ^ 32 }
    else if signed_ge (counter cpu) (period k)
    then record ticked {
      timer_counter = update counter cpu 0;
      seconds = seconds;
      driver = record k.driver { screen = print_vga_fixed s 140 cpu k.driver.screen };
    }
    else record ticked { timer_counter = counter }

-- `cpu` is `CUR_CPU` and `code_nr` the field of the frame; a keyboard interrupt reads `scan_code`
-- from the port.
pub common_interrupt_handler : Bytes → (ℕ → ℕ) → ℕ → ℕ → ℕ → Kernel → Kernel × List Eoi
common_interrupt_handler stack beyond scan_code cpu code_nr k =
    let k' =
      if code_nr == 0
      then timer_interrupt stack cpu k
      else if code_nr == 2
      then record k { driver = keyboard_handle_interrupt beyond scan_code k.driver }
      else k in
    (k', send_eoi code_nr k')
