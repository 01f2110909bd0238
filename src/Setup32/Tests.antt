-- ===== src/Setup32/Tests.antt =====
-- The theorems on setup32.c at concrete tables and interrupts.
use xis.Prelude.{ℕ, ◌+◌, ◌*◌, ◌%◌, ◌^◌, ◌≡◌, false, refl, arith, replicate, List, [], ◌∷◌}
use xis.Interrupt.{InterruptTable, entry_low}
use xis.Keyboard.Driver.{cleared}
use xis.Setup32.{TssEntry, Handlers, initialize_idt32, interrupt_gate, trap_gate}
use xis.Setup32.Gates.{initialize_idt32_lem, initialize_idt32-entry_low}
use xis.Setup32.Dispatch.{Kernel}
use xis.Setup32.Dispatch.Ticks.{interrupts, timer_count, interrupts_lem}

abbrev no_tasks : ℕ → TssEntry
no_tasks _ = record { esp0 = 0; ss0 = 0 }

abbrev handlers : Handlers
handlers = record {
  irq_handler = λ i. 0xc0001000 + i * 16;
  trap_handler = λ i. 0xc0002000 + i * 16;
  sys_call_handler = λ _. 0xc0003000;
}

initialize_idt32_lem_example : initialize_idt32 handlers 14 ≡ trap_gate 0xc00020e0
initialize_idt32_lem_example = initialize_idt32_lem handlers 14

abbrev isa_table : InterruptTable
isa_table i = record {
  orig_irq = i;
  bus = 0;
  gsi = i;
  overriden = false;
  polarity = 1;
  trigger = 1;
}

initialize_idt32-entry_low_example :
    initialize_idt32 handlers (entry_low isa_table 1 % 2 ^ 8) ≡ interrupt_gate 0xc0001020
initialize_idt32-entry_low_example = initialize_idt32-entry_low handlers isa_table 1 (omega arith)

abbrev running : Kernel
running = record {
  sched_tick = λ _. 5;
  timer_counter = λ _. 1192;
  seconds = λ _. 41;
  lapic_calibration_tick = 0;
  lapic_calibration_mode = false;
  lapic_present = false;
  ioapic_initialized = false;
  lapic_base_register = 0xfee00000;
  driver = record {
    kbd = cleared;
    ring = record { buffer = replicate 10 0; buffer_size = 10; cur_ptr = 0; len = 0 };
    screen = λ _. 0;
    r = 0;
    s = replicate 7 0;
  };
}

abbrev presses : List (ℕ × ℕ)
presses = (2, 0x1c) ∷ (0, 0) ∷ (7, 0) ∷ []

interrupts_lem_example :
    let k' = interrupts (λ _. 0) (λ _. 0) 0 presses running in
    (k'.timer_counter 1 ≡ 1192) × (k'.seconds 1 ≡ 41) × (k'.sched_tick 0 ≡ 6)
unfolding timer_count
interrupts_lem_example =
    interrupts_lem (λ _. 0) (λ _. 0) 0 1 presses running
      (refl, omega arith, omega arith, omega arith, omega arith)
