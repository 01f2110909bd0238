-- ===== src/Apic/Tests.antt =====
-- The theorem on apic.c at a concrete processor.
use xis.Prelude.{
  ℕ, ◌+◌, ◌*◌, ◌/◌, ◌%◌, ◌^◌, ◌≤◌, ◌<◌, ◌≡◌, inl, refl, true, false, some, List, [], ◌∷◌, replicate,
  arith,
}
use xis.Keyboard.Driver.{cleared}
use xis.Page32.{Layout, kernel_virt_addr}
use xis.Page32.Walk.{walk, IsLayout, IsKernelDir}
use xis.Setup32.Dispatch.Ticks.{interrupts, timer_count}
use xis.Apic.{Apic, Around, init_lapic}
use xis.Apic.Start.{with_registers, init_lapic_lem}

-- The tables in the order of kernel32.ld.
abbrev linked_at : Layout
linked_at = record {
  master_kernel_pg_dir = 0x80200000;
  kernel_pg_dir = 0x80201000;
  kernel_pg_table_0 = 0x80221000;
}

abbrev shared : ℕ
shared = linked_at.master_kernel_pg_dir

shared-IsLayout : IsLayout linked_at shared
shared-IsLayout = record {
  tables_aligned = refl;
  tables_high = omega arith;
  tables_fit = omega arith;
  apart = inl (omega arith);
}

abbrev booting : Apic
booting = record {
  kernel = record {
    sched_tick = λ _. 0;
    timer_counter = λ _. 0;
    seconds = λ _. 0;
    lapic_calibration_tick = 0;
    lapic_calibration_mode = false;
    lapic_present = false;
    ioapic_initialized = false;
    lapic_base_register = 0;
    driver = record {
      kbd = cleared;
      ring = record { buffer = replicate 10 0; buffer_size = 10; cur_ptr = 0; len = 0 };
      screen = λ _. 0;
      r = 0;
      s = replicate 7 0;
    };
  };
  words = λ _. 0;
  lapic_id = 0;
  lapic_timer_enabled = false;
  events = [];
}

booting-IsKernelDir : IsKernelDir linked_at shared booting.words
booting-IsKernelDir = record { linked = λ i l. inl refl; clean = λ i j l l' z. refl }

abbrev around : Around
around = record { stack = λ _. 0; beyond = λ _. 0; cpu = 0 }

-- Two interrupts of the timer while it is calibrated, and one later.
abbrev arrived : List (ℕ × ℕ)
arrived = (0, 0) ∷ (2, 0x1c) ∷ (0, 0) ∷ []

init_lapic_lem_example :
    (s : Apic) × (init_lapic linked_at around true 0xfee00900 (λ _. 0xff) arrived booting ≡ some s)
    × (s.kernel.lapic_present ≡ true)
    × (s.lapic_timer_enabled ≡ true)
    × IsKernelDir linked_at shared s.words
    × ((u : ℕ)
        → kernel_virt_addr ≤ u
        → u < 2 ^ 32
        → walk s.words shared u ≡ with_registers 0xfee00000 (walk booting.words shared) u)
    × ((interrupts (λ _. 0) (λ _. 0) 0 ((0, 0) ∷ []) s.kernel).seconds 0
        ≡ (0 + (0 + 1) / (1000 * timer_count arrived)) % 2 ^ 32)
unfolding timer_count
init_lapic_lem_example =
    init_lapic_lem linked_at around 0xfee00900 (λ _. 0xff) arrived ((0, 0) ∷ []) booting
      shared-IsLayout booting-IsKernelDir (omega arith) (omega arith) refl (omega arith)
      (omega arith) (omega arith) (λ i. omega arith)
