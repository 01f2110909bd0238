-- ===== src/Apic/Calibrate.antt =====
-- apic.c, `calibrate_lapic_timer`: the interrupts that arrive while it counts.
use xis.Prelude.{
  ℕ, suc, ◌+◌, ◌%◌, ◌^◌, ◌<◌, ◌≡◌, refl, ap, ◌∙◌, true, arith, ◌==◌, if◌then◌else◌, Bool-cases, inl,
  inr, List, [], ◌∷◌,
}
use xis.Util.{Bytes}
use xis.Keyboard.Driver.{Driver, keyboard_handle_interrupt}
use xis.Setup32.Dispatch.{Kernel, increment, timer_interrupt}
use xis.Setup32.Dispatch.Ticks.{
  interrupts, timer_count, handler-timer, handler-other, timer_count-suc, timer_count-same,
}

-- The clock of every processor is as before, and `n` interrupts of the timer have been counted.
pub record Counted (n : ℕ) (k k' : Kernel) : Type 0 where
  pub tick : k'.lapic_calibration_tick ≡ (k.lapic_calibration_tick + n) % 2 ^ 32
  pub counters : k'.timer_counter ≡ k.timer_counter
  pub seconds : k'.seconds ≡ k.seconds
  pub present : k'.lapic_present ≡ k.lapic_present
  pub base : k'.lapic_base_register ≡ k.lapic_base_register
  pub small : ((i : ℕ) → k.sched_tick i < 2 ^ 32) → (i : ℕ) → k'.sched_tick i < 2 ^ 32

abbrev counted_once : ℕ → Kernel → Kernel
counted_once cpu k = record k {
  sched_tick = increment k.sched_tick cpu;
  lapic_calibration_tick = (k.lapic_calibration_tick + 1) % 2 ^ 32;
}

calibrating :
    (stack : Bytes) (cpu : ℕ) (k : Kernel)
    → k.lapic_calibration_mode ≡ true
    → timer_interrupt stack cpu k ≡ counted_once cpu k
unfolding timer_interrupt
calibrating stack cpu k m = rw m refl

-- One interrupt of the timer before the others.
Counted-suc :
    (stack : Bytes) (cpu n : ℕ) (k k' : Kernel)
    → k.lapic_calibration_mode ≡ true
    → Counted n (timer_interrupt stack cpu k) k'
    → Counted (suc n) k k'
Counted-suc stack cpu n k k' m c =
    let k1 = timer_interrupt stack cpu k in
    let same = calibrating stack cpu k m in
    let tick : k1.lapic_calibration_tick ≡ (k.lapic_calibration_tick + 1) % 2 ^ 32 =
      ap (λ (t : Kernel). t.lapic_calibration_tick) same in
    record {
      tick = omega (arith, c.tick, tick);
      counters = c.counters ∙ ap (λ (t : Kernel). t.timer_counter) same;
      seconds = c.seconds ∙ ap (λ (t : Kernel). t.seconds) same;
      present = c.present ∙ ap (λ (t : Kernel). t.lapic_present) same;
      base = c.base ∙ ap (λ (t : Kernel). t.lapic_base_register) same;
      small = λ b.
          c.small
            (λ i. let here = ap (λ (t : Kernel). t.sched_tick i) same in ground (arith, here, b i));
    }

-- The keyboard's driver does not matter.
Counted_pressed :
    (n : ℕ) (k : Kernel) (d : Driver) (k' : Kernel)
    → Counted n (record k { driver = d }) k'
    → Counted n k k'
Counted_pressed n k d k' c = record {
  tick = c.tick;
  counters = c.counters;
  seconds = c.seconds;
  present = c.present;
  base = c.base;
  small = c.small;
}

pub interrupts-Counted :
    (stack : Bytes) (beyond : ℕ → ℕ) (cpu : ℕ) (l : List (ℕ × ℕ)) (k : Kernel)
    → k.lapic_calibration_mode ≡ true
    → k.lapic_calibration_tick < 2 ^ 32
    → Counted (timer_count l) k (interrupts stack beyond cpu l k)
unfolding interrupts timer_count
interrupts-Counted stack beyond cpu [] k m h = record {
  tick = omega arith;
  counters = refl;
  seconds = refl;
  present = refl;
  base = refl;
  small = λ b i. b i;
}
interrupts-Counted stack beyond cpu ((code_nr, scan_code) ∷ l) k m h =
    elim (Bool-cases (code_nr == 0)) [
      | inl e ↦
          let k1 = timer_interrupt stack cpu k in
          rw
            (
              handler-timer stack beyond scan_code cpu code_nr l k e,
              timer_count-suc code_nr scan_code l e,
            )
            (Counted-suc stack cpu (timer_count l) k (interrupts stack beyond cpu l k1) m (
              interrupts-Counted stack beyond cpu l k1
                (ap (λ (t : Kernel). t.lapic_calibration_mode) (calibrating stack cpu k m) ∙ m)
                (omega (
                  arith,
                  ap (λ (t : Kernel). t.lapic_calibration_tick) (calibrating stack cpu k m),
                ))))
      | inr e ↦
          let d =
            if code_nr == 2
            then keyboard_handle_interrupt beyond scan_code k.driver
            else k.driver in
          rw
            (
              handler-other stack beyond scan_code cpu code_nr l k e,
              timer_count-same code_nr scan_code l e,
            )
            (Counted_pressed (timer_count l) k d
              (interrupts stack beyond cpu l (record k { driver = d }))
              (interrupts-Counted stack beyond cpu l (record k { driver = d }) m h))
    ]
