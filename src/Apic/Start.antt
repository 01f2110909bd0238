-- ===== src/Apic/Start.antt =====
-- apic.c: `init_lapic` maps the registers and gives the clock its period.
use Prim.Native.Nat.{bit_or}
use xis.Prelude.{
  ℕ, ◌+◌, ◌-◌, ◌*◌, ◌/◌, ◌%◌, ◌^◌, ◌≤◌, ◌<◌, ◌≡◌, refl, ap, ◌∙◌, true, false, arith, ==_refl, ◌&&◌,
  leb, ltb, if◌then◌else◌, Option, some, List,
}
use xis.Page32.{Layout, kernel_virt_addr, pte_write}
use xis.Page32.Walk.{walk, IsLayout, IsKernelDir}
use xis.Page32.Map.{mapped, map_kernel_lem}
use xis.Setup32.Dispatch.{Kernel, period}
use xis.Setup32.Dispatch.Ticks.{interrupts, timer_count, interrupts_lem}
use xis.Apic.{
  Apic, Around, lapic_spurious_reg, lapic_id_reg, shift_24, calibrate_lapic_timer, use_lapic,
  init_lapic, kernel_flags, lapic_write_register,
}
use xis.Apic.Calibrate.{Counted, interrupts-Counted}

-- Behind the calibration the clocks are as before and the period is that of the interrupts counted.
record Calibrated (n : ℕ) (s s' : Apic) : Type 0 where
  pub counted : Counted n s.kernel s'.kernel
  pub mode : s'.kernel.lapic_calibration_mode ≡ false
  pub enabled : s'.lapic_timer_enabled ≡ true
  pub words : s'.words ≡ s.words

calibrate-Calibrated :
    (o : Around) (arrived : List (ℕ × ℕ)) (s : Apic)
    → s.kernel.lapic_calibration_tick < 2 ^ 32
    → Calibrated (timer_count arrived) s (calibrate_lapic_timer o arrived s)
unfolding calibrate_lapic_timer
calibrate-Calibrated o arrived s h =
    let k = record s.kernel { lapic_calibration_mode = true } in
    let c = interrupts-Counted o.stack o.beyond o.cpu arrived k refl h in
    record {
      counted = record {
        tick = c.tick;
        counters = c.counters;
        seconds = c.seconds;
        present = c.present;
        base = c.base;
        small = c.small;
      };
      mode = refl;
      enabled = refl;
      words = refl;
    }

-- The page that is mapped to itself, in the reading of addresses.
abbrev pub with_registers : ℕ → (ℕ → Option ℕ) → ℕ → Option ℕ
with_registers base read u = if leb base u && ltb u (base + 4096) then some u else read u

registers_mapped :
    (eax u : ℕ) (read : ℕ → Option ℕ)
    → let base = eax / 4096 * 4096 in
      mapped
        ((base + 4096 + 4095) / 4096 - base / 4096)
        (base / 4096 * 4096)
        (base / 4096 * 4096)
        read
        u
      ≡ with_registers base read u
registers_mapped eax u read =
    let base = eax / 4096 * 4096 in
    let one : (base + 4096 + 4095) / 4096 - base / 4096 ≡ 1 = omega arith in
    let aligned : base / 4096 * 4096 ≡ base = omega arith in rw (one, aligned) (ground arith)

-- The clock behind a calibration that counted.
clock :
    (o : Around) (n : ℕ) (later : List (ℕ × ℕ)) (k k' : Kernel)
    → Counted n k k'
    → k'.lapic_calibration_mode ≡ false
    → k.lapic_present ≡ true
    → k.lapic_calibration_tick ≡ 0
    → k.timer_counter o.cpu < 1000 * n
    → 1000 * n < 2 ^ 31
    → k.seconds o.cpu < 2 ^ 32
    → ((i : ℕ) → k.sched_tick i < 2 ^ 32)
    → (interrupts o.stack o.beyond o.cpu later k').seconds o.cpu
      ≡ (k.seconds o.cpu + (k.timer_counter o.cpu + timer_count later) / (1000 * n)) % 2 ^ 32
clock o n later k k' c m p z few small sec ticks =
    let cpu = o.cpu in
    let tick : k'.lapic_calibration_tick ≡ n = omega (arith, c.tick, z) in
    let same : 1000 * k'.lapic_calibration_tick % 2 ^ 32 ≡ 1000 * n = rw tick (omega arith) in
    let per : period k' ≡ 1000 * n = rw (c.present, p) same in
    let counter : k'.timer_counter cpu ≡ k.timer_counter cpu =
      ap (λ (f : ℕ → ℕ). f cpu) c.counters in
    let second : k'.seconds cpu ≡ k.seconds cpu = ap (λ (f : ℕ → ℕ). f cpu) c.seconds in
    let run =
      interrupts_lem o.stack o.beyond cpu cpu later k'
        (m, rw (counter, per) few, rw per small, rw second sec, c.small ticks cpu) in
    run.1 ∙ rw (==_refl cpu, second, counter, per) refl

-- For a shared directory of the kernel apart from the tables, a register 0x1b whose address is one
-- of the kernel and 12 KB or more below 4 GB, a first calibration in which `n` timer interrupts
-- arrive, not none and fewer than `2 ^ 31 / 1000`, and 32-bit clocks of which the processor's counter is below
-- the period: `init_lapic` returns, with the local APIC present and its timer enabled; the page of
-- the registers is mapped to itself, every other kernel address reads as before, and the directory
-- is one of the kernel; and from then on, over any sequence of interrupts, the processor's seconds
-- advance by one for each `1000 * n` timer interrupts, those of the calibration not among them.
pub init_lapic_lem :
    (y : Layout) (o : Around) (eax : ℕ) (device : ℕ → ℕ) (arrived later : List (ℕ × ℕ)) (s : Apic)
    → IsLayout y y.master_kernel_pg_dir
    → IsKernelDir y y.master_kernel_pg_dir s.words
    → kernel_virt_addr ≤ eax
    → eax + 12288 ≤ 2 ^ 32
    → s.kernel.lapic_calibration_tick ≡ 0
    → s.kernel.timer_counter o.cpu < 1000 * timer_count arrived
    → 1000 * timer_count arrived < 2 ^ 31
    → s.kernel.seconds o.cpu < 2 ^ 32
    → ((i : ℕ) → s.kernel.sched_tick i < 2 ^ 32)
    → let shared = y.master_kernel_pg_dir in
      let total = s.kernel.timer_counter o.cpu + timer_count later in
      (s' : Apic) × (init_lapic y o true eax device arrived s ≡ some s')
      × (s'.kernel.lapic_present ≡ true)
      × (s'.lapic_timer_enabled ≡ true)
      × IsKernelDir y shared s'.words
      × ((u : ℕ)
          → kernel_virt_addr ≤ u
          → u < 2 ^ 32
          → walk s'.words shared u ≡ with_registers (eax / 4096 * 4096) (walk s.words shared) u)
      × ((interrupts o.stack o.beyond o.cpu later s'.kernel).seconds o.cpu
          ≡ (s.kernel.seconds o.cpu + total / (1000 * timer_count arrived)) % 2 ^ 32)
unfolding init_lapic use_lapic
init_lapic_lem y o eax device arrived later s lay dir low high z few small sec ticks =
    let base = eax / 4096 * 4096 in
    let (m, ran, dir', reads) =
      map_kernel_lem y o.cpu pte_write kernel_flags lay (omega arith) base base 4096 s.words dir
        refl (omega arith) (omega arith) (omega arith) in
    let spurious = bit_or (device ((base + lapic_spurious_reg) % 2 ^ 32)) 0x100 in
    let ready : Apic = lapic_write_register lapic_spurious_reg spurious (record {
      kernel = record s.kernel { lapic_base_register = base; lapic_present = true };
      words = m;
      lapic_id = shift_24 (device ((base + lapic_id_reg) % 2 ^ 32));
      lapic_timer_enabled = s.lapic_timer_enabled;
      events = s.events;
    }) in
    let s' = calibrate_lapic_timer o arrived ready in
    let c = calibrate-Calibrated o arrived ready (omega (arith, z)) in
    (
      s',
      rw ran refl,
      c.counted.present,
      c.enabled,
      rw c.words dir',
      λ u a b.
          rw c.words (reads u a b ∙ registers_mapped eax u (walk s.words y.master_kernel_pg_dir)),
      clock o (timer_count arrived) later ready.kernel s'.kernel c.counted c.mode refl z few small
          sec ticks,
    )
