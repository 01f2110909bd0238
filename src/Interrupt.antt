-- ===== src/Interrupt.antt =====
-- interrupt.c and interrupt.h: the table of ISA interrupts and the programming of the IOAPIC.
use xis.Prelude.{
  ℕ, zero, suc, ◌+◌, ◌*◌, ◌^◌, ◌%◌, Bool, true, false, ◌||◌, List, [], ◌∷◌, ◌++◌, ◌==◌,
  if◌then◌else◌,
}
use xis.Prelude.Maps.{update}
mod Table
pub mod Redirect
mod Tests

-- `struct interrupt`; `overriden` is only ever 0 or 1.
pub record Interrupt : Type 0 where
  pub orig_irq : ℕ
  pub bus : ℕ
  pub gsi : ℕ
  pub overriden : Bool
  pub polarity : ℕ
  pub trigger : ℕ

-- `interrupts_cpu_0`, by index. An index from 24 on is behind the array.
abbrev pub InterruptTable : Type 0
InterruptTable = ℕ → Interrupt

abbrev pub irq_pol_active_high : ℕ
irq_pol_active_high = 1

abbrev pub irq_pol_active_low : ℕ
irq_pol_active_low = 3

abbrev pub irq_trigger_mode_edge : ℕ
irq_trigger_mode_edge = 1

abbrev pub irq_trigger_mode_level : ℕ
irq_trigger_mode_level = 3

-- The `for` of `interrupts_init`, with the rounds that are left; `overriden` is not assigned.
pub init_loop : ℕ → ℕ → InterruptTable → InterruptTable
init_loop zero i t = t
init_loop (suc n) i t = init_loop n (i + 1) (
    update t i (record (t i) {
      orig_irq = i;
      bus = 0;
      gsi = i;
      polarity = irq_pol_active_high;
      trigger = irq_trigger_mode_edge;
    }))

pub interrupts_init : InterruptTable → InterruptTable
interrupts_init t = init_loop 16 0 t

-- The assignments one after the other, as the indices may be equal.
pub interrupt_set_override : ℕ → ℕ → ℕ → ℕ → ℕ → InterruptTable → InterruptTable
interrupt_set_override bus source gsi polarity trigger t =
    let hide = update t source (record (t source) { overriden = true }) in
    let moved =
      if source == gsi then t else update hide gsi (record (hide gsi) { orig_irq = source }) in
    update moved gsi (record (moved gsi) {
      bus = bus;
      polarity = if polarity == 0 then irq_pol_active_high else polarity;
      trigger = if trigger == 0 then irq_trigger_mode_edge else trigger;
    })

-- The stores to the memory of the device, in order, by address.
pub data Store : Type 0 where
  store8 : ℕ → ℕ → Store
  store32 : ℕ → ℕ → Store

-- `data` is the word that the pointer is at, and `next` the one a byte further on.
pub ioapic_write : ℕ → ℕ → ℕ → ℕ → ℕ → List Store
ioapic_write base reg word next size =
    let both = store8 base reg ∷ store32 (base + 0x10) word ∷ store32 (base + 0x11) next ∷ [] in
    if size == 8 then both else store8 base reg ∷ store32 (base + 0x10) word ∷ []

abbrev pub lapic_lvt_timer_reg : ℕ
lapic_lvt_timer_reg = 0x320

-- The bytes of `struct ioapic_entry` as `low` and `high`: the vector has eight bits, the delivery
-- mode the next four; the destination mode, the status, the polarity, the remote bit, the trigger
-- and the mask follow with a bit each. The fields that are not named here are zero.
abbrev pub entry_vector : ℕ → ℕ
entry_vector i = (i + lapic_lvt_timer_reg + 1) % 2 ^ 8

abbrev pub entry_low : InterruptTable → ℕ → ℕ
entry_low t i =
    entry_vector i
    + (if (t i).polarity == irq_pol_active_low then 1 else 0) * 2 ^ 14
    + (if (t i).trigger == irq_trigger_mode_level then 1 else 0) * 2 ^ 16

abbrev pub entry_high : ℕ → ℕ
entry_high lapic_id = lapic_id % 2 ^ 8 * 2 ^ 24

-- The test under which the loop goes on with the next interrupt.
abbrev pub skips : InterruptTable → ℕ → Bool
skips t i = (t i).overriden || (t i).orig_irq == 0

-- The word behind `&e.high` is not read, since the size is 32; it is given as 0.
pub setisa_loop : ℕ → ℕ → ℕ → ℕ → InterruptTable → List Store
setisa_loop zero i base lapic_id t = []
setisa_loop (suc n) i base lapic_id t =
    let rest = setisa_loop n (i + 1) base lapic_id t in
    if skips t i
    then rest
    else ioapic_write base ((0x10 + i * 2) % 2 ^ 8) (entry_low t i) 0 32
      ++ (ioapic_write base ((0x11 + i * 2) % 2 ^ 8) (entry_high lapic_id) 0 32 ++ rest)

pub ioapic_setisa_irqs : ℕ → ℕ → InterruptTable → List Store
ioapic_setisa_irqs base lapic_id t = setisa_loop 16 0 base lapic_id t

-- `ioapic_initialized` behind the call, and the stores.
pub ioapic_init : ℕ → ℕ → InterruptTable → Bool × List Store
ioapic_init base lapic_id t = (true, ioapic_setisa_irqs base lapic_id t)
