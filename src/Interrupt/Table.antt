-- ===== src/Interrupt/Table.antt =====
-- interrupt.c: the table behind `interrupts_init` and `interrupt_set_override`.
use xis.Prelude.{ℕ, zero, suc, ◌+◌, ◌≡◌, true, ◌==◌, ◌&&◌, leb, ltb, if◌then◌else◌, arith}
use xis.Prelude.Maps.{update}
use xis.Interrupt.{
  Interrupt, InterruptTable, irq_pol_active_high, irq_trigger_mode_edge, init_loop, interrupts_init,
  interrupt_set_override,
}

abbrev pub isa : InterruptTable → ℕ → Interrupt
isa t i = record (t i) {
  orig_irq = i;
  bus = 0;
  gsi = i;
  polarity = irq_pol_active_high;
  trigger = irq_trigger_mode_edge;
}

init_loop_lem :
    (n i : ℕ) (t : InterruptTable) (j : ℕ)
    → init_loop n i t j ≡ (if leb i j && ltb j (i + n) then isa t j else t j)
unfolding init_loop
init_loop_lem zero i t j = ground arith
init_loop_lem (suc n) i t j = ground (arith, init_loop_lem n (i + 1) (update t i (isa t i)) j)

-- `interrupts_init` maps each of the sixteen ISA interrupts to the input of the same number, edge
-- triggered and active high, and leaves `overriden` and the other entries alone.
pub init_isa :
    (t : InterruptTable) (j : ℕ) → interrupts_init t j ≡ (if ltb j 16 then isa t j else t j)
unfolding interrupts_init
init_isa t j = ground (arith, init_loop_lem 16 0 t j)

-- An override moves the source interrupt to another input: the entry of the source is marked, the
-- entry of the input has the source, the bus and the polarity and trigger mode, where 0 stands for
-- the ISA default. With both numbers equal nothing is marked or moved. No other entry changes.
pub override_lem :
    (bus source gsi polarity trigger : ℕ) (t : InterruptTable) (j : ℕ)
    → interrupt_set_override bus source gsi polarity trigger t j ≡ (
        if j == gsi
        then record {
          orig_irq = if source == gsi then (t gsi).orig_irq else source;
          bus = bus;
          gsi = (t gsi).gsi;
          overriden = (t gsi).overriden;
          polarity = if polarity == 0 then irq_pol_active_high else polarity;
          trigger = if trigger == 0 then irq_trigger_mode_edge else trigger;
        }
        else if j == source
        then record (t source) { overriden = true }
        else t j)
unfolding interrupt_set_override
override_lem bus source gsi polarity trigger t j = ground arith
