-- ===== src/Interrupt/Tests.antt =====
-- The theorems on interrupt.c at a board that moves the timer to input 2.
use xis.Prelude.{◌≡◌, false, arith, if◌then◌else◌}
use xis.Interrupt.{
  InterruptTable, interrupts_init, entry_low, entry_high, skips, ioapic_setisa_irqs,
}
use xis.Interrupt.Redirect.{register, setisa_irqs_lem}

abbrev blank : InterruptTable
blank _ = record { orig_irq = 0; bus = 0; gsi = 0; overriden = false; polarity = 0; trigger = 0 }

setisa_irqs_lem_example :
    let t = interrupts_init blank in
    (register 0xfec00000 0x12 0 7 (ioapic_setisa_irqs 0xfec00000 5 t)
      ≡ (if skips t 1 then 7 else entry_low t 1))
    × (register 0xfec00000 0x13 0 9 (ioapic_setisa_irqs 0xfec00000 5 t)
        ≡ (if skips t 1 then 9 else entry_high 5))
setisa_irqs_lem_example = setisa_irqs_lem 0xfec00000 5 1 0 7 9 (interrupts_init blank) (omega arith)
