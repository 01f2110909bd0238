-- ===== src/Interrupt/Redirect.antt =====
-- interrupt.c: what `ioapic_setisa_irqs` leaves in the registers of the IOAPIC.
use xis.Prelude.{
  ℕ, zero, suc, ◌+◌, ◌*◌, ◌^◌, ◌%◌, ◌≤◌, ◌<◌, ◌≡◌, not, List, [], ◌∷◌, ◌==◌, ◌&&◌, leb, ltb,
  if◌then◌else◌, arith, Bool-cases, inl, inr,
}
use xis.Interrupt.{
  InterruptTable, Store, store8, store32, ioapic_write, entry_low, entry_high, skips, setisa_loop,
  ioapic_setisa_irqs,
}

-- The last word stored at `base + 0x10` while the last byte stored at `base` was `reg`; `selected`
-- is that byte and `old` the word before the stores.
pub register : ℕ → ℕ → ℕ → ℕ → List Store → ℕ
register base reg selected old [] = old
register base reg selected old (store8 a v ∷ l) =
    register base reg (if a == base then v else selected) old l
register base reg selected old (store32 a v ∷ l) =
    register base reg selected (if a == base + 0x10 && selected == reg then v else old) l

low_loop :
    (n i base lapic_id k selected old : ℕ) (t : InterruptTable)
    → i + n ≤ 16
    → register base (0x10 + k * 2) selected old (setisa_loop n i base lapic_id t)
      ≡ (if leb i k && ltb k (i + n) && not (skips t k) then entry_low t k else old)
unfolding register setisa_loop ioapic_write
low_loop zero i base lapic_id k selected old t h = ground arith
low_loop (suc n) i base lapic_id k selected old t h = elim (Bool-cases (skips t i)) [
  | inl y ↦ ground (arith, y, low_loop n (i + 1) base lapic_id k selected old t (omega arith))
  | inr m ↦ ground (
    arith,
    m,
    low_loop n (i + 1) base lapic_id k (0x11 + i * 2) (if i == k then entry_low t i else old) t
        (omega arith),
  )
]

high_loop :
    (n i base lapic_id k selected old : ℕ) (t : InterruptTable)
    → i + n ≤ 16
    → register base (0x11 + k * 2) selected old (setisa_loop n i base lapic_id t)
      ≡ (if leb i k && ltb k (i + n) && not (skips t k) then entry_high lapic_id else old)
unfolding register setisa_loop ioapic_write
high_loop zero i base lapic_id k selected old t h = ground arith
high_loop (suc n) i base lapic_id k selected old t h = elim (Bool-cases (skips t i)) [
  | inl y ↦ ground (arith, y, high_loop n (i + 1) base lapic_id k selected old t (omega arith))
  | inr m ↦ ground (
    arith,
    m,
    high_loop n (i + 1) base lapic_id k (0x11 + i * 2) (if i == k then entry_high lapic_id else old)
        t (omega arith),
  )
]

-- After `ioapic_setisa_irqs`, whatever the registers held, the two words of the redirection entry
-- of input `k` below 16 are the entry built from the table, unless the interrupt is overridden or
-- its source is 0: then both words are as before.
pub setisa_irqs_lem :
    (base lapic_id k selected low high : ℕ) (t : InterruptTable)
    → k < 16
    → (register base (0x10 + k * 2) selected low (ioapic_setisa_irqs base lapic_id t)
        ≡ (if skips t k then low else entry_low t k))
      × (register base (0x11 + k * 2) selected high (ioapic_setisa_irqs base lapic_id t)
          ≡ (if skips t k then high else entry_high lapic_id))
unfolding ioapic_setisa_irqs
setisa_irqs_lem base lapic_id k selected low high t h = (
  ground (arith, low_loop 16 0 base lapic_id k selected low t (omega arith)),
  ground (arith, high_loop 16 0 base lapic_id k selected high t (omega arith)),
)

-- The vector in the entry of input `k` below 16 is `33 + k`, one for each input and
-- above the 32 vectors of the processor's exceptions.
pub vector_lem : (k : ℕ) (t : InterruptTable) → k < 16 → entry_low t k % 2 ^ 8 ≡ 33 + k
vector_lem k t h = ground arith
