-- ===== src/Setup32/Gates.antt =====
-- setup32.c: the interrupt descriptor table behind `initializeIDT32`.
use xis.Prelude.{
  ℕ, zero, suc, ◌+◌, ◌-◌, ◌*◌, ◌%◌, ◌^◌, ◌<◌, ◌≡◌, arith, ◌==◌, ◌||◌, ◌&&◌, Bool, leb, ltb,
  if◌then◌else◌,
}
use xis.Prelude.Maps.{update}
use xis.Setup32.{
  IdtEntry, Idt, zero_idt_entry, interrupt_gate, trap_gate, Handlers, interrupt_gates, trap_gates,
  trap_numbers, initialize_idt32,
}
use xis.Interrupt.{InterruptTable, entry_low}
use xis.Interrupt.Redirect.{vector_lem}

abbrev pub offset_of : IdtEntry → ℕ
offset_of e = e.offset_low + e.offset_high * 2 ^ 16

-- The numbers that have a trap handler.
abbrev pub is_trap : ℕ → Bool
is_trap v = ltb v 15 || (leb 16 v && ltb v 20) || v == 30

interrupt_gates_lem :
    (n i : ℕ) (h : Handlers) (idt : Idt) (v : ℕ)
    → interrupt_gates n i h idt v ≡ (
        if leb (32 + i) v && ltb v (32 + i + n)
        then interrupt_gate (h.irq_handler (v - 32))
        else idt v)
unfolding interrupt_gates
interrupt_gates_lem zero i h idt v = ground arith
interrupt_gates_lem (suc n) i h idt v = ground (
  arith,
  interrupt_gates_lem n (i + 1) h (update idt (32 + i) (interrupt_gate (h.irq_handler i))) v,
)

trap_gates_lem :
    (h : Handlers) (idt : Idt) (v : ℕ)
    → trap_gates trap_numbers h idt v ≡ (if is_trap v then trap_gate (h.trap_handler v) else idt v)
unfolding trap_gates
trap_gates_lem h idt v = ground arith

-- After `initializeIDT32`, a vector from 32 to 47 has the interrupt gate of the
-- handler of the same number less 32, a processor exception that has a handler and the system call
-- vector 128 have their trap gate, and any other vector has no gate.
pub initialize_idt32_lem :
    (h : Handlers) (v : ℕ)
    → initialize_idt32 h v ≡ (
        if leb 32 v && ltb v 48
        then interrupt_gate (h.irq_handler (v - 32))
        else if v == 128
        then trap_gate (h.sys_call_handler 128)
        else if is_trap v
        then trap_gate (h.trap_handler v)
        else zero_idt_entry)
unfolding initialize_idt32
initialize_idt32_lem h v = ground (
  arith,
  trap_gates_lem h (interrupt_gates 16 0 h (λ _. zero_idt_entry)) v,
  interrupt_gates_lem 16 0 h (λ _. zero_idt_entry) v,
)

-- A gate's offset of 32 bits is the one the processor puts together.
pub gate_offset :
    (o : ℕ) → o < 2 ^ 32 → (offset_of (interrupt_gate o) ≡ o) × (offset_of (trap_gate o) ≡ o)
gate_offset o l = (omega arith, omega arith)

-- The vector that `ioapic_setisa_irqs` gives to an input `k` below 15 has the gate of
-- `irq_handler` of number `k + 1`; the vector of input 15 has no gate.
pub initialize_idt32-entry_low :
    (h : Handlers) (t : InterruptTable) (k : ℕ)
    → k < 16
    → initialize_idt32 h (entry_low t k % 2 ^ 8)
      ≡ (if k == 15 then zero_idt_entry else interrupt_gate (h.irq_handler (k + 1)))
initialize_idt32-entry_low h t k l =
    let i : 33 + k - 32 ≡ k + 1 = omega arith in
    rw (vector_lem k t l, initialize_idt32_lem h (33 + k), i) (ground arith)
