-- ===== src/Acpi.antt =====
-- acpi.c: `acpi_find_rsdp`, the search for the root pointer, and `acpi_process_madt`, which takes
-- the IOAPICs and the interrupt overrides from the APIC table.
use xis.Prelude.{
  ℕ, zero, suc, ◌+◌, ◌-◌, ◌*◌, ◌/◌, ◌%◌, ◌^◌, Option, none, some, List, [], ◌∷◌, ◌++◌, ◌==◌, ◌&&◌,
  not, leb, ltb, if◌then◌else◌,
}
use xis.Util.{Bytes, strlen, strncmp}
use xis.Interrupt.{InterruptTable, interrupt_set_override}
pub mod Madt
pub mod Rsdp
mod Tests

-- A little-endian word of the memory.
abbrev pub read32 : (ℕ → ℕ) → ℕ → ℕ
read32 m p = m p + m (p + 1) * 2 ^ 8 + m (p + 2) * 2 ^ 16 + m (p + 3) * 2 ^ 24

-- The table of interrupts, and the calls of `ioapic_allocate` with their arguments, in order: id,
-- address and first input. What a call does to the page tables and the device is left out here; it
-- changes neither the table of interrupts nor the bytes of the APIC table.
pub record Found : Type 0 where
  pub table : InterruptTable
  pub ioapics : List (ℕ × ℕ × ℕ)

-- The `switch` on the entry at `p`; the types that are only printed change nothing.
pub process_entry : (ℕ → ℕ) → ℕ → Found → Found
process_entry m p a =
    if m p == 1
    then record a { ioapics = a.ioapics ++ (m (p + 2), read32 m (p + 4), read32 m (p + 8)) ∷ [] }
    else if m p == 2
    then record a {
      table =
          interrupt_set_override (m (p + 2)) (m (p + 3)) (read32 m (p + 4)) (m (p + 8) % 2 ^ 2)
            (m (p + 8) / 2 ^ 2 % 2 ^ 2) a.table;
    }
    else a

-- The `do` loop, with the rounds it is given; none when they run out.
pub madt_loop : ℕ → (ℕ → ℕ) → ℕ → ℕ → Found → Option Found
madt_loop zero m p remaining_bytes a = none
madt_loop (suc n) m p remaining_bytes a =
    let left = (remaining_bytes + 2 ^ 32 - m (p + 1)) % 2 ^ 32 in
    let rest = madt_loop n m ((p + m (p + 1)) % 2 ^ 32) left (process_entry m p a) in
    if left == 0 then some (process_entry m p a) else rest

-- The length is at byte 4 of the table, and the entries start at byte 44.
pub acpi_process_madt : ℕ → (ℕ → ℕ) → ℕ → Found → Option Found
acpi_process_madt rounds m madt a =
    madt_loop rounds m ((madt + 44) % 2 ^ 32) ((read32 m (madt + 4) + 2 ^ 32 - 44) % 2 ^ 32) a

abbrev pub kernel_virt_addr : ℕ
kernel_virt_addr = 0x80000000

-- The state at the top of the `while` loop: `phase`, `cur` and `end`; `str` is the address of
-- RSDPTR_STR. The address found, or none for `false` and when the rounds run out.
pub find_loop : ℕ → Bytes → ℕ → ℕ → ℕ → ℕ → Option ℕ
find_loop zero m str phase cur end = none
find_loop (suc n) m str phase cur end =
    let past = leb end cur in
    let start = past && phase == 0 in
    let phase' = if past then phase + 1 else phase in
    let cur' = if start then (0xe0000 + kernel_virt_addr) % 2 ^ 32 else cur in
    let end' = if start then (cur' + 0x20000) % 2 ^ 32 else end in
    let rest = find_loop n m str phase' ((cur' + 1) % 2 ^ 32) end' in
    if not (ltb phase 2)
    then none
    else if strncmp m cur' str (strlen str m) == 0
    then some cur'
    else rest

-- `ebda` is the address that the BIOS gave.
pub acpi_find_rsdp : ℕ → Bytes → ℕ → ℕ → Option ℕ
acpi_find_rsdp rounds m str ebda =
    find_loop rounds m str 0 ((ebda + kernel_virt_addr) % 2 ^ 32) ((ebda + 1024) % 2 ^ 32)
