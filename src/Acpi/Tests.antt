-- ===== src/Acpi/Tests.antt =====
-- The theorems on acpi.c at a table with one IOAPIC and one override, and at one with an empty
-- entry.
use xis.Prelude.{
  ℕ, suc, zero, ◌+◌, ◌-◌, ◌==◌, leb, if◌then◌else◌, ◌≡◌, refl, ◌≤◌, ◌<◌, ◌≢◌, arith, none, some, [],
  ◌∷◌, get_or, false,
}
use xis.Acpi.{Found, madt_loop, kernel_virt_addr, find_loop, acpi_find_rsdp}
use xis.Acpi.Rsdp.{acpi_find_rsdp_lem}
use xis.Util.{Bytes, strlen, strncmp}
use xis.Util.Strings.{strlen_lem}
use xis.Acpi.Madt.{empty_entry_hangs}

-- At 0: the length 66 at byte 4, an IOAPIC of 12 bytes at 44 and an override of 10 bytes at 56.
abbrev madt : ℕ → ℕ
madt a =
    if a == 4
    then 66
    else if leb a 43
    then 0
    else get_or
        (1 ∷ 12 ∷ 5 ∷ 0 ∷ 0 ∷ 0 ∷ 192 ∷ 254 ∷ 0 ∷ 0 ∷ 0 ∷ 0 ∷ 2 ∷ 10 ∷ 0 ∷ 0 ∷ 2 ∷ 0 ∷ 0 ∷ 0 ∷ 13
          ∷ 0 ∷ [])
        (a - 44) 0

abbrev nothing : Found
nothing = record {
  table =
      λ i. record { orig_irq = i; bus = 0; gsi = i; overriden = false; polarity = 1; trigger = 1 };
  ioapics = [];
}

empty_entry_hangs_example : madt_loop 1000 (λ _. 0) 44 8 nothing ≡ none
empty_entry_hangs_example =
    empty_entry_hangs 1000 (λ _. 0) 44 8 nothing refl (omega arith) (omega arith) (omega arith)

-- The string at 100, and the signature at the start of the BIOS area.
abbrev signed : Bytes
signed a =
    let text = 82 ∷ 83 ∷ 68 ∷ 32 ∷ 80 ∷ 84 ∷ 82 ∷ 32 ∷ [] in
    if leb 0x800e0000 a
    then get_or text (a - 0x800e0000) 0
    else if leb 100 a
    then get_or text (a - 100) 0
    else 0

nonzero : (j : ℕ) → j < 8 → signed (100 + j) ≢ 0
nonzero zero l = λ e. absurd (omega (arith, e))
nonzero (suc zero) l = λ e. absurd (omega (arith, e))
nonzero (suc (suc zero)) l = λ e. absurd (omega (arith, e))
nonzero (suc (suc (suc zero))) l = λ e. absurd (omega (arith, e))
nonzero (suc (suc (suc (suc zero)))) l = λ e. absurd (omega (arith, e))
nonzero (suc (suc (suc (suc (suc zero))))) l = λ e. absurd (omega (arith, e))
nonzero (suc (suc (suc (suc (suc (suc zero)))))) l = λ e. absurd (omega (arith, e))
nonzero (suc (suc (suc (suc (suc (suc (suc zero))))))) l = λ e. absurd (omega (arith, e))
nonzero (suc (suc (suc (suc (suc (suc (suc (suc j)))))))) l = absurd (omega arith)

strlen-signed : strlen 100 signed ≡ 8
strlen-signed = strlen_lem 8 100 signed (omega arith) nonzero refl

found_first : acpi_find_rsdp 1 signed 100 0x9fc00 ≡ some 0x800e0000
unfolding acpi_find_rsdp find_loop strncmp
found_first = rw strlen-signed refl

acpi_find_rsdp_lem_example :
    (kernel_virt_addr + 0xe0000 ≤ 0x800e0000)
    × (0x800e0000 ≤ kernel_virt_addr + 0x100000)
    × (strncmp signed 0x800e0000 100 (strlen 100 signed) ≡ 0)
acpi_find_rsdp_lem_example =
    acpi_find_rsdp_lem 1 signed 100 0x9fc00 0x800e0000 (omega arith) found_first
