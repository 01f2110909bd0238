-- ===== src/Acpi/Rsdp.antt =====
-- acpi.c: where `acpi_find_rsdp` looks.
use xis.Prelude.{
  ℕ, zero, suc, ◌+◌, ◌%◌, ◌^◌, ◌≤◌, ◌<◌, ◌≡◌, refl, arith, none, some, true, ◌==◌, leb, Bool-cases,
  inl, inr,
}
use xis.Util.{Bytes, strlen, strncmp}
use xis.Acpi.{kernel_virt_addr, find_loop, acpi_find_rsdp}

last_phase : (n : ℕ) (m : Bytes) (str cur end : ℕ) → find_loop n m str 2 cur end ≡ none
unfolding find_loop
last_phase zero m str cur end = refl
last_phase (suc n) m str cur end = refl

-- In phase 1 `end` stays; the address found is from `cur` to `end`.
find_loop_lem :
    (n : ℕ) (m : Bytes) (str cur end p : ℕ)
    → cur ≤ end
    → end + 1 < 2 ^ 32
    → find_loop n m str 1 cur end ≡ some p
    → (cur ≤ p) × (p ≤ end) × (strncmp m p str (strlen str m) ≡ 0)
unfolding find_loop
find_loop_lem zero m str cur end p b d e = ground arith
find_loop_lem (suc n) m str cur end p b d e =
    let next : (cur + 1) % 2 ^ 32 ≡ cur + 1 = omega arith in
    elim (Bool-cases (strncmp m cur str (strlen str m) == 0)) [
      | inl y ↦ ground (arith, y)
      | inr o ↦ elim (Bool-cases (leb end cur)) [
        | inl q ↦ ground (arith, o, q, last_phase n m str ((cur + 1) % 2 ^ 32) end)
        | inr q ↦
            let rest = find_loop_lem n m str (cur + 1) end p (ground (arith, q)) d in
            ground (arith, o, q, next, rest)
      ]
    ]

-- For an EBDA below 1 MB, an address that `acpi_find_rsdp` returns has the signature and is in the
-- BIOS area or one byte behind it, never in the EBDA: the first of the two phases is skipped.
pub acpi_find_rsdp_lem :
    (n : ℕ) (m : Bytes) (str ebda p : ℕ)
    → ebda < 2 ^ 20
    → acpi_find_rsdp n m str ebda ≡ some p
    → (kernel_virt_addr + 0xe0000 ≤ p)
      × (p ≤ kernel_virt_addr + 0x100000)
      × (strncmp m p str (strlen str m) ≡ 0)
unfolding acpi_find_rsdp find_loop
acpi_find_rsdp_lem zero m str ebda p l e = ground arith
acpi_find_rsdp_lem (suc n) m str ebda p l e =
    let past : leb ((ebda + 1024) % 2 ^ 32) ((ebda + kernel_virt_addr) % 2 ^ 32) ≡ true =
      ground arith in
    let rest = find_loop_lem n m str 0x800e0001 0x80100000 p (omega arith) (omega arith) in
    elim (Bool-cases (strncmp m 0x800e0000 str (strlen str m) == 0)) [
      | inl y ↦ ground (arith, y, past)
      | inr o ↦ ground (arith, o, past, rest)
    ]
