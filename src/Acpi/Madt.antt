-- ===== src/Acpi/Madt.antt =====
-- acpi.c: `acpi_process_madt` on tables whose entries fill it exactly, and on one with an empty
-- entry.
use xis.Prelude.{
  ℕ, zero, suc, ◌+◌, ◌-◌, ◌%◌, ◌^◌, ◌<◌, ◌≡◌, refl, arith, none, List, [], ◌∷◌, ne→==,
}
use xis.Acpi.{Found, process_entry, madt_loop}

-- Entries of these lengths, none of them empty, stand one after the other from `p` on.
unfoldable pub IsMadt : (ℕ → ℕ) → ℕ → List ℕ → Type 0
IsMadt m p [] = Unit
IsMadt m p (n ∷ l) = (m (p + 1) ≡ n) × (0 < n) × IsMadt m (p + n) l

unfoldable pub total : List ℕ → ℕ
total [] = 0
total (n ∷ l) = n + total l

-- Each of the entries is processed once, in order.
pub process_all : (ℕ → ℕ) → ℕ → List ℕ → Found → Found
process_all m p [] a = a
process_all m p (n ∷ l) a = process_all m (p + n) l (process_entry m p a)

-- An entry of length 0 with bytes left keeps the loop where it is: it returns after no number of
-- rounds.
pub empty_entry_hangs :
    (r : ℕ) (m : ℕ → ℕ) (p remaining_bytes : ℕ) (a : Found)
    → m (p + 1) ≡ 0
    → p < 2 ^ 32
    → 0 < remaining_bytes
    → remaining_bytes < 2 ^ 32
    → madt_loop r m p remaining_bytes a ≡ none
unfolding madt_loop
empty_entry_hangs zero m p remaining_bytes a e b c d = refl
empty_entry_hangs (suc r) m p remaining_bytes a e b c d =
    let left : (remaining_bytes + 2 ^ 32 - 0) % 2 ^ 32 ≡ remaining_bytes = omega arith in
    let next : (p + 0) % 2 ^ 32 ≡ p = omega arith in
    rw (e, left, next, ne→== remaining_bytes 0 (λ x. omega arith))
      (empty_entry_hangs r m p remaining_bytes (process_entry m p a) e b c d)
