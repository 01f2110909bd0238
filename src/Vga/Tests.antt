-- ===== src/Vga/Tests.antt =====
-- system.c, screen output: the theorems at a concrete screen.
use xis.Prelude.{ℕ, ◌+◌, ◌*◌, ◌<◌, ◌≡◌, refl, List, [], ◌∷◌, arith, get_or}
use xis.Vga.{Vga, attribute, print_vga}
use xis.Vga.Text.{print_vga_text}

abbrev hi : List ℕ
hi = b'h' ∷ b'i' ∷ []

abbrev blank : ℕ → ℕ
blank _ = 0

-- The last cell of the first row is next.
abbrev near_end : Vga
near_end = record { mem = blank; ptr = 158 }

two_rows : (print_vga (b'a' ∷ b'\n' ∷ b'b' ∷ []) near_end).mem 320 ≡ b'b'
unfolding print_vga
two_rows = refl

print_vga_text_example :
    ((print_vga hi near_end).ptr ≡ 162)
    × ((k : ℕ)
        → k < 2
        → ((print_vga hi near_end).mem (158 + 2 * k) ≡ get_or hi k 0)
          × ((print_vga hi near_end).mem (158 + 2 * k + 1) ≡ attribute (get_or hi k 0)))
print_vga_text_example = print_vga_text hi near_end (omega arith) (omega arith)
