-- ===== src/Vga/Bounds.antt =====
-- system.c: which bytes the printing functions can change.
use xis.Prelude.{◌⊎◌, ℕ, ◌+◌, ◌*◌, ◌%◌, ◌≤◌, ◌<◌, ◌≡◌, refl, List, [], ◌∷◌, arith}
use xis.Vga.{Vga, screen_bytes, newline, put_cell, print_vga, print_fixed_loop, print_vga_fixed}

-- What `print_vga` leaves behind the next character, a newline or not.
abbrev pub skipped : Vga → Vga
skipped v = record v { ptr = newline v.ptr }

abbrev pub written : ℕ → Vga → Vga
written c v = record { mem = put_cell v.mem v.ptr c; ptr = v.ptr + 2 }

pub print_vga-ptr :
    (s : List ℕ) (v : Vga)
    → v.ptr % 2 ≡ 0
    → (v.ptr ≤ (print_vga s v).ptr) × ((print_vga s v).ptr % 2 ≡ 0)
unfolding print_vga
print_vga-ptr [] v e = omega arith
print_vga-ptr (c ∷ s) v e =
    ground (
      arith,
      print_vga-ptr s (skipped v) (omega arith),
      print_vga-ptr s (written c v) (omega arith),
    )

-- `print_vga` changes no byte behind the screen.
print_vga_in_screen :
    (s : List ℕ) (v : Vga) (i : ℕ)
    → v.ptr % 2 ≡ 0
    → screen_bytes ≤ i
    → (print_vga s v).mem i ≡ v.mem i
unfolding print_vga
print_vga_in_screen [] v i e h = refl
print_vga_in_screen (c ∷ s) v i e h = ground (
  arith,
  print_vga_in_screen s (skipped v) i (omega arith) h,
  print_vga_in_screen s (written c v) i (omega arith) h,
)

-- It writes at or behind the pointer only: text that is on the screen stays.
pub print_vga_keeps : (s : List ℕ) (v : Vga) (i : ℕ) → i < v.ptr → (print_vga s v).mem i ≡ v.mem i
unfolding print_vga
print_vga_keeps [] v i h = refl
print_vga_keeps (c ∷ s) v i h = ground (
  arith,
  print_vga_keeps s (skipped v) i (omega arith),
  print_vga_keeps s (written c v) i (omega arith),
)

-- Once the pointer has passed the last row, nothing is printed any more: there is no scrolling.
print_vga_full :
    (s : List ℕ) (v : Vga) (i : ℕ) → screen_bytes ≤ v.ptr → (print_vga s v).mem i ≡ v.mem i
unfolding print_vga
print_vga_full [] v i h = refl
print_vga_full (c ∷ s) v i h = ground (arith, print_vga_full s (skipped v) i (omega arith))

pub print_fixed_loop_bounds :
    (s : List ℕ) (p col row : ℕ) (mem : ℕ → ℕ) (i : ℕ)
    → p ≡ col + row * 160
    → col < 160
    → col % 2 ≡ 0
    → (i < p) ⊎ (26 * 160 ≤ i)
    → print_fixed_loop s p col row mem i ≡ mem i
unfolding print_fixed_loop
print_fixed_loop_bounds [] p col row mem i e c ev h = refl
print_fixed_loop_bounds (x ∷ s) p col row mem i e c ev h = ground (
  arith,
  print_fixed_loop_bounds s (p + 2) 0 (row + 1) (put_cell mem p x) i,
  print_fixed_loop_bounds s (p + 2) (col + 2) row (put_cell mem p x) i,
)

-- Started on a cell of some row, `print_vga_fixed` changes no byte in front of its start and none
-- from row 26 on; row 25 is the one behind the last of the screen.
print_vga_fixed_bounds :
    (s : List ℕ) (col row : ℕ) (mem : ℕ → ℕ) (i : ℕ)
    → col < 160
    → col % 2 ≡ 0
    → (i < col + row * 160) ⊎ (26 * 160 ≤ i)
    → print_vga_fixed s col row mem i ≡ mem i
unfolding print_vga_fixed
print_vga_fixed_bounds s col row mem i c ev h =
    print_fixed_loop_bounds s (col + row * 160) col row mem i refl c ev h
