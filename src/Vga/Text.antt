-- ===== src/Vga/Text.antt =====
-- system.c: the printed characters stand in consecutive cells.
use xis.Prelude.{
  ℕ, zero, suc, ◌+◌, ◌*◌, ◌%◌, ◌≤◌, ◌<◌, ◌≡◌, ◌≢◌, List, [], ◌∷◌, arith, length, get_or,
}
use xis.Vga.{Vga, screen_bytes, attribute, put_cell, print_vga, print_fixed_loop, print_vga_fixed}
use xis.Vga.Bounds.{written, print_vga_keeps, print_fixed_loop_bounds}

abbrev pub NoNewline : List ℕ → Type 0
NoNewline [] = Unit
NoNewline (c ∷ s) = (c ≢ b'\n') × NoNewline s

print_vga_step :
    (c : ℕ) (s : List ℕ) (v : Vga)
    → c ≢ b'\n'
    → v.ptr < screen_bytes
    → print_vga (c ∷ s) v ≡ print_vga s (written c v)
unfolding print_vga
print_vga_step c s v n h = ground arith

text-ptr :
    (s : List ℕ) (v : Vga)
    → NoNewline s
    → v.ptr + 2 * length s ≤ screen_bytes
    → (print_vga s v).ptr ≡ v.ptr + 2 * length s
unfolding print_vga
text-ptr [] v n h = omega arith
text-ptr (c ∷ s) v n h =
    rw (print_vga_step c s v n.0 (omega arith))
      (omega (arith, text-ptr s (written c v) n.1 (omega arith)))

-- Two cells apart, so that later characters leave both bytes of this one alone.
text-mem :
    (s : List ℕ) (v : Vga) (k : ℕ)
    → NoNewline s
    → v.ptr + 2 * length s ≤ screen_bytes
    → k < length s
    → ((print_vga s v).mem (v.ptr + 2 * k) ≡ get_or s k 0)
      × ((print_vga s v).mem (v.ptr + 2 * k + 1) ≡ attribute (get_or s k 0))
text-mem [] v k n h q = absurd (omega arith)
text-mem (c ∷ s) v zero n h q = rw (print_vga_step c s v n.0 (omega arith)) (
  ground (arith, print_vga_keeps s (written c v) (v.ptr + 2 * 0)),
  ground (arith, print_vga_keeps s (written c v) (v.ptr + 2 * 0 + 1)),
)
text-mem (c ∷ s) v (suc k) n h q = rw (print_vga_step c s v n.0 (omega arith)) (
    let e : v.ptr + 2 * suc k ≡ v.ptr + 2 + 2 * k = omega arith in
    rw e (text-mem s (written c v) k n.1 (omega arith) (omega arith)))

-- Text without a newline that fits the rest of the screen stands in the cells from the pointer on,
-- a character with its attribute to a cell, and moves the pointer behind it.
pub print_vga_text :
    (s : List ℕ) (v : Vga)
    → NoNewline s
    → v.ptr + 2 * length s ≤ screen_bytes
    → ((print_vga s v).ptr ≡ v.ptr + 2 * length s)
      × ((k : ℕ)
          → k < length s
          → ((print_vga s v).mem (v.ptr + 2 * k) ≡ get_or s k 0)
            × ((print_vga s v).mem (v.ptr + 2 * k + 1) ≡ attribute (get_or s k 0)))
print_vga_text s v n h = (text-ptr s v n h, λ k q. text-mem s v k n h q)

-- `print_vga_fixed` writes row 25, which is behind the screen: its test is `row > 25`.
print_vga_fixed_row_25 :
    (c : ℕ) (s : List ℕ) (col : ℕ) (mem : ℕ → ℕ)
    → col < 160
    → col % 2 ≡ 0
    → print_vga_fixed (c ∷ s) col 25 mem (screen_bytes + col) ≡ c
unfolding print_vga_fixed print_fixed_loop
print_vga_fixed_row_25 c s col mem h e = ground (
  arith,
  print_fixed_loop_bounds s (col + 25 * 160 + 2) 0 26 (put_cell mem (col + 25 * 160) c)
      (screen_bytes + col),
  print_fixed_loop_bounds s (col + 25 * 160 + 2) (col + 2) 25 (put_cell mem (col + 25 * 160) c)
      (screen_bytes + col),
)
