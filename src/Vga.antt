-- ===== src/Vga.antt =====
-- system.c: output to the text screen, 25 rows of 80 cells of two bytes.
use xis.Prelude.{ℕ, ◌+◌, ◌-◌, ◌*◌, ◌/◌, ◌%◌, List, [], ◌∷◌, ltb, leb, ◌==◌, if◌then◌else◌}
mod Bounds
mod Text
mod Tests

-- Byte offsets are taken from VIDEO_VIRT_BUFFER. A string is the list of its bytes before the NUL.
pub record Vga : Type 0 where
  pub mem : ℕ → ℕ
  pub ptr : ℕ

abbrev pub row_bytes : ℕ
row_bytes = 160

abbrev pub screen_bytes : ℕ
screen_bytes = 160 * 25

-- The high byte of `(0xF << 8) | *c`: a `char` from 128 on is negative and brings ones.
abbrev pub attribute : ℕ → ℕ
attribute c = if ltb c 128 then 0x0f else 0xff

-- A 16-bit store, low byte first.
abbrev pub put_cell : (ℕ → ℕ) → ℕ → ℕ → ℕ → ℕ
put_cell mem off c i = if i == off then c else if i == off + 1 then attribute c else mem i

-- `vga_buf_ptr` moves by shorts, hence the division and the factor.
abbrev pub newline : ℕ → ℕ
newline off = off + (row_bytes - off % row_bytes) / 2 * 2

pub print_vga : List ℕ → Vga → Vga
print_vga [] v = v
print_vga (c ∷ s) v =
    let skip = print_vga s (record v { ptr = newline v.ptr }) in
    let write = print_vga s (record { mem = put_cell v.mem v.ptr c; ptr = v.ptr + 2 }) in
    if c == b'\n' then skip else if leb screen_bytes v.ptr then v else write

-- `p` is the byte offset of the cell to write; `col` and `row` are counted along.
pub print_fixed_loop : List ℕ → ℕ → ℕ → ℕ → (ℕ → ℕ) → ℕ → ℕ
print_fixed_loop [] p col row mem = mem
print_fixed_loop (c ∷ s) p col row mem =
    let rest =
      print_fixed_loop s (p + 2) (if col + 2 == row_bytes then 0 else col + 2)
        (if col + 2 == row_bytes then row + 1 else row) (put_cell mem p c) in
    if ltb 25 row then mem else rest

unfoldable pub print_vga_fixed : List ℕ → ℕ → ℕ → (ℕ → ℕ) → ℕ → ℕ
unfolding print_fixed_loop
print_vga_fixed s col row mem = print_fixed_loop s (col + row * row_bytes) col row mem
