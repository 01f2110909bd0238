-- ===== src/Debug.antt =====
-- debug.c: `printf` and its buffer.
use xis.Prelude.Maps.{update}
use xis.Prelude.{ℕ, ◌+◌, ◌%◌, ◌^◌, List, [], ◌∷◌, leb, ◌==◌, if◌then◌else◌}
use xis.Util.{Bytes, string_at}
use xis.Util.Format.{Scan, format_loop}
use xis.Vga.{Vga, print_vga}
pub mod Buffer
pub mod Message
mod Tests

abbrev pub debug_buffer_size : ℕ
debug_buffer_size = 4096

-- The bytes from `kernel_debug_buffer` on, the offset of `cur_debug_mem` in them, and the screen.
pub record Debug : Type 0 where
  pub buffer : Bytes
  pub cur_debug_mem : ℕ
  pub debug_level_for_vga : ℕ
  pub screen : Vga

-- `print_vga(cur_debug_mem)`, if the level is high enough.
abbrev pub show : ℕ → Debug → Debug
show level d =
    if leb d.debug_level_for_vga level
    then record d {
      screen = print_vga (string_at (debug_buffer_size + 1) d.cur_debug_mem d.buffer) d.screen;
    }
    else d

-- The branch at the end of the buffer.
abbrev pub start_again : ℕ → Debug → Debug
start_again level d =
    record (show level (record d { buffer = update d.buffer debug_buffer_size 0 })) {
      cur_debug_mem = 0;
    }

abbrev pub put : ℕ → ℕ → Debug → ℕ × Debug
put addr ch d = (addr + 1, record d { buffer = update d.buffer addr (ch % 256) })

-- WRITE_TO_BUF; `addr` is an offset too.
pub write_to_buf : ℕ → ℕ → ℕ × Debug → ℕ × Debug
write_to_buf level ch (addr, d) =
    if addr == 4095 then put 0 ch (start_again level d) else put addr ch d

pub write_all : ℕ → List ℕ → ℕ × Debug → ℕ × Debug
write_all level [] s = s
write_all level (ch ∷ l) s = write_all level l (write_to_buf level ch s)

-- What `printf` does with the bytes that the loop over the format writes.
pub printf_text : ℕ → List ℕ → Debug → Debug
printf_text level text d =
    let (buf, d') = write_to_buf level 0 (write_all level text (d.cur_debug_mem, d)) in
    record (show level d') { cur_debug_mem = buf }

-- The loop over the format is that of `sprintf`; `s` has its variables.
pub printf : ℕ → ℕ → Scan → Bytes → Debug → Debug
printf level fmt s m d = printf_text level (format_loop (2 ^ 32) m fmt s) d
