-- ===== src/Debug/Tests.antt =====
-- debug.c: a run of `printf` at the end of its buffer, and the theorem there.
use xis.Prelude.{ℕ, ◌<◌, ◌≡◌, ◌⊎◌, ◌+◌, refl, [], ◌∷◌, ◌++◌, length, ◌==◌, if◌then◌else◌, arith}
use xis.Debug.{Debug, printf, printf_text, write_all, write_to_buf}
use xis.Debug.Buffer.{printf_bounds}
use xis.Debug.Message.{printf_lem}
use xis.Util.{Bytes}
use xis.Util.Digits.{width}
use xis.Util.Hex.{numeral}
use xis.Util.Format.{Scan, array}
use xis.Util.Format.Items.{Holds, signed, expand}
use xis.Vga.{print_vga}

-- The place before the last one, and a message that is not for the screen.
abbrev nearly_full : Debug
nearly_full = record {
  buffer = λ _. 7;
  cur_debug_mem = 4094;
  debug_level_for_vga = 3;
  screen = record { mem = λ _. 0; ptr = 0 };
}

-- The byte behind the buffer is set to 0, and its last byte is not used.
behind :
    ((printf_text 0 (65 ∷ 66 ∷ []) nearly_full).buffer 4096 ≡ 0)
    × ((printf_text 0 (65 ∷ 66 ∷ []) nearly_full).buffer 4095 ≡ 7)
    × ((printf_text 0 (65 ∷ 66 ∷ []) nearly_full).cur_debug_mem ≡ 2)
unfolding printf_text write_all write_to_buf
behind = (refl, refl, refl)

-- The format "%d" at 32, and its argument 5 at 16.
abbrev words : Bytes
words a = if a == 16 then 5 else if a == 32 then b'%' else if a == 33 then b'd' else 0

abbrev scan : Scan
scan = record { list = 16; str = λ _. 99; ptr = array }

-- A screen that shows everything.
abbrev empty : Debug
empty = record nearly_full { cur_debug_mem = 0; debug_level_for_vga = 0 }

printf_bounds_example :
    ((printf 0 32 scan words nearly_full).cur_debug_mem < 4096)
    × ((a : ℕ) → 4096 < a → (printf 0 32 scan words nearly_full).buffer a ≡ 7)
printf_bounds_example = printf_bounds 0 32 scan words nearly_full (omega arith)

printf_lem_example :
    let d' = printf 1 32 scan words empty in
    let text = expand (signed 5 ∷ []) in
    Holds d'.buffer 0 (text ++ 0 ∷ [])
    × ((a : ℕ) → (a < 0) ⊎ (0 + length text < a) → d'.buffer a ≡ 7)
    × (d'.cur_debug_mem ≡ 0 + length text + 1)
    × (d'.screen ≡ print_vga text empty.screen)
unfolding numeral width
printf_lem_example =
    printf_lem (signed 5 ∷ []) 1 32 scan words empty (omega arith) (omega arith, tt)
      (refl, (refl, (refl, tt))) (refl, (refl, (refl, (refl, tt)))) (omega arith)
