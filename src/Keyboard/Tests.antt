-- ===== src/Keyboard/Tests.antt =====
-- keyboard.c: runs at fixed inputs, and the theorems at concrete states.
use xis.Prelude.{ℕ, ◌≡◌, refl, true, false, ◌&&◌, [], leb, arith, replicate}
use mathlib.Core.Bool.{xor}
use xis.Vga.{print_vga_fixed}
use xis.Ring.Inv.{IsValid}
use xis.Keyboard.{KeyboardState, table_read, default_case, scan_switch, kbd_process_scan_code}
use xis.Keyboard.Scan.{IsPlain, press_lem}
use xis.Keyboard.Driver.{Driver, cleared, keyboard_handle_interrupt}
use xis.Keyboard.Driver.Window.{Shows, remembered, handler_lem}

-- A linker that puts zeros behind the table, and one that puts nines.
abbrev zeros : ℕ → ℕ
zeros _ = 0

abbrev nines : ℕ → ℕ
nines _ = b'9'

abbrev shifted : KeyboardState
shifted = record cleared { lshift_down = true }

abbrev breaking : KeyboardState
breaking = record cleared { break_code = true }

-- 0x1c is the key of the letter a, 0x16 that of the digit 1, 0x05 that of F1.
a_IsPlain : IsPlain 0x1c
a_IsPlain = ground arith

f1_IsPlain : IsPlain 0x05
f1_IsPlain = ground arith

f7_IsPlain : IsPlain 0x83
f7_IsPlain = ground arith

upper_case_a : (kbd_process_scan_code zeros 0x1c shifted).0 ≡ b'A'
unfolding kbd_process_scan_code scan_switch default_case table_read xor
upper_case_a = refl

press_lem_example :
    ((kbd_process_scan_code zeros 0x1c shifted).0 ≡ b'A')
    × ((kbd_process_scan_code zeros 0x1c shifted).1 ≡ record shifted { prev_code = 0x1c })
unfolding table_read
press_lem_example = press_lem zeros 0x1c shifted a_IsPlain refl

abbrev started : Driver
started = record {
  kbd = cleared;
  ring = record { buffer = replicate 10 0; buffer_size = 10; cur_ptr = 0; len = 0 };
  screen = zeros;
  r = 0;
  s = replicate 7 0;
}

handler_lem_example :
    let k = (kbd_process_scan_code zeros 0x1c cleared).0 in
    let d = keyboard_handle_interrupt zeros 0x1c started in
    IsValid d.ring
    × (leb b'0' k && leb k b'z' ≡ true
        → Shows (remembered [] k) d.r d.s
          × (d.screen ≡ print_vga_fixed (remembered [] k) 130 0 zeros))
    × (leb b'0' k && leb k b'z' ≡ false → Shows [] d.r d.s × (d.screen ≡ zeros))
handler_lem_example = handler_lem zeros 0x1c started [] (omega arith) (ground arith)
