-- ===== src/Keyboard/Driver.antt =====
-- keyboard.c: `keyboard_init` and `keyboard_handle_interrupt`, without the port accesses. The scan
-- code that the handler reads from port 0x60 is its argument.
use xis.Prelude.{
  ℕ, zero, suc, ◌+◌, ◌-◌, false, ◌&&◌, List, [], ◌∷◌, leb, ◌==◌, if◌then◌else◌, get_or, set,
}
use mathlib.Core.Option
use xis.Ring.{RingBuffer, ring_buffer_init, ring_buffer_put_elem}
use xis.Vga.{print_vga_fixed}
use xis.Keyboard.{KeyboardState, kbd_process_scan_code, special_key_code_start}
pub mod Window

-- The variables that the handler changes: `kbd_state`, `ring_buffer_kbd`, the screen, and the
-- static `r` and `s` of the handler.
pub record Driver : Type 0 where
  pub kbd : KeyboardState
  pub ring : RingBuffer
  pub screen : ℕ → ℕ
  pub r : ℕ
  pub s : List ℕ

abbrev pub keyboard_buffer_size : ℕ
keyboard_buffer_size = 10

abbrev pub cleared : KeyboardState
cleared = record {
  lshift_down = false;
  rshift_down = false;
  lctrl_down = false;
  rctrl_down = false;
  lalt_down = false;
  ralt_down = false;
  caps = false;
  break_code = false;
  break_nested_code = false;
  e0_code = false;
  e0_nested_code = false;
  e1_code = false;
  e1_nested_code = false;
  lwin_down = false;
  rwin_down = false;
  prev_code = 0;
}

-- `keyboard_init` on a driver whose static variables hold `r` and `s`.
pub keyboard_init : Driver → Driver
keyboard_init d = record d {
  kbd = cleared;
  ring = Option.get_or (ring_buffer_init keyboard_buffer_size) d.ring;
}

-- The handler ignores the result of `ring_buffer_put_elem`.
abbrev pub put_elem : RingBuffer → ℕ → RingBuffer
put_elem rb x = Option.get_or (ring_buffer_put_elem rb x) rb

abbrev pub put_key : RingBuffer → ℕ → RingBuffer
put_key rb key_code =
    put_elem (if leb special_key_code_start key_code then put_elem rb 0 else rb) key_code

-- The bytes of a `char` array before its NUL.
abbrev pub c_string : List ℕ → List ℕ
c_string [] = []
c_string (c ∷ s) = if c == 0 then [] else c ∷ c_string s

-- `for (i = 1; i < 6; i++) s[i-1] = s[i];`, with the rounds that are left.
pub shift_down : ℕ → ℕ → List ℕ → List ℕ
shift_down zero i s = s
shift_down (suc n) i s = shift_down n (i + 1) (set s (i - 1) (get_or s i 0))

-- The static buffer of the last keys, under KEYBOARD_DEBUG.
pub remember : ℕ → ℕ → List ℕ → ℕ × List ℕ
unfolding shift_down
remember key_code r s =
    if r == 6
    then (r, set (shift_down 5 1 s) 5 key_code)
    else (r + 1, set (set s r key_code) (r + 1) 0)

pub keyboard_handle_interrupt : (ℕ → ℕ) → ℕ → Driver → Driver
keyboard_handle_interrupt beyond scan_code d =
    let (key_code, kbd') = kbd_process_scan_code beyond scan_code d.kbd in
    let (r', s') = remember key_code d.r d.s in
    let stored = record d { kbd = kbd'; ring = put_key d.ring key_code } in
    if leb b'0' key_code && leb key_code b'z'
    then record stored { r = r'; s = s'; screen = print_vga_fixed (c_string s') 130 0 d.screen }
    else stored
