-- ===== src/Keyboard.antt =====
-- keyboard.c and keyboard.h: scan codes of set 2 to ASCII, and the interrupt handler.
use xis.Prelude.{
  ℕ, ◌+◌, ◌-◌, Bool, true, false, not, ◌&&◌, ◌||◌, List, [], ◌∷◌, ltb, leb, ◌==◌, if◌then◌else◌,
  length, get_or,
}
use mathlib.Core.Bool.{xor}
mod Scan
pub mod Driver
mod Tests

-- `struct keyboard_scancode_state`: a one-bit field holds 0 or not 0, read here as a Boolean.
pub record KeyboardState : Type 0 where
  pub lshift_down : Bool
  pub rshift_down : Bool
  pub lctrl_down : Bool
  pub rctrl_down : Bool
  pub lalt_down : Bool
  pub ralt_down : Bool
  pub caps : Bool
  pub break_code : Bool
  pub break_nested_code : Bool
  pub e0_code : Bool
  pub e0_nested_code : Bool
  pub e1_code : Bool
  pub e1_nested_code : Bool
  pub lwin_down : Bool
  pub rwin_down : Bool
  pub prev_code : ℕ

-- The scan codes that have a `case` of their own, and the key codes of `enum special_key_code`.
abbrev pub sc_e0 : ℕ
sc_e0 = 0xe0

abbrev pub sc_e1 : ℕ
sc_e1 = 0xe1

abbrev pub sc_break : ℕ
sc_break = 0xf0

abbrev pub sc_key_lshift : ℕ
sc_key_lshift = 0x12

abbrev pub sc_key_rshift : ℕ
sc_key_rshift = 0x59

abbrev pub sc_key_caps : ℕ
sc_key_caps = 0x58

abbrev pub special_key_code_start : ℕ
special_key_code_start = 0x80

-- The fourteenth, fifteenth and sixteenth entries of the enumeration.
abbrev pub key_caps : ℕ
key_caps = special_key_code_start + 13

abbrev pub key_lshift : ℕ
key_lshift = special_key_code_start + 14

abbrev pub key_rshift : ℕ
key_rshift = special_key_code_start + 15

pub conversion_scan_ascii : List ℕ
conversion_scan_ascii =
    0 ∷ 0 ∷ 0 ∷ 0 ∷ 0 ∷ 0 ∷ 0 ∷ 0 ∷ 0 ∷ 0 ∷ 0 ∷ 0 ∷ 0 ∷ 9 ∷ b'`' ∷ 0 ∷ 0 ∷ 0 ∷ 0 ∷ 0 ∷ 0 ∷ b'q'
    ∷ b'1' ∷ 0 ∷ 0 ∷ 0 ∷ b'z' ∷ b's' ∷ b'a' ∷ b'w' ∷ b'2' ∷ 0 ∷ 0 ∷ b'c' ∷ b'x' ∷ b'd' ∷ b'e' ∷ b'4'
    ∷ b'3' ∷ 0 ∷ 0 ∷ b' ' ∷ b'v' ∷ b'f' ∷ b't' ∷ b'r' ∷ b'5' ∷ 0 ∷ 0 ∷ b'n' ∷ b'b' ∷ b'h' ∷ b'g'
    ∷ b'y' ∷ b'6' ∷ 0 ∷ 0 ∷ 0 ∷ b'm' ∷ b'j' ∷ b'u' ∷ b'7' ∷ b'8' ∷ 0 ∷ 0 ∷ b',' ∷ b'k' ∷ b'i' ∷ b'o'
    ∷ b'0' ∷ b'9' ∷ 0 ∷ 0 ∷ b'.' ∷ b'/' ∷ b'l' ∷ b';' ∷ b'p' ∷ b'-' ∷ 0 ∷ 0 ∷ 0 ∷ 39 ∷ 0 ∷ b'['
    ∷ b'=' ∷ 0 ∷ 0 ∷ 0 ∷ 0 ∷ 10 ∷ b']' ∷ 0 ∷ b'\\' ∷ 0 ∷ 0 ∷ 0 ∷ 0 ∷ 0 ∷ 0 ∷ 0 ∷ 0 ∷ 0 ∷ 0 ∷ 0 ∷ 0
    ∷ 0 ∷ 0 ∷ 0 ∷ 0 ∷ 0 ∷ 0 ∷ 0 ∷ 0 ∷ 0 ∷ 0 ∷ 0 ∷ 0 ∷ 27 ∷ []

-- `beyond n` is the byte `n` places behind the table, which the linker chooses: the code reads it
-- for a scan code that the table does not hold.
pub table_read : (ℕ → ℕ) → ℕ → ℕ
unfolding conversion_scan_ascii
table_read beyond scan_code =
    if ltb scan_code (length conversion_scan_ascii)
    then get_or conversion_scan_ascii scan_code 0
    else beyond (scan_code - length conversion_scan_ascii)

-- The value that `set_key_code` stores.
abbrev pub set_key_code : KeyboardState → ℕ → ℕ
set_key_code s key = if s.break_code then 0 else key

-- The `caps` of the letters: either shift key, turned round by caps lock.
abbrev pub upper : KeyboardState → Bool
upper s = xor (s.lshift_down || s.rshift_down) s.caps

-- The `default:` case, for the byte that the table gave.
pub default_case : ℕ → KeyboardState → ℕ × KeyboardState
default_case key_code s =
    if key_code == 0
    then (0, s)
    else if s.break_code
    then (0, record s { break_code = false })
    else if leb b'a' key_code && leb key_code b'z'
    then (if upper s then key_code - 32 else key_code, s)
    else (key_code, s)

pub scan_switch : (ℕ → ℕ) → ℕ → KeyboardState → ℕ × KeyboardState
scan_switch beyond scan_code s =
    if scan_code == sc_e0
    then (0, if s.e0_code then record s { e0_nested_code = true } else record s { e0_code = true })
    else if scan_code == sc_e1
    then (0, if s.e1_code then record s { e1_nested_code = true } else record s { e1_code = true })
    else if scan_code == sc_break
    then (0, record s { break_code = true })
    else if scan_code == sc_key_lshift
    then (
      set_key_code s key_lshift,
      record s { lshift_down = not s.break_code; break_code = false },
    )
    else if scan_code == sc_key_rshift
    then (
      set_key_code s key_rshift,
      record s { rshift_down = not s.break_code; break_code = false },
    )
    else if scan_code == sc_key_caps
    then (
      set_key_code s key_caps,
      record s { caps = if s.break_code then s.caps else not s.caps; break_code = false },
    )
    else default_case (table_read beyond scan_code) s

-- The key code that is returned, and the state with `prev_code` set at `out`.
pub kbd_process_scan_code : (ℕ → ℕ) → ℕ → KeyboardState → ℕ × KeyboardState
kbd_process_scan_code beyond scan_code s =
    let (key_code, s') = scan_switch beyond scan_code s in
    (key_code, record s' { prev_code = scan_code })
