-- ===== src/Keyboard/Driver/Window.antt =====
-- keyboard.c, `keyboard_handle_interrupt`: the last keys shown on the screen, and the ring buffer.
use xis.Prelude.{
  ℕ, suc, ◌-◌, ◌≤◌, ◌≡◌, ◌≢◌, refl, true, false, List, [], ◌∷◌, ◌++◌, leb, arith, Bool-cases, inl,
  inr, length, replicate, ne→==, Option-cases, ◌&&◌,
}
use xis.Ring.{RingBuffer, ring_buffer_put_elem}
use xis.Ring.Inv.{IsValid, put-IsValid}
use xis.Keyboard.{kbd_process_scan_code, special_key_code_start}
use xis.Vga.{print_vga_fixed}
use xis.Keyboard.Driver.{
  Driver, put_elem, put_key, c_string, shift_down, remember, keyboard_handle_interrupt,
}

-- The last six keys, oldest first.
abbrev pub remembered : List ℕ → ℕ → List ℕ
remembered (a ∷ b ∷ c ∷ d ∷ e ∷ f ∷ []) k = b ∷ c ∷ d ∷ e ∷ f ∷ k ∷ []
remembered w k = w ++ (k ∷ [])

abbrev pub NonZero : List ℕ → Type 0
NonZero [] = Unit
NonZero (c ∷ s) = (c ≢ 0) × NonZero s

-- The static `r` and `s` hold the string `w` and zeros behind it.
pub record Shows (w : List ℕ) (r : ℕ) (s : List ℕ) : Type 0 where
  pub count : r ≡ length w
  pub fits : r ≤ 6
  pub text : NonZero w
  pub stored : s ≡ w ++ replicate (7 - length w) 0

remember-Shows :
    (w : List ℕ) (r : ℕ) (s : List ℕ) (k : ℕ)
    → k ≢ 0
    → Shows w r s
    → Shows (remembered w k) (remember k r s).0 (remember k r s).1
unfolding remember shift_down
remember-Shows [] r s k n h = ground arith
remember-Shows (a ∷ []) r s k n h = ground arith
remember-Shows (a ∷ b ∷ []) r s k n h = ground arith
remember-Shows (a ∷ b ∷ c ∷ []) r s k n h = ground arith
remember-Shows (a ∷ b ∷ c ∷ d ∷ []) r s k n h = ground arith
remember-Shows (a ∷ b ∷ c ∷ d ∷ e ∷ []) r s k n h = ground arith
remember-Shows (a ∷ b ∷ c ∷ d ∷ e ∷ f ∷ []) r s k n h = ground arith
remember-Shows (a ∷ b ∷ c ∷ d ∷ e ∷ f ∷ g ∷ w) r s k n h = absurd (omega arith)

c_string-Shows : (w : List ℕ) (n : ℕ) → NonZero w → c_string (w ++ replicate (suc n) 0) ≡ w
c_string-Shows [] n h = refl
c_string-Shows (c ∷ w) n h = rw (ne→== c 0 h.0, c_string-Shows w n h.1)

Shows-c_string : (w : List ℕ) (r : ℕ) (s : List ℕ) → Shows w r s → c_string s ≡ w
Shows-c_string w r s h =
    let room : 7 - length w ≡ suc (6 - length w) = omega arith in
    rw (h.stored, room, c_string-Shows w (6 - length w) h.text)

put_elem-IsValid : (rb : RingBuffer) (x : ℕ) → IsValid rb → IsValid (put_elem rb x)
put_elem-IsValid rb x v = elim (Option-cases (ring_buffer_put_elem rb x)) [
  | inl e ↦ rw e v
  | inr (rb', e) ↦ rw e (put-IsValid x v e)
]

put_key-IsValid : (rb : RingBuffer) (k : ℕ) → IsValid rb → IsValid (put_key rb k)
put_key-IsValid rb k v = elim (Bool-cases (leb special_key_code_start k)) [
  | inl e ↦ rw e (put_elem-IsValid (put_elem rb 0) k (put_elem-IsValid rb 0 v))
  | inr e ↦ rw e (put_elem-IsValid rb k v)
]

-- Whatever the scan code, the interrupt handler keeps the ring buffer valid; a key from '0' to 'z'
-- joins the keys shown, of which the last six are kept and
-- printed at column 65 of the first row; any other key leaves these and the screen alone.
pub handler_lem :
    (beyond : ℕ → ℕ) (scan_code : ℕ) (d : Driver) (w : List ℕ)
    → IsValid d.ring
    → Shows w d.r d.s
    → let k = (kbd_process_scan_code beyond scan_code d.kbd).0 in
      let d' = keyboard_handle_interrupt beyond scan_code d in
      IsValid d'.ring
      × (leb b'0' k && leb k b'z' ≡ true
          → Shows (remembered w k) d'.r d'.s
            × (d'.screen ≡ print_vga_fixed (remembered w k) 130 0 d.screen))
      × (leb b'0' k && leb k b'z' ≡ false → Shows w d'.r d'.s × (d'.screen ≡ d.screen))
unfolding keyboard_handle_interrupt
handler_lem beyond scan_code d w v h = elim (Bool-cases (leb b'0' k && leb k b'z')) [
  | inl shown ↦
      let joined = remember-Shows w d.r d.s k (ground arith) h in
      rw shown (
        put_key-IsValid d.ring k v,
        λ e. (
          joined,
          rw (Shows-c_string (remembered w k) (remember k d.r d.s).0 (remember k d.r d.s).1 joined),
        ),
        λ e. cc,
      )
  | inr hidden ↦ rw hidden (put_key-IsValid d.ring k v, λ e. cc, λ e. (h, refl))
]
  where
    k : ℕ
    k = (kbd_process_scan_code beyond scan_code d.kbd).0
