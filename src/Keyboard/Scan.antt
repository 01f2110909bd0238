-- ===== src/Keyboard/Scan.antt =====
-- keyboard.c, `kbd_process_scan_code`: what a sequence of scan codes gives.
use xis.Prelude.{
  ℕ, ◌-◌, ◌≤◌, ◌≡◌, ◌≢◌, inl, inr, refl, sym, ◌∙◌, ap, Bool, true, false, not, arith, Bool-cases,
  ne→==, ◌||◌, ◌&&◌, leb, if◌then◌else◌,
}
use xis.Keyboard.{
  KeyboardState, sc_e0, sc_e1, sc_break, sc_key_lshift, sc_key_rshift, sc_key_caps, table_read,
  upper, default_case, scan_switch, kbd_process_scan_code,
}

-- A scan code that reaches the `default:` case.
pub record IsPlain (c : ℕ) : Type 0 where
  pub ne_e0 : c ≢ sc_e0
  pub ne_e1 : c ≢ sc_e1
  pub ne_break : c ≢ sc_break
  pub ne_lshift : c ≢ sc_key_lshift
  pub ne_rshift : c ≢ sc_key_rshift
  pub ne_caps : c ≢ sc_key_caps

abbrev pub IsLetter : ℕ → Type 0
IsLetter k = (b'a' ≤ k) × (k ≤ b'z')

module _ (beyond : ℕ → ℕ) where
  abbrev key : ℕ → KeyboardState → ℕ
  key c s = (kbd_process_scan_code beyond c s).0

  abbrev after : ℕ → KeyboardState → KeyboardState
  after c s = (kbd_process_scan_code beyond c s).1

  plain_lem :
      (c : ℕ) (s : KeyboardState)
      → IsPlain c
      → kbd_process_scan_code beyond c s
        ≡ (let (k, s') = default_case (table_read beyond c) s in (k, record s' { prev_code = c }))
  unfolding kbd_process_scan_code scan_switch
  plain_lem c s p = rw (
    ne→== c _ p.ne_e0,
    ne→== c _ p.ne_e1,
    ne→== c _ p.ne_break,
    ne→== c _ p.ne_lshift,
    ne→== c _ p.ne_rshift,
    ne→== c _ p.ne_caps,
  )

  key-plain :
      (c : ℕ) (s : KeyboardState) → IsPlain c → key c s ≡ (default_case (table_read beyond c) s).0
  key-plain c s p = ap (λ r. r.0) (plain_lem c s p)

  after-plain :
      (c : ℕ) (s : KeyboardState)
      → IsPlain c
      → after c s ≡ record ((default_case (table_read beyond c) s).1) { prev_code = c }
  after-plain c s p = ap (λ r. r.1) (plain_lem c s p)

  after-break :
      (s : KeyboardState) → after sc_break s ≡ record s { break_code = true; prev_code = sc_break }
  unfolding kbd_process_scan_code scan_switch
  after-break s = refl

  upper_lem :
      (s : KeyboardState)
      → upper s
        ≡ (if s.caps then not (s.lshift_down || s.rshift_down) else s.lshift_down || s.rshift_down)
  unfolding mathlib.Core.Bool.xor
  upper_lem s = ground arith

  letter_case :
      (byte : ℕ) (s : KeyboardState)
      → s.break_code ≡ false
      → let shift = s.lshift_down || s.rshift_down in
        (default_case byte s).0 ≡ (
          if leb b'a' byte && leb byte b'z' && (if s.caps then not shift else shift)
          then byte - 32
          else byte)
  unfolding default_case
  letter_case byte s b =
      rw (sym (upper_lem s), b)
        (elim (Bool-cases (upper s)) [ inl e ↦ rw e (ground arith) | inr e ↦ rw e (ground arith) ])

  -- A pressed key that is not a letter gives the byte of the table, whatever the shift keys and
  -- caps lock say; a letter comes out in upper case exactly when one of shift and caps lock is on.
  pub press_lem :
      (c : ℕ) (s : KeyboardState)
      → IsPlain c
      → s.break_code ≡ false
      → let byte = table_read beyond c in
        let shift = s.lshift_down || s.rshift_down in
        (key c s ≡ (
          if leb b'a' byte && leb byte b'z' && (if s.caps then not shift else shift)
          then byte - 32
          else byte))
        × (after c s ≡ record s { prev_code = c })
  unfolding default_case
  press_lem c s p b =
      (key-plain c s p ∙ letter_case (table_read beyond c) s b, after-plain c s p ∙ ground arith)

  -- The scan code behind a break code is never reported as a key.
  release_lem : (c : ℕ) (s : KeyboardState) → s.break_code ≡ true → key c s ≡ 0
  unfolding kbd_process_scan_code scan_switch default_case
  release_lem c s b = ground arith

  -- The release of a key that the table maps leaves the state as it was before the break code, up
  -- to `prev_code`.
  release-after :
      (c : ℕ) (s : KeyboardState)
      → IsPlain c
      → s.break_code ≡ false
      → table_read beyond c ≢ 0
      → after c (after sc_break s) ≡ record s { prev_code = c }
  unfolding default_case
  release-after c s p b mapped =
      after-plain c (after sc_break s) p ∙ rw (after-break s) (ground arith)

  -- The release of a key that the table does not map leaves the break code pending, so that the
  -- next scan code, a press of any key, is reported as no key.
  unmapped_release_swallows :
      (c d : ℕ) (s : KeyboardState)
      → IsPlain c
      → table_read beyond c ≡ 0
      → key d (after c (after sc_break s)) ≡ 0
  unfolding default_case
  unmapped_release_swallows c d s p un =
      release_lem d (after c (after sc_break s))
        (ground (arith, after-plain c (after sc_break s) p, after-break s))

  key_fields :
      (c : ℕ) (s : KeyboardState) (nested e0 : Bool)
      → key c (record s { e0_nested_code = nested; e0_code = e0; prev_code = sc_e0 }) ≡ key c s
  unfolding kbd_process_scan_code scan_switch default_case
  key_fields c s nested e0 = ground arith

  after-e0_first :
      (s : KeyboardState)
      → s.e0_code ≡ false
      → after sc_e0 s ≡ record s { e0_code = true; prev_code = sc_e0 }
  unfolding kbd_process_scan_code scan_switch
  after-e0_first s e = ground arith

  after-e0_again :
      (s : KeyboardState)
      → s.e0_code ≡ true
      → after sc_e0 s ≡ record s { e0_nested_code = true; e0_code = true; prev_code = sc_e0 }
  unfolding kbd_process_scan_code scan_switch
  after-e0_again s e = ground arith

  -- The prefix 0xe0 changes nothing of what the code behind it gives: an extended key is taken for
  -- the plain key with the same code.
  e0_ignored : (c : ℕ) (s : KeyboardState) → key c (after sc_e0 s) ≡ key c s
  e0_ignored c s = elim (Bool-cases s.e0_code) [
    | inl e ↦ rw (after-e0_again s e) (key_fields c s true true)
    | inr e ↦ rw (after-e0_first s e) (key_fields c s s.e0_nested_code true)
  ]

  -- The flag that the prefix sets is never cleared.
  pub e0_stays : (c : ℕ) (s : KeyboardState) → s.e0_code ≡ true → (after c s).e0_code ≡ true
  unfolding kbd_process_scan_code scan_switch default_case
  e0_stays c s e = ground arith

  -- Pressing and releasing caps lock turns `caps` round and changes nothing else but `prev_code`.
  caps_toggles :
      (s : KeyboardState)
      → s.break_code ≡ false
      → after sc_key_caps (after sc_break (after sc_key_caps s))
        ≡ record s { caps = not s.caps; prev_code = sc_key_caps }
  unfolding kbd_process_scan_code scan_switch
  caps_toggles s b = ground arith

  -- While a shift key is held its flag is set; its release clears the flag. Both leave the other
  -- fields alone, but for `prev_code`.
  shift_held :
      (s : KeyboardState)
      → s.break_code ≡ false
      → (after sc_key_lshift s ≡ record s { lshift_down = true; prev_code = sc_key_lshift })
        × (after sc_key_lshift (after sc_break s)
            ≡ record s { lshift_down = false; prev_code = sc_key_lshift })
        × (after sc_key_rshift s ≡ record s { rshift_down = true; prev_code = sc_key_rshift })
        × (after sc_key_rshift (after sc_break s)
            ≡ record s { rshift_down = false; prev_code = sc_key_rshift })
  unfolding kbd_process_scan_code scan_switch
  shift_held s b = (ground arith, ground arith, ground arith, ground arith)

  -- A scan code behind the end of the table reads the byte that the linker put there.
  outside_table :
      (c : ℕ) (s : KeyboardState)
      → IsPlain c
      → 119 ≤ c
      → s.break_code ≡ false
      → ¬ IsLetter (beyond (c - 119))
      → key c s ≡ beyond (c - 119)
  unfolding default_case table_read
  outside_table c s p h b n = ground (arith, key-plain c s p)
