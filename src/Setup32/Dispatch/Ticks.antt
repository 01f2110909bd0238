-- ===== src/Setup32/Dispatch/Ticks.antt =====
-- setup32.c: the clock that the timer interrupts of one processor drive.
use native.Mathlib.Nat.{mod-eq_of_lt, div-eq_of_lt, add-mod_left, add-div_left}
use xis.Prelude.{
  ℕ, suc, ◌+◌, ◌/◌, ◌%◌, ◌^◌, ◌<◌, ◌≡◌, ◌≢◌, refl, ap, sym, ◌∙◌, true, false, arith, ◌==◌,
  if◌then◌else◌, Bool-cases, ==_refl, ==→eq, ==→ne, inl, inr, List, [], ◌∷◌,
}
use xis.Util.{Bytes}
use xis.Keyboard.Driver.{keyboard_handle_interrupt}
use xis.Setup32.Dispatch.{
  Kernel, increment, signed_ge, period, timer_interrupt, common_interrupt_handler,
}

-- A sequence of interrupts on one processor, each a number and the scan code at the keyboard's
-- port.
unfoldable pub interrupts : Bytes → (ℕ → ℕ) → ℕ → List (ℕ × ℕ) → Kernel → Kernel
interrupts stack beyond cpu [] k = k
interrupts stack beyond cpu ((code_nr, scan_code) ∷ l) k =
    interrupts stack beyond cpu l (common_interrupt_handler stack beyond scan_code cpu code_nr k).0

-- How many of them are the timer's.
unfoldable pub timer_count : List (ℕ × ℕ) → ℕ
timer_count [] = 0
timer_count ((code_nr, scan_code) ∷ l) = if code_nr == 0 then suc (timer_count l) else timer_count l

one_tick :
    (stack : Bytes) (cpu p c s : ℕ) (k : Kernel)
    → k.lapic_calibration_mode ≡ false
    → period k ≡ p
    → c < p
    → p < 2 ^ 31
    → k.timer_counter cpu ≡ c
    → k.seconds cpu ≡ s
    → let k' = timer_interrupt stack cpu k in
      (k'.timer_counter cpu ≡ (if c + 1 == p then 0 else c + 1))
      × (k'.seconds cpu ≡ (if c + 1 == p then (s + 1) % 2 ^ 32 else s))
      × (k'.sched_tick cpu ≡ (k.sched_tick cpu + 1) % 2 ^ 32)
      × (k'.lapic_calibration_mode ≡ false)
      × (period k' ≡ p)
      × ((i : ℕ)
          → i ≢ cpu
          → (k'.timer_counter i ≡ k.timer_counter i) × (k'.seconds i ≡ k.seconds i))
unfolding timer_interrupt
one_tick stack cpu p c s k m e h l tc ts = elim (Bool-cases (c + 1 == p)) [
  | inl w ↦
      let t : signed_ge (increment k.timer_counter cpu cpu) (period k) ≡ true =
        rw (==_refl cpu, tc, e) (ground arith) in
      rw (m, t, w)
        (ground arith, ground arith, ground arith, refl, e, λ i n. (ground arith, ground arith))
  | inr w ↦
      let t : signed_ge (increment k.timer_counter cpu cpu) (period k) ≡ false =
        rw (==_refl cpu, tc, e) (ground arith) in
      rw (m, t, w) (ground arith, ts, ground arith, refl, e, λ i n. (ground arith, refl))
]

-- The counter behind one interrupt.
abbrev advance : ℕ → ℕ → ℕ
advance c p = if c + 1 == p then 0 else c + 1

advance-mod : (c n p : ℕ) → (advance c p + n) % p ≡ (c + suc n) % p
advance-mod c n p = elim (Bool-cases (c + 1 == p)) [
  | inl w ↦
      let e : c + suc n ≡ p + n = omega (arith, ==→eq (c + 1) p w) in
      rw (w, e) (ap (λ t. t % p) {x = 0 + n} (omega arith) ∙ sym (add-mod_left p n))
  | inr w ↦ rw w (ap (λ t. t % p) (omega arith))
]

advance-div :
    (s c n p : ℕ)
    → c < p
    → ((if c + 1 == p then (s + 1) % 2 ^ 32 else s) + (advance c p + n) / p) % 2 ^ 32
      ≡ (s + (c + suc n) / p) % 2 ^ 32
advance-div s c n p h = elim (Bool-cases (c + 1 == p)) [
  | inl w ↦
      let e : (c + suc n) / p ≡ n / p + 1 =
        ap (λ t. t / p) (omega (arith, ==→eq (c + 1) p w)) ∙ add-div_left n {k = p} (omega arith) in
      let f : (0 + n) / p ≡ n / p = ap (λ t. t / p) (omega arith) in rw (w, e, f) (omega arith)
  | inr w ↦
      let e : (c + 1 + n) / p ≡ (c + suc n) / p = ap (λ t. t / p) (omega arith) in rw (w, e) refl
]

-- No calibration, a counter below its period, and 32-bit values.
abbrev pub IsRunning : ℕ → Kernel → Type 0
IsRunning cpu k =
    (k.lapic_calibration_mode ≡ false)
    × (k.timer_counter cpu < period k)
    × (period k < 2 ^ 31)
    × (k.seconds cpu < 2 ^ 32)
    × (k.sched_tick cpu < 2 ^ 32)

-- The clock of `cpu` is `n` ticks further, and the other processors' are the same.
abbrev pub IsLater : ℕ → ℕ → Kernel → Kernel → Type 0
IsLater cpu n k k' =
    let total = k.timer_counter cpu + n in
    (k'.timer_counter cpu ≡ total % period k)
    × (k'.seconds cpu ≡ (k.seconds cpu + total / period k) % 2 ^ 32)
    × (k'.sched_tick cpu ≡ (k.sched_tick cpu + n) % 2 ^ 32)
    × ((i : ℕ) → i ≢ cpu → (k'.timer_counter i ≡ k.timer_counter i) × (k'.seconds i ≡ k.seconds i))

IsLater-zero : (cpu : ℕ) (k : Kernel) → IsRunning cpu k → IsLater cpu 0 k k
IsLater-zero cpu k (m, h, l, b, d) = (
  sym (ap (λ t. t % period k) {x = k.timer_counter cpu + 0} (omega arith) ∙ mod-eq_of_lt h),
  (let q : (k.timer_counter cpu + 0) / period k ≡ 0 = div-eq_of_lt (omega arith) in
      omega (arith, q)),
  omega arith,
  λ i n. (refl, refl),
)

-- A timer interrupt, and `n` ticks from there.
IsLater-timer_interrupt :
    (stack : Bytes) (cpu n : ℕ) (k k' : Kernel)
    → IsRunning cpu k
    → (IsRunning cpu (timer_interrupt stack cpu k) → IsLater cpu n (timer_interrupt stack cpu k) k')
    → IsLater cpu (suc n) k k'
IsLater-timer_interrupt stack cpu n k k' (m, h, l, b, d) later =
    let p = period k in
    let c = k.timer_counter cpu in
    let (tc, ts, tt, tm, tp, to) = one_tick stack cpu p c (k.seconds cpu) k m refl h l refl refl in
    let (rc, rs, rt, ro) =
      later (tm, rw (tc, tp) (ground arith), rw tp l, rw ts (ground arith), rw tt (omega arith)) in
    (
      rc ∙ rw (tp, tc) (advance-mod c n p),
      rs ∙ rw (tp, tc, ts) (advance-div (k.seconds cpu) c n p h),
      rt ∙ rw tt (omega arith),
      λ i q. ((ro i q).0 ∙ (to i q).0, (ro i q).1 ∙ (to i q).1),
    )

pub timer_count-suc :
    (code_nr scan_code : ℕ) (l : List (ℕ × ℕ))
    → (code_nr == 0) ≡ true
    → timer_count ((code_nr, scan_code) ∷ l) ≡ suc (timer_count l)
unfolding timer_count
timer_count-suc code_nr scan_code l e = rw e refl

pub timer_count-same :
    (code_nr scan_code : ℕ) (l : List (ℕ × ℕ))
    → (code_nr == 0) ≡ false
    → timer_count ((code_nr, scan_code) ∷ l) ≡ timer_count l
unfolding timer_count
timer_count-same code_nr scan_code l e = rw e refl

pub handler-timer :
    (stack : Bytes) (beyond : ℕ → ℕ) (scan_code cpu code_nr : ℕ) (l : List (ℕ × ℕ)) (k : Kernel)
    → (code_nr == 0) ≡ true
    → interrupts stack beyond cpu ((code_nr, scan_code) ∷ l) k
      ≡ interrupts stack beyond cpu l (timer_interrupt stack cpu k)
unfolding interrupts common_interrupt_handler
handler-timer stack beyond scan_code cpu code_nr l k e =
    let next =
      if code_nr == 2
      then record k { driver = keyboard_handle_interrupt beyond scan_code k.driver }
      else k in
    ap (λ b. interrupts stack beyond cpu l (if b then timer_interrupt stack cpu k else next)) e

pub handler-other :
    (stack : Bytes) (beyond : ℕ → ℕ) (scan_code cpu code_nr : ℕ) (l : List (ℕ × ℕ)) (k : Kernel)
    → (code_nr == 0) ≡ false
    → interrupts stack beyond cpu ((code_nr, scan_code) ∷ l) k
      ≡ interrupts stack beyond cpu l (record k {
        driver =
            if code_nr == 2 then keyboard_handle_interrupt beyond scan_code k.driver else k.driver;
      })
unfolding interrupts common_interrupt_handler
handler-other stack beyond scan_code cpu code_nr l k e =
    let pressed = record k { driver = keyboard_handle_interrupt beyond scan_code k.driver } in
    ap
      (λ b.
        interrupts stack beyond cpu l
          (if b then timer_interrupt stack cpu k else if code_nr == 2 then pressed else k))
      e
    ∙ (elim (Bool-cases (code_nr == 2)) [ inl y ↦ rw y refl | inr n ↦ rw n refl ])

interrupts-IsLater :
    (stack : Bytes) (beyond : ℕ → ℕ) (cpu : ℕ) (l : List (ℕ × ℕ)) (k : Kernel)
    → IsRunning cpu k
    → IsLater cpu (timer_count l) k (interrupts stack beyond cpu l k)
unfolding interrupts timer_count
interrupts-IsLater stack beyond cpu [] k r = IsLater-zero cpu k r
interrupts-IsLater stack beyond cpu ((code_nr, scan_code) ∷ l) k r =
    elim (Bool-cases (code_nr == 0)) [
      | inl e ↦
          let k1 = timer_interrupt stack cpu k in
          rw
            (
              handler-timer stack beyond scan_code cpu code_nr l k e,
              timer_count-suc code_nr scan_code l e,
            )
            (IsLater-timer_interrupt stack cpu (timer_count l) k (interrupts stack beyond cpu l k1)
              r (interrupts-IsLater stack beyond cpu l k1))
      | inr n ↦
          let d =
            if code_nr == 2
            then keyboard_handle_interrupt beyond scan_code k.driver
            else k.driver in
          rw
            (
              handler-other stack beyond scan_code cpu code_nr l k n,
              timer_count-same code_nr scan_code l n,
            )
            (interrupts-IsLater stack beyond cpu l (record k { driver = d }) r)
    ]

-- Over any sequence of interrupts on a processor, the timer's among the keyboard's and others,
-- when it is not calibrating and its counter is below a period below `2 ^ 31`: its counter and its
-- seconds advance by one tick for each timer interrupt, a second for each period, and its ticks of
-- the scheduler likewise, modulo `2 ^ 32`; the counter and the seconds of any other processor are
-- as before.
pub interrupts_lem :
    (stack : Bytes) (beyond : ℕ → ℕ) (cpu i : ℕ) (l : List (ℕ × ℕ)) (k : Kernel)
    → IsRunning cpu k
    → let k' = interrupts stack beyond cpu l k in
      let total = k.timer_counter cpu + timer_count l in
      (k'.timer_counter i ≡ (if i == cpu then total % period k else k.timer_counter i))
      × (k'.seconds i
          ≡ (if i == cpu then (k.seconds cpu + total / period k) % 2 ^ 32 else k.seconds i))
      × (k'.sched_tick cpu ≡ (k.sched_tick cpu + timer_count l) % 2 ^ 32)
interrupts_lem stack beyond cpu i l k r =
    let k' = interrupts stack beyond cpu l k in
    let (c, s, t, o) = interrupts-IsLater stack beyond cpu l k r in
    elim (Bool-cases (i == cpu)) [
      | inl e ↦ let q = ==→eq i cpu e in rw (e) (ap k'.timer_counter q ∙ c, ap k'.seconds q ∙ s, t)
      | inr n ↦ let q = o i (==→ne i cpu n) in rw n (q.0, q.1, t)
    ]
