-- ===== src/Util/Numeral.antt =====
-- util.c: the string of `_itoa` read back as a number.
use native.Mathlib.Nat.{
  pow-suc, mod-add-div', div-lt_iff_lt-mul, pow-zero, div-one, mod-lt, div-div-eq-div-mul,
}
use xis.Prelude.{
  ℕ, zero, suc, ◌+◌, ◌-◌, ◌*◌, ◌/◌, ◌%◌, ◌^◌, ◌≤◌, ◌<◌, ◌≡◌, ap, sym, ◌∙◌, arith, ◌&&◌, ◌==◌,
  Option, none, some, ◌||◌, leb, ltb, if◌then◌else◌, Bool-cases, ==→eq, ne→==, inl, inr,
}
use xis.Prelude.Maps.{update}
use xis.Util.{Bytes, print_digits, digit_loop}
use xis.Util.Digits.{IsBase, symbol, width, digit_at, digit_loop-fst, digit_loop-snd}
use xis.Util.Reverse.{reverse_loop_lem}

-- The number that a byte stands for: one of the digits 0 to 9 and the letters A to F, below the
-- base; any other byte is no digit.
pub undigit : ℕ → ℕ → Option ℕ
undigit base c =
    let value = if ltb c b'A' then c - b'0' else c - b'A' + 10 in
    let shown = leb b'0' c && leb c b'9' || leb b'A' c && leb c b'F' in
    if shown && ltb value base then some value else none

abbrev if_digit : Option ℕ → (ℕ → Option ℕ) → Option ℕ
if_digit none next = none
if_digit (some d) next = next d

-- Reads digits up to a zero byte, the first one the most significant; none for a string with
-- another byte, or of more than the given bytes.
pub atoi_loop : ℕ → ℕ → ℕ → ℕ → Bytes → Option ℕ
atoi_loop zero base acc p m = none
atoi_loop (suc n) base acc p m =
    let rest = if_digit (undigit base (m p)) (λ d. atoi_loop n base (acc * base + d) (p + 1) m) in
    if m p == 0 then some acc else rest

abbrev pub atoi : ℕ → ℕ → Bytes → Option ℕ
atoi base p m = atoi_loop 16 base 0 p m

base-pos : (base : ℕ) → IsBase base → 1 < base
base-pos base h = ground arith

lt-pow-suc : (base v w : ℕ) → IsBase base → v / base < base ^ w → v < base ^ suc w
lt-pow-suc base v w h l = omega (
  arith,
  pow-suc base w,
  (div-lt_iff_lt-mul {k = base} {x = v} {y = base ^ w} (omega (arith, base-pos base h))).0 l,
)

pow-suc-lt : (base v w : ℕ) → IsBase base → v < base ^ suc w → v / base < base ^ w
pow-suc-lt base v w h l =
    (div-lt_iff_lt-mul {k = base} {x = v} {y = base ^ w} (omega (arith, base-pos base h))).1
      (omega (arith, pow-suc base w))

pub width-pos : (n base value : ℕ) → 0 < width (suc n) base value
unfolding width
width-pos n base value = ground arith

pub lt-width :
    (n base value : ℕ) → IsBase base → value < base ^ n → value < base ^ width n base value
unfolding width
lt-width zero base value h l = l
lt-width (suc n) base value h l = elim (Bool-cases (value / base == 0)) [
  | inl e ↦
      rw e (lt-pow-suc base value 0 h (omega (arith, pow-zero base, ==→eq (value / base) 0 e)))
  | inr e ↦ rw e (
      lt-pow-suc base value (width n base (value / base)) h
        (lt-width n base (value / base) h (pow-suc-lt base value n h l)))
]

pub width-le :
    (n k base value : ℕ) → IsBase base → value < base ^ suc k → width n base value ≤ suc k
unfolding width
width-le zero k base value h l = omega arith
width-le (suc n) zero base value h l =
    let small = pow-suc-lt base value 0 h l in
    let e : value / base ≡ 0 = omega (arith, pow-zero base) in rw e (omega arith)
width-le (suc n) (suc k) base value h l =
    let rest = width-le n k base (value / base) h (pow-suc-lt base value (suc k) h l) in
    ground arith

pub width-fuel : (n base value : ℕ) → width n base value ≤ n
unfolding width
width-fuel zero base value = omega arith
width-fuel (suc n) base value = ground (arith, width-fuel n base (value / base))

undigit_lem :
    (base r : ℕ) → IsBase base → r < base → (undigit base (symbol r) ≡ some r) × (0 < symbol r)
unfolding undigit
undigit_lem base r h l = (ground arith, ground arith)

div-pow-step :
    (base value k : ℕ) → value / base ^ suc k * base + value / base ^ k % base ≡ value / base ^ k
div-pow-step base value k =
    let e : value / base ^ suc k ≡ value / base ^ k / base =
      ap (λ t. value / t) (pow-suc base k) ∙ sym (div-div-eq-div-mul value (base ^ k) base) in
    rw e (omega (arith, mod-add-div' (value / base ^ k) base))

symbol-le : (r : ℕ) → b'0' ≤ symbol r
symbol-le r = ground arith

-- The string that `print_digits` leaves: the digits, a zero byte, and all other bytes as before.
pub print_digits_lem :
    (base value str : ℕ) (m : Bytes) (a : ℕ)
    → IsBase base
    → let end = str + width 32 base value in
      print_digits base value str m a ≡ (
        if leb str a && ltb a end
        then digit_at base value (end - 1 - a)
        else if a == end
        then 0
        else m a)
unfolding print_digits
print_digits_lem base value str m a b =
    let end = str + width 32 base value in
    let written = (digit_loop 32 base value str m).1 in
    let f = width-fuel 32 base value in
    let g = width-pos 31 base value in
    rw
      (
        digit_loop-fst 32 base value str m,
        reverse_loop_lem 32 (end - 1) str (update written end 0) a (omega arith),
      )
      (grind (
        arith,
        digit_loop-snd 32 base value str m (str + (end - 1) - a) b,
        digit_loop-snd 32 base value str m a b,
      ))

pub print_digits-le :
    (base value str : ℕ) (m : Bytes) → IsBase base → b'0' ≤ print_digits base value str m str
unfolding digit_at
print_digits-le base value str m b =
    let w = width 32 base value in
    let g = width-pos 31 base value in
    ground (
      arith,
      print_digits_lem base value str m str b,
      symbol-le (value / base ^ (str + w - 1 - str) % base),
    )

pub atoi_loop_lem :
    (k r base value p : ℕ) (m : Bytes)
    → IsBase base
    → ((j : ℕ) → j < k → m (p + j) ≡ digit_at base value (k - 1 - j))
    → m (p + k) ≡ 0
    → atoi_loop (suc (k + r)) base (value / base ^ k) p m ≡ some value
unfolding atoi_loop digit_at
atoi_loop_lem zero r base value p m h d z =
    let e : m p ≡ 0 = ap m (omega arith) ∙ z in
    rw e (ap some (ap (λ t. value / t) (pow-zero base) ∙ div-one value))
atoi_loop_lem (suc k) r base value p m h d z =
    let c = value / base ^ k % base in
    let e : m p ≡ symbol c =
      ap m (omega arith) ∙ d 0 (omega arith) ∙ ap (digit_at base value) (omega arith) in
    let u = undigit_lem base c h (mod-lt (value / base ^ k) (omega (arith, base-pos base h))) in
    let rest =
      atoi_loop_lem k r base value (p + 1) m h
        (λ j l.
          ap m (omega arith) ∙ d (suc j) (omega arith) ∙ ap (digit_at base value) (omega arith))
        (ap m (omega arith) ∙ z) in
    rw (e, ne→== (symbol c) 0 (λ x. omega arith), u.0)
      (ap (λ v. atoi_loop (suc k + r) base v (p + 1) m) (div-pow-step base value k)
        ∙ ap (λ f. atoi_loop f base (value / base ^ k) (p + 1) m) {x = suc k + r} {y = suc (k + r)}
            (omega arith)
        ∙ rest)
