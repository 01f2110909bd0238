-- ===== src/Util/Hex.antt =====
-- util.c: hexadecimal numerals of a fixed number of digits, and what `_itoa` leaves of them.

use xis.Prelude.{
  ℕ, zero, suc, ◌+◌, ◌-◌, ◌/◌, ◌%◌, ◌^◌, ◌≤◌, ◌<◌, ◌≡◌, ◌⊎◌, refl, ap, ◌∙◌, true, false, arith, inr,
  ◌==◌, ne→==, List, [], ◌∷◌,
}
use xis.Util.{Bytes, itoa_base, print_digits, strlen, string_at}
use xis.Util.Digits.{IsBase, symbol, width, digit_at}
use xis.Util.Numeral.{print_digits_lem, lt-width, width-le, width-pos}
use xis.Util.Strings.{strlen_lem}

-- The digits of weight `base ^ (k - 1)` down to 1.
unfoldable pub numeral : ℕ → ℕ → ℕ → List ℕ
numeral zero base v = []
numeral (suc k) base v = symbol (v / base ^ k % base) ∷ numeral k base v

-- The string at `p` is the numeral of `v` with `k` digits.
pub record Shows (base p k v : ℕ) (m : Bytes) : Type 0 where
  pub digits : (j : ℕ) → j < k → m (p + j) ≡ digit_at base v (k - 1 - j)
  pub end : m (p + k) ≡ 0

pub digit_at-pos : (base v i : ℕ) → 0 < digit_at base v i
unfolding digit_at
digit_at-pos base v i = ground arith

digit_at-test : (base v i : ℕ) → (digit_at base v i == 0) ≡ false
digit_at-test base v i =
    ne→== (digit_at base v i) 0 (λ e. absurd (omega (arith, digit_at-pos base v i, e)))

pub strlen-Shows : (base p k v : ℕ) (m : Bytes) → k < 2 ^ 32 → Shows base p k v m → strlen p m ≡ k
strlen-Shows base p k v m l s =
    strlen_lem k p m l
      (λ j h e. absurd (omega (arith, digit_at-pos base v (k - 1 - j), s.digits j h, e))) s.end

pub string_at-Shows :
    (n base p k v : ℕ) (m : Bytes) → k < n → Shows base p k v m → string_at n p m ≡ numeral k base v
unfolding string_at numeral digit_at
string_at-Shows zero base p k v m l s = absurd (omega arith)
string_at-Shows (suc n) base p zero v m l s =
    let e : m p ≡ 0 = ap m (omega arith) ∙ s.end in rw e refl
string_at-Shows (suc n) base p (suc k) v m l s =
    let first : m p ≡ digit_at base v k =
      ap m (omega arith) ∙ s.digits 0 (omega arith) ∙ ap (digit_at base v) (omega arith) in
    let rest : Shows base (p + 1) k v m = record {
      digits = λ j h.
          ap m (omega arith) ∙ s.digits (suc j) (omega arith) ∙ ap (digit_at base v) (omega arith);
      end = ap m (omega arith) ∙ s.end;
    } in
    rw (first, digit_at-test base v k)
      (ap (λ l. symbol (v / base ^ k % base) ∷ l)
        (string_at-Shows n base (p + 1) k v m (omega arith) rest))

-- Outside of the `k` bytes from `p` on and the one behind them nothing is written.
abbrev pub Keeps : ℕ → ℕ → Bytes → Bytes → Type 0
Keeps p k m m' = (a : ℕ) → (a < p) ⊎ (p + k < a) → m' a ≡ m a

pub print_digits-Shows :
    (base v str : ℕ) (m : Bytes)
    → IsBase base
    → let w = width 32 base v in
      Shows base str w v (print_digits base v str m) × Keeps str w m (print_digits base v str m)
print_digits-Shows base v str m b =
    let w = width 32 base v in
    let same : (j : ℕ) → digit_at base v (str + w - 1 - (str + j)) ≡ digit_at base v (w - 1 - j) =
      λ j. ap (digit_at base v) (omega arith) in
    (
      record {
        digits = λ j h. grind (arith, print_digits_lem base v str m (str + j) b, same j);
        end = ground (arith, print_digits_lem base v str m (str + w) b);
      },
      λ a o. ground (arith, print_digits_lem base v str m a b),
    )

-- The places of a number of 32 bits.
pub hex_width :
    (v : ℕ) → v < 2 ^ 32 → (v < 16 ^ width 32 16 v) × (width 32 16 v ≤ 8) × (0 < width 32 16 v)
hex_width v l = (
  lt-width 32 16 v (inr refl) (omega arith),
  width-le 32 7 16 v (inr refl) (omega arith),
  width-pos 31 16 v,
)

pub itoa_base-Shows :
    (v str : ℕ) (m : Bytes)
    → let w = width 32 16 v in
      Shows 16 str w v (itoa_base v str 16 true m) × Keeps str w m (itoa_base v str 16 true m)
unfolding itoa_base
itoa_base-Shows v str m = print_digits-Shows 16 v str m (inr refl)
