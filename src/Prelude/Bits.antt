-- ===== src/Prelude/Bits.antt =====
-- `bit_xor` with a power of two, as arithmetic.
use Prim.Native.Nat.{
  ℕ, zero, suc, ◌+◌, ◌*◌, ◌/◌, ◌%◌, ◌^◌, ◌≤◌, ◌<◌, bit_xor, bit_xor-bitwise, digits, differ,
}
use mathlib.Core.Path.{◌≡◌, refl, ap, ◌∙◌}
use native.Mathlib.Nat.{pow-suc}
use native.Mathlib.Omega.{arith}

-- Any count of rounds that is not too small serves.
pub digits_rounds :
    (z : ℕ → ℕ) (f : ℕ → ℕ → ℕ) (n m a b : ℕ) → a ≤ n → a ≤ m → digits z f n a b ≡ digits z f m a b
digits_rounds z f zero zero a b p q = refl
digits_rounds z f zero (suc m) zero b p q = refl
digits_rounds z f zero (suc m) (suc a) b p q = absurd (omega arith)
digits_rounds z f (suc n) zero zero b p q = refl
digits_rounds z f (suc n) zero (suc a) b p q = absurd (omega arith)
digits_rounds z f (suc n) (suc m) zero b p q = refl
digits_rounds z f (suc n) (suc m) (suc a) b p q =
    ap (λ t. t * 2 + f (suc a % 2) (b % 2))
      (digits_rounds z f n m (suc a / 2) (b / 2) (omega arith) (omega arith))

zero-bit_xor : (b : ℕ) → bit_xor 0 b ≡ b
zero-bit_xor b = bit_xor-bitwise 0 b

differ_bit : (x y : ℕ) → x < 2 → y < 2 → differ x y ≡ (x + y) % 2
differ_bit zero y p q = omega arith
differ_bit (suc zero) zero p q = omega arith
differ_bit (suc zero) (suc zero) p q = omega arith
differ_bit (suc zero) (suc (suc y)) p q = absurd (omega arith)
differ_bit (suc (suc x)) y p q = absurd (omega arith)

-- The lowest digit apart.
bit_xor_step : (a b : ℕ) → bit_xor a b ≡ bit_xor (a / 2) (b / 2) * 2 + (a % 2 + b % 2) % 2
bit_xor_step zero b = omega (arith, zero-bit_xor b, zero-bit_xor (b / 2))
bit_xor_step (suc a) b = omega (
  arith,
  bit_xor-bitwise (suc a) b,
  bit_xor-bitwise (suc a / 2) (b / 2),
  digits_rounds (λ b. b) differ a (suc a / 2) (suc a / 2) (b / 2) (omega arith) (omega arith),
  differ_bit (suc a % 2) (b % 2) (omega arith) (omega arith),
)

bit_xor-zero_rounds : (n a : ℕ) → a ≤ n → bit_xor a 0 ≡ a
bit_xor-zero_rounds n zero h = refl
bit_xor-zero_rounds zero (suc a) h = absurd (omega arith)
bit_xor-zero_rounds (suc n) (suc a) h =
    omega (arith, bit_xor_step (suc a) 0, bit_xor-zero_rounds n (suc a / 2) (omega arith))

bit_xor-one : (a : ℕ) → bit_xor a 1 ≡ a / 2 * 2 + (a % 2 + 1) % 2
bit_xor-one a = omega (arith, bit_xor_step a 1, bit_xor-zero_rounds (a / 2) (a / 2) (omega arith))

bit_xor_double : (a b : ℕ) → bit_xor (a * 2) (b * 2) ≡ bit_xor a b * 2
bit_xor_double a b =
    let p : a * 2 / 2 ≡ a = omega arith in
    let q : b * 2 / 2 ≡ b = omega arith in bit_xor_step (a * 2) (b * 2) ∙ rw (p, q) (omega arith)

mul-pow-suc : (k o : ℕ) → k * 2 ^ suc o ≡ k * 2 ^ o * 2
mul-pow-suc k o = omega (arith, ap (λ (t : ℕ). k * t) (pow-suc 2 o))

-- Flipping bit `o` of a multiple of `2 ^ o` flips the lowest bit of the multiplier.
pub bit_xor-pow : (o k : ℕ) → bit_xor (k * 2 ^ o) (2 ^ o) ≡ (k / 2 * 2 + (k % 2 + 1) % 2) * 2 ^ o
bit_xor-pow zero k =
    omega (arith, ap (λ t. bit_xor t 1) {x = k * 1} {y = k} (omega arith), bit_xor-one k)
bit_xor-pow (suc o) k = rw (
  mul-pow-suc k o,
  mul-pow-suc (k / 2 * 2 + (k % 2 + 1) % 2) o,
  pow-suc 2 o,
  bit_xor_double,
  bit_xor-pow o k,
)
