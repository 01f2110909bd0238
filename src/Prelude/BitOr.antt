-- ===== src/Prelude/BitOr.antt =====
-- `bit_or` with a number of few digits: the digits above are kept.
use Prim.Native.Nat.{ℕ, zero, suc, ◌+◌, ◌*◌, ◌/◌, ◌%◌, ◌^◌, ◌≤◌, ◌<◌, bit_or, bit_or-bitwise, max}
use mathlib.Core.Path.{◌≡◌, refl, ◌∙◌}
use native.Mathlib.Nat.{pow-zero, pow-succ', div-one, div-div-eq-div-mul}
use native.Mathlib.Omega.{arith}
use xis.Prelude.Bits.{digits_rounds}

zero-bit_or : (b : ℕ) → bit_or 0 b ≡ b
zero-bit_or b = bit_or-bitwise 0 b

-- The lowest digit apart.
pub bit_or_step : (a b : ℕ) → bit_or a b ≡ bit_or (a / 2) (b / 2) * 2 + max (a % 2) (b % 2)
bit_or_step zero b = omega (arith, zero-bit_or b, zero-bit_or (b / 2))
bit_or_step (suc a) b = omega (
  arith,
  bit_or-bitwise (suc a) b,
  bit_or-bitwise (suc a / 2) (b / 2),
  digits_rounds (λ b. b) max a (suc a / 2) (suc a / 2) (b / 2) (omega arith) (omega arith),
)

bit_or-zero_rounds : (n a : ℕ) → a ≤ n → bit_or a 0 ≡ a
bit_or-zero_rounds n zero h = refl
bit_or-zero_rounds zero (suc a) h = absurd (omega arith)
bit_or-zero_rounds (suc n) (suc a) h =
    omega (arith, bit_or_step (suc a) 0, bit_or-zero_rounds n (suc a / 2) (omega arith))

pub bit_or-zero : (a : ℕ) → bit_or a 0 ≡ a
bit_or-zero a = bit_or-zero_rounds a a (omega arith)

pub bit_or-mod : (a b : ℕ) → bit_or a b % 2 ≡ max (a % 2) (b % 2)
bit_or-mod a b = omega (arith, bit_or_step a b)

bit_or-div : (a b : ℕ) → bit_or a b / 2 ≡ bit_or (a / 2) (b / 2)
bit_or-div a b = omega (arith, bit_or_step a b)

pub bit_or-div-pow : (k a b : ℕ) → bit_or a b / 2 ^ k ≡ bit_or (a / 2 ^ k) (b / 2 ^ k)
bit_or-div-pow zero a b = simp (pow-zero, div-one)
bit_or-div-pow (suc k) a b =
    simp (pow-succ', ← div-div-eq-div-mul, bit_or-div) (bit_or-div-pow k (a / 2) (b / 2))

-- The flags in the low twelve bits of a page table entry leave the frame number alone.
pub bit_or-page : (a f : ℕ) → f < 4096 → bit_or a f / 4096 ≡ a / 4096
bit_or-page a f h =
    let none_left : f / 4096 ≡ 0 = omega arith in
    bit_or-div-pow 12 a f ∙ rw none_left (bit_or-zero (a / 4096))

-- The lowest bit is set if that of one of the two is.
pub bit_or_odd : (a b : ℕ) → b % 2 ≡ 1 → bit_or a b % 2 ≡ 1
bit_or_odd a b h = omega (arith, bit_or-mod a b)

pub bit_or_odd_left : (a b : ℕ) → a % 2 ≡ 1 → bit_or a b % 2 ≡ 1
bit_or_odd_left a b h = omega (arith, bit_or-mod a b)
