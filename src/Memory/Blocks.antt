-- ===== src/Memory/Blocks.antt =====
-- memory.c, buddy allocator: blocks of frames, and the buddy of a block.
use native.Mathlib.Nat.{pow-suc, one-le-pow}
use native.Mathlib.Decide.{dec_lt, dec_le}
use mathlib.Core.Path.{subst}
use xis.Prelude.{ℕ, suc, ◌+◌, ◌*◌, ◌/◌, ◌%◌, ◌^◌, ◌≤◌, ◌<◌, ◌≡◌, ◌⊎◌, inl, inr, sym, ap, ◌∙◌, arith}
use xis.Prelude.Bits.{bit_xor-pow}
use xis.Memory.{buddy_of, first_of}

-- The frames of the block of `2 ^ o` frames from `p` on.
abbrev pub InBlock : ℕ → ℕ → ℕ → Type 0
InBlock p o f = (p ≤ f) × (f < p + 2 ^ o)

abbrev pub Apart : ℕ → ℕ → ℕ → ℕ → Type 0
Apart p o q o' = (p + 2 ^ o ≤ q) ⊎ (q + 2 ^ o' ≤ p)

abbrev pub IsAligned : ℕ → ℕ → Type 0
IsAligned p o = (k : ℕ) × (p ≡ k * 2 ^ o)

pub pow_pos : (o : ℕ) → 1 ≤ 2 ^ o
pow_pos o = one-le-pow o 2 (omega arith)

-- Where the buddy of an aligned block stands, and what the two make up together.
pub record Halves (p o other : ℕ) : Type 0 where
  pub side : (other ≡ p + 2 ^ o) ⊎ (p ≡ other + 2 ^ o)
  pub aligned_first : IsAligned (first_of p other) (suc o)

-- An even multiple is the lower half, an odd one the upper half.
buddy_parity :
    (o k : ℕ)
    → ((k % 2 ≡ 0) × (buddy_of (k * 2 ^ o) o ≡ k * 2 ^ o + 2 ^ o))
      ⊎ ((k % 2 ≡ 1) × (k * 2 ^ o ≡ buddy_of (k * 2 ^ o) o + 2 ^ o))
buddy_parity o k = elim (dec_lt (k % 2) 1) [
  | yes even ↦
      let e : k / 2 * 2 + (k % 2 + 1) % 2 ≡ k + 1 = omega arith in
      inl (omega arith, bit_xor-pow o k ∙ rw e (omega arith))
  | no odd ↦
      let e : k ≡ k / 2 * 2 + (k % 2 + 1) % 2 + 1 = omega arith in
      inr (omega arith, ap (λ t. t * 2 ^ o) e ∙ rw (bit_xor-pow o k) (omega arith))
]

first_of_lt : (p q : ℕ) → p < q → first_of p q ≡ p
first_of_lt p q h = ground arith

first_of_gt : (p q : ℕ) → q < p → first_of p q ≡ q
first_of_gt p q h = ground arith

half_pow : (k o : ℕ) → k / 2 * 2 ^ suc o ≡ k / 2 * 2 * 2 ^ o
half_pow k o = omega (arith, ap (λ (t : ℕ). k / 2 * t) (pow-suc 2 o))

multiple-Halves : (o k : ℕ) → Halves (k * 2 ^ o) o (buddy_of (k * 2 ^ o) o)
multiple-Halves o k = elim (buddy_parity o k) [
  | inl (even, e) ↦ record {
    side = inl e;
    aligned_first = (
      k / 2,
      first_of_lt (k * 2 ^ o) (buddy_of (k * 2 ^ o) o) (omega (arith, pow_pos o))
          ∙ ap (λ t. t * 2 ^ o) {x = k} {y = k / 2 * 2} (omega arith)
          ∙ sym (half_pow k o),
    );
  }
  | inr (odd, e) ↦ record {
    side = inr e;
    aligned_first = (
      k / 2,
      first_of_gt (k * 2 ^ o) (buddy_of (k * 2 ^ o) o) (omega (arith, pow_pos o))
          ∙ omega
              (arith, half_pow k o, ap (λ t. t * 2 ^ o) {x = k} {y = k / 2 * 2 + 1} (omega arith)),
    );
  }
]

pub buddy-Halves : (p o : ℕ) → IsAligned p o → Halves p o (buddy_of p o)
buddy-Halves p o (k, e) = subst (λ t. Halves t o (buddy_of t o)) (sym e) (multiple-Halves o k)

-- The lower half of an aligned block, and its buddy.
pub lower_half :
    (p o : ℕ)
    → IsAligned p (suc o)
    → (buddy_of p o ≡ p + 2 ^ o) × IsAligned p o × IsAligned (p + 2 ^ o) o
lower_half p o (k, e) = (
  elim (buddy_parity o (k * 2)) [
    | inl (even, x) ↦ subst (λ t. buddy_of t o ≡ t + 2 ^ o) (sym twice) x
    | inr (odd, x) ↦ absurd (omega arith)
  ],
  (k * 2, twice),
  (k * 2 + 1, omega (arith, twice)),
)
  where
    twice : p ≡ k * 2 * 2 ^ o
    twice = omega (arith, e, ap (λ (t : ℕ). k * t) (pow-suc 2 o))

-- Two blocks are apart or share a frame.
pub overlap : (p o q o' : ℕ) → Apart p o q o' ⊎ ((f : ℕ) × InBlock p o f × InBlock q o' f)
overlap p o q o' = elim (dec_le p q) [
  | yes a ↦ elim (dec_le (p + 2 ^ o) q) [
    | yes c ↦ inl (inl c)
    | no c ↦ inr (q, omega arith, omega (arith, pow_pos o'))
  ]
  | no a ↦ elim (dec_le (q + 2 ^ o') p) [
    | yes c ↦ inl (inr c)
    | no c ↦ inr (p, omega (arith, pow_pos o), omega arith)
  ]
]
