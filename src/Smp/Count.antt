-- ===== src/Smp/Count.antt =====
-- smp.c: the processors count themselves in, in any order.
use Prim.Native.Nat.{bit_or}
use native.Mathlib.Nat.{
  pow-suc, pow-succ', div-one, pow-zero, div-eq_of_lt, div-div-eq-div-mul, mod-eq_of_lt,
  pow-le-pow_right,
}
use xis.Prelude.BitOr.{bit_or-div-pow, bit_or-mod}
use xis.Prelude.{
  ℕ, zero, suc, ◌+◌, ◌/◌, ◌%◌, ◌^◌, ◌≤◌, ◌<◌, ◌≡◌, refl, sym, ap, ◌∙◌, Bool, false, ◌||◌, ◌==◌,
  if◌then◌else◌, arith, Bool-cases, inl, inr, Option, none, some, List, [], ◌∷◌, length,
}
use xis.Smp.{Smp, count_in}

-- The processors of the list, one after the other; none when one of them has to wait.
unfoldable pub count_all : List ℕ → Smp → Option Smp
count_all [] s = some s
count_all (i ∷ l) s = elim (count_in i s) [ none ↦ none | some s' ↦ count_all l s' ]

abbrev pub member : ℕ → List ℕ → Bool
member k [] = false
member k (i ∷ l) = i == k || member k l

abbrev pub AreBelow : ℕ → List ℕ → Type 0
AreBelow n [] = Unit
AreBelow n (i ∷ l) = (i < n) × AreBelow n l

abbrev pub bit : ℕ → ℕ → ℕ
bit v k = v / 2 ^ k % 2

one-below : (k : ℕ) → 1 ≤ 2 ^ k
one-below zero = omega arith
one-below (suc k) = omega (arith, pow-suc 2 k, one-below k)

pow_bit : (i k : ℕ) → bit (2 ^ i) k ≡ (if i == k then 1 else 0)
pow_bit zero zero = refl
pow_bit zero (suc k) =
    let small : 1 / 2 ^ suc k ≡ 0 = div-eq_of_lt (omega (arith, pow-suc 2 k, one-below k)) in
    rw small (ground arith)
pow_bit (suc i) zero = rw (pow-zero 2, div-one (2 ^ suc i)) (grind (arith, pow-suc 2 i))
pow_bit (suc i) (suc k) =
    let half : 2 ^ suc i / 2 ≡ 2 ^ i = omega (arith, pow-suc 2 i) in
    let step : 2 ^ suc i / 2 ^ suc k ≡ 2 ^ i / 2 ^ k =
      ap (λ t. 2 ^ suc i / t) (pow-succ' 2 k)
      ∙ sym (div-div-eq-div-mul (2 ^ suc i) 2 (2 ^ k))
      ∙ ap (λ t. t / 2 ^ k) half in
    ap (λ t. t % 2) step ∙ pow_bit i k ∙ ground arith

-- A bit of the mask behind one processor.
bit-bit_or : (v i k : ℕ) → bit (bit_or v (2 ^ i)) k ≡ (if i == k then 1 else bit v k)
bit-bit_or v i k =
    ap (λ t. t % 2) (bit_or-div-pow k v (2 ^ i))
    ∙ bit_or-mod (v / 2 ^ k) (2 ^ i / 2 ^ k)
    ∙ rw (pow_bit i k) (grind arith)

word_bit : (i : ℕ) → i < 32 → 2 ^ i % 2 ^ 32 ≡ 2 ^ i
word_bit i h =
    mod-eq_of_lt
      (omega (arith, pow-le-pow_right {n = 2} (omega arith) {i = i} {j = 31} (omega arith)))

abbrev counted : ℕ → Smp → Smp
counted i s = record s {
  smp_nums = (s.smp_nums + 1) % 2 ^ 32;
  smp_bits = bit_or s.smp_bits (2 ^ i % 2 ^ 32);
}

count_first :
    (i : ℕ) (l : List ℕ) (s : Smp)
    → s.smp_on_hold ≡ false
    → count_all (i ∷ l) s ≡ count_all l (counted i s)
unfolding count_all count_in
count_first i l s h =
    ap
      (λ b. elim (if b then none else some (counted i s)) as (λ (o : Option Smp). Option Smp) [
        | none ↦ none
        | some s' ↦ count_all l s'
      ])
      h

-- While the start is not on hold, the processors below 32 of the list count themselves in one after
-- the other, and none waits: the number has grown by theirs, and the mask has the bits of the
-- processors of the list and those it had.
pub count_all_lem :
    (l : List ℕ) (s : Smp)
    → AreBelow 32 l
    → s.smp_on_hold ≡ false
    → s.smp_nums < 2 ^ 32
    → (s' : Smp) × (count_all l s ≡ some s')
      × (s'.smp_nums ≡ (s.smp_nums + length l) % 2 ^ 32)
      × ((k : ℕ) → bit s'.smp_bits k ≡ (if member k l then 1 else bit s.smp_bits k))
unfolding count_all
count_all_lem [] s b h n = (s, refl, omega arith, λ k. refl)
count_all_lem (i ∷ l) s (below, b) h n =
    let s1 = counted i s in
    let (s', ran, nums, bits) = count_all_lem l s1 b h (omega arith) in
    (
      s',
      count_first i l s h ∙ ran,
      nums ∙ omega arith,
      λ k.
          let here : bit (bit_or s.smp_bits (2 ^ i % 2 ^ 32)) k
              ≡ (if i == k then 1 else bit s.smp_bits k) =
            ap (λ t. bit (bit_or s.smp_bits t) k) (word_bit i below) ∙ bit-bit_or s.smp_bits i k in
          bits k
          ∙ rw here (elim (Bool-cases (member k l)) [
            | inl e ↦ ground (arith, e)
            | inr e ↦ ground (arith, e)
          ]),
    )
