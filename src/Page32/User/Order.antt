-- ===== src/Page32/User/Order.antt =====
-- memory.h: `NPAGES_TO_ORDER` is the order of the smallest block that holds the pages.
use native.Mathlib.Nat.{pow-suc}
use xis.Prelude.{
  ℕ, zero, suc, ◌*◌, ◌/◌, ◌%◌, ◌^◌, ◌≤◌, ◌<◌, ◌≡◌, ◌≢◌, ap, sym, ==→eq, ==→ne, false, leb, ◌==◌,
  arith, Bool-cases, inl, inr,
}
use xis.Page32.User.{log2_loop, ctz_loop, npages_to_order}

log2_loop_lem :
    (r n : ℕ) → 0 < n → n < 2 ^ r → (2 ^ log2_loop r n ≤ n) × (n < 2 ^ suc (log2_loop r n))
unfolding log2_loop
log2_loop_lem zero n a b = absurd (omega arith)
log2_loop_lem (suc r) n a b = elim (Bool-cases (leb n 1)) [
  | inl e ↦ rw e (ground arith, ground arith)
  | inr e ↦
      let l = log2_loop r (n / 2) in
      let h = log2_loop_lem r (n / 2) (ground arith) (omega (arith, pow-suc 2 r)) in
      rw e (omega (arith, h, pow-suc 2 l), omega (arith, h, pow-suc 2 (suc l)))
]

-- The number of trailing zeros is the logarithm exactly for a power of two.
ctz_loop_lem : (r n : ℕ) → 0 < n → n < 2 ^ r → ctz_loop r n ≡ log2_loop r n → n ≡ 2 ^ log2_loop r n
unfolding log2_loop ctz_loop
ctz_loop_lem zero n a b e = absurd (omega arith)
ctz_loop_lem (suc r) n a b e = elim (Bool-cases (leb n 1)) [
  | inl s ↦ rw s (ground arith)
  | inr s ↦
      let even : (n % 2 == 1) ≡ false = ground (arith, rw s at e) in
      let l = log2_loop r (n / 2) in
      let h =
        ctz_loop_lem r (n / 2) (ground arith) (omega (arith, pow-suc 2 r))
          (ground (arith, rw (s, even) at e)) in
      rw s (ground (arith, h, pow-suc 2 l))
]

ctz_loop-pow : (r n : ℕ) → 0 < n → n < 2 ^ r → n ≡ 2 ^ log2_loop r n → ctz_loop r n ≡ log2_loop r n
unfolding log2_loop ctz_loop
ctz_loop-pow zero n a b e = absurd (omega arith)
ctz_loop-pow (suc r) n a b e = elim (Bool-cases (leb n 1)) [
  | inl s ↦ ground arith
  | inr s ↦
      let l = log2_loop r (n / 2) in
      let double = pow-suc 2 l in
      let power : n ≡ 2 ^ suc l = rw s at e in
      let h =
        ctz_loop-pow r (n / 2) (ground arith) (omega (arith, pow-suc 2 r))
          (omega (arith, power, double)) in
      let even : (n % 2 == 1) ≡ false = ground (arith, power, double) in rw (s, even) (ap suc h)
]

-- For a number of pages of 32 bits that is not 0: a block of this order holds the pages, and one
-- of half the size does not.
pub npages_to_order_lem :
    (n : ℕ) → 0 < n → n < 2 ^ 32 → (n ≤ 2 ^ npages_to_order n) × (2 ^ npages_to_order n < 2 * n)
unfolding npages_to_order
npages_to_order_lem n a b =
    let l = log2_loop 32 n in
    let h = log2_loop_lem 32 n a b in
    let double = pow-suc 2 l in
    elim (Bool-cases (l == ctz_loop 32 n)) [
      | inl e ↦
          let p = ctz_loop_lem 32 n a b (sym (==→eq l (ctz_loop 32 n) e)) in
          rw e (omega (arith, p), omega (arith, p))
      | inr e ↦
          let other : n ≢ 2 ^ l = λ p. ==→ne l (ctz_loop 32 n) e (sym (ctz_loop-pow 32 n a b p)) in
          rw e (omega (arith, h), omega (arith, h, double, other))
    ]
