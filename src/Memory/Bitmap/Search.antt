-- ===== src/Memory/Bitmap/Search.antt =====
-- memory.c, `bitmap_firstfreebitset`: which bit is set, and which number is returned for it.
use xis.Prelude.Maps.{update}
use xis.Prelude.{
  ℕ, zero, suc, ◌+◌, ◌-◌, ◌*◌, ◌/◌, ◌%◌, ◌^◌, ◌<◌, ◌≡◌, ◌≢◌, refl, ap, sym, ◌∙◌, Bool, true, false,
  ◌&&◌, ltb, ◌==◌, if◌then◌else◌, arith, Bool-cases, ==→eq, ==→ne, ne→==, inl, inr,
}
use mathlib.Core.Path.{subst}
use native.Mathlib.Nat.{one-le-pow}
use xis.Util.{Bytes}
use xis.Memory.Bitmap.{bit_loop, minus_one, set_lowest, first_loop, bitmap_firstfreebitset}

-- The position of the lowest bit that is not set.
lowest : ℕ → ℕ → ℕ
lowest zero v = 0
lowest (suc r) v = let rest = lowest r (v / 2) in if v % 2 == 0 then 0 else suc rest

-- What is to hold of a byte, as a test.
abbrev byte_test : ℕ → Bool
byte_test v =
    let k = lowest 8 v in
    ltb k 8
    && (v % (2 * 2 ^ k) + 1 == 2 ^ k)
    && (set_lowest v == v + 2 ^ k)
    && (bit_loop 32 (2 ^ k) minus_one == k)

all_below : ℕ → (ℕ → Bool) → Bool
all_below zero f = true
all_below (suc n) f = let rest = all_below n f in f n && rest

all_below_lem : (n : ℕ) (f : ℕ → Bool) → all_below n f ≡ true → (v : ℕ) → v < n → f v ≡ true
unfolding all_below
all_below_lem zero f h v l = absurd (omega arith)
all_below_lem (suc n) f h v l = elim (Bool-cases (f n)) [
  | inr out ↦ absurd (cc (rw out at h))
  | inl here ↦ elim (Bool-cases (v == n)) [
    | inl e ↦ rw (==→eq v n e) here
    | inr e ↦
        let other = ==→ne v n e in all_below_lem n f (rw here at h) v (omega (arith, l, other))
  ]
]

all_bytes : all_below 255 byte_test ≡ true
unfolding all_below lowest bit_loop
all_bytes = refl

and4 :
    (a b c d : Bool) → (a && b && c && d) ≡ true → (a ≡ true) × (b ≡ true) × (c ≡ true) × (d ≡ true)
and4 true true true true e = (refl, refl, refl, refl)
and4 true true true false e = absurd (cc e)
and4 true true false d e = absurd (cc e)
and4 true false c d e = absurd (cc e)
and4 false b c d e = absurd (cc e)

-- The lowest clear bit of a byte: its number, the bits below it, and what the code makes of it.
ltb_lem : (a b : ℕ) → ltb a b ≡ true → a < b
ltb_lem a b h = ground arith

record LowestClear (v k : ℕ) : Type 0 where
  pub small : k < 8
  pub ones_below : v % (2 * 2 ^ k) + 1 ≡ 2 ^ k
  pub is_set : set_lowest v ≡ v + 2 ^ k
  pub counted : bit_loop 32 (2 ^ k) minus_one ≡ k

lowest-LowestClear : (v : ℕ) → v < 255 → LowestClear v (lowest 8 v)
lowest-LowestClear v l =
    let k = lowest 8 v in
    let (a, b, c, d) = and4 _ _ _ _ (all_below_lem 255 byte_test all_bytes v l) in
    record {
      small = ltb_lem k 8 a;
      ones_below = ==→eq (v % (2 * 2 ^ k) + 1) (2 ^ k) b;
      is_set = ==→eq (set_lowest v) (v + 2 ^ k) c;
      counted = ==→eq (bit_loop 32 (2 ^ k) minus_one) k d;
    }

kept_byte : (m : Bytes) (p a : ℕ) → m p ≡ 255 → update m p 255 a ≡ m a
kept_byte m p a h = elim (Bool-cases (p == a)) [
  | inl e ↦ rw e (sym h ∙ ap m (==→eq p a e))
  | inr e ↦ rw e refl
]

found_here :
    (n count p : ℕ) (m : Bytes)
    → m p < 255
    → count + 8 < 2 ^ 32
    → let k = lowest 8 (m p) in
      ((first_loop (suc n) count p m).0 ≡ k + (count + 0))
      × ((a : ℕ) → (first_loop (suc n) count p m).1 a ≡ (if p == a then m a + 2 ^ k else m a))
unfolding first_loop
found_here n count p m free fit =
    let k = lowest 8 (m p) in
    let bit = lowest-LowestClear (m p) free in
    let positive = one-le-pow k 2 (omega arith) in
    let grows : set_lowest (m p) ≢ m p = λ e. omega (arith, e, bit.is_set, positive) in
    let difference : set_lowest (m p) - m p ≡ 2 ^ k = omega (arith, bit.is_set) in
    rw (ne→== (set_lowest (m p)) (m p) grows, difference, bit.counted)
      (
        omega (arith, bit.small),
        λ a. elim (Bool-cases (p == a)) [
          | inl e ↦ rw e (bit.is_set ∙ ap (λ t. m t + 2 ^ k) (==→eq p a e))
          | inr e ↦ rw e refl
        ],
      )

-- The loop from a byte on, where the first byte that is not full is `c` bytes further.
loop_found :
    (c n count p : ℕ) (m : Bytes)
    → c < n
    → ((j : ℕ) → j < c → m (p + j) ≡ 255)
    → m (p + c) < 255
    → count + n + 8 < 2 ^ 32
    → let k = lowest 8 (m (p + c)) in
      ((first_loop n count p m).0 ≡ k + (count + c))
      × ((a : ℕ) → (first_loop n count p m).1 a ≡ (if p + c == a then m a + 2 ^ k else m a))
unfolding first_loop
loop_found c zero count p m l full free fit = absurd (omega arith)
loop_found zero (suc n) count p m l full free fit =
    let here : p ≡ p + 0 = omega arith in
    subst
      (λ q.
        ((first_loop (suc n) count p m).0 ≡ lowest 8 (m q) + (count + 0))
        × ((a : ℕ)
            → (first_loop (suc n) count p m).1 a
              ≡ (if q == a then m a + 2 ^ lowest 8 (m q) else m a)))
      here (found_here n count p m (subst (λ q. m q < 255) (sym here) free) (omega arith))
loop_found (suc c) (suc n) count p m l full free fit =
    let here : m p ≡ 255 = subst (λ q. m q ≡ 255) (omega arith) (full 0 (omega arith)) in
    let there : p + 1 + c ≡ p + suc c = omega arith in
    let kept : (a : ℕ) → update m p 255 a ≡ m a = λ a. kept_byte m p a here in
    let same : update m p 255 ≡ m = λ i a. kept a i in
    let (at, bytes) =
      loop_found c n (count + 1) (p + 1) m (omega arith)
        (λ j h. subst (λ q. m q ≡ 255) (omega arith) (full (suc j) (omega arith)))
        (subst (λ q. m q < 255) (sym there) free) (omega arith) in
    let k = lowest 8 (m (p + suc c)) in
    rw (here, same)
      (
        at ∙ ap (λ q. lowest 8 (m q) + (count + 1 + c)) there ∙ omega arith,
        λ a. bytes a ∙ ap (λ q. if q == a then m a + 2 ^ lowest 8 (m q) else m a) there,
      )

-- For a bitmap whose first `c` bytes are full and whose next one is not: the lowest clear bit `k`
-- of that byte is set, no other bit changes, and the number returned is `k + c`, with one for each
-- full byte and not eight.
pub bitmap_firstfreebitset_lem :
    (bitmap bitmap_size c : ℕ) (m : Bytes)
    → c < bitmap_size
    → bitmap_size + 8 < 2 ^ 32
    → ((j : ℕ) → j < c → m (bitmap + j) ≡ 255)
    → m (bitmap + c) < 255
    → (k : ℕ) × (k < 8)
      × (m (bitmap + c) % (2 * 2 ^ k) + 1 ≡ 2 ^ k)
      × ((bitmap_firstfreebitset bitmap bitmap_size m).0 ≡ k + c)
      × ((a : ℕ)
          → (bitmap_firstfreebitset bitmap bitmap_size m).1 a
            ≡ (if bitmap + c == a then m a + 2 ^ k else m a))
unfolding bitmap_firstfreebitset
bitmap_firstfreebitset_lem bitmap bitmap_size c m l fit full free =
    let bit = lowest-LowestClear (m (bitmap + c)) free in
    let (at, bytes) = loop_found c bitmap_size 0 bitmap m l full free (omega arith) in
    (lowest 8 (m (bitmap + c)), bit.small, bit.ones_below, at ∙ omega arith, bytes)
