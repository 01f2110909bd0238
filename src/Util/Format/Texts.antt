-- ===== src/Util/Format/Texts.antt =====
-- util.c, `sprintf`: the strings that the numbers leave, and the arguments that are read.
use mathlib.Core.Path.{subst}
use native.Mathlib.Nat.{mod-lt}
use xis.Prelude.{
  ℕ, zero, suc, ◌+◌, ◌-◌, ◌/◌, ◌%◌, ◌^◌, ◌<◌, ◌≡◌, ◌≢◌, refl, ap, ◌∙◌, Bool, true, false, List, [],
  ◌∷◌, ◌++◌, leb, length, arith, Bool-cases, inl, inr, ne→==,
}
use xis.Prelude.Maps.{update}
use xis.Util.{Bytes, itoa_base, ptrtoa, lltoa_base, string_at, print_digits}
use xis.Util.Digits.{IsBase, width}
use xis.Util.Numeral.{width-fuel}
use xis.Util.Hex.{numeral, print_digits-Shows, string_at-Shows}
use xis.Util.Pad.{ptrtoa_lem}
use xis.Util.Lltoa.{lltoa_lem}
use xis.Util.Format.{word}
use xis.Util.Format.Items.{
  Item, plain, percent, signed, hexadecimal, unsigned, pointer, long_hexadecimal,
  long_long_hexadecimal, string, pushed, number, meaning, expand, Holds, IsText, IsItem, AreItems,
}

pub string_at-Holds :
    (n a : ℕ) (l : List ℕ) (m : Bytes)
    → length l < n
    → IsText l
    → Holds m a (l ++ 0 ∷ [])
    → string_at n a m ≡ l
unfolding string_at
string_at-Holds zero a l m h t s = absurd (omega arith)
string_at-Holds (suc n) a [] m h t (z, _) = rw z refl
string_at-Holds (suc n) a (c ∷ l) m h (pos, _, t) (here, rest) =
    rw (here, ne→== c 0 (λ z. omega arith))
      (ap (λ x. c ∷ x) (string_at-Holds n (a + 1) l m (omega arith) t rest))

number-Shows :
    (n base v p : ℕ) (m : Bytes)
    → IsBase base
    → 32 < n
    → string_at n p (print_digits base v p m) ≡ number base v
number-Shows n base v p m b h =
    string_at-Shows n base p (width 32 base v) v (print_digits base v p m)
      (omega (arith, width-fuel 32 base v)) (print_digits-Shows base v p m b).0

pub hexadecimal_text :
    (v : ℕ) (not_signed : Bool) (m : Bytes)
    → string_at (2 ^ 32) 0 (itoa_base v 0 16 not_signed m) ≡ number 16 v
unfolding itoa_base
hexadecimal_text v not_signed m = number-Shows (2 ^ 32) 16 v 0 m (inr refl) (omega arith)

pub unsigned_text :
    (v : ℕ) (m : Bytes) → string_at (2 ^ 32) 0 (itoa_base v 0 10 true m) ≡ number 10 v
unfolding itoa_base
unsigned_text v m = number-Shows (2 ^ 32) 10 v 0 m (inl refl) (omega arith)

string_at-first :
    (n p : ℕ) (m : Bytes) → m p ≢ 0 → string_at (suc n) p m ≡ m p ∷ string_at n (p + 1) m
unfolding string_at
string_at-first n p m h = rw (ne→== (m p) 0 h) refl

pub signed_text :
    (v : ℕ) (m : Bytes) → string_at (2 ^ 32) 0 (itoa_base v 0 10 false m) ≡ meaning (signed v)
unfolding itoa_base
signed_text v m = elim (Bool-cases (leb (2 ^ 31) v)) [
  | inl e ↦
      let w = 2 ^ 32 - v in
      let m1 = update m 0 b'-' in
      let out = print_digits 10 w 1 m1 in
      let (shown, keeps) = print_digits-Shows 10 w 1 m1 (inl refl) in
      let minus : out 0 ≡ b'-' = keeps 0 (inl (omega arith)) in
      rw e (
        ap (λ n. string_at n 0 out) {x = 2 ^ 32} {y = suc (2 ^ 32 - 1)} (omega arith)
        ∙ string_at-first (2 ^ 32 - 1) 0 out (λ z. omega (arith, minus, z))
        ∙ rw (minus, number-Shows (2 ^ 32 - 1) 10 w 1 m1 (inl refl) (omega arith)) refl)
  | inr e ↦ rw e (number-Shows (2 ^ 32) 10 v 0 m (inl refl) (omega arith))
]

-- An argument of 32 bits is read, and the rest of the arguments is behind it.
pub pushed_lem :
    (v a : ℕ) (l : List ℕ) (m : Bytes)
    → v < 2 ^ 32
    → Holds m a (pushed v ++ l)
    → (word m a ≡ v) × Holds m (a + 4) l
pushed_lem v a l m h (b0, (b1, (b2, (b3, rest)))) =
    let b2' : m (a + 2) ≡ v / 2 ^ 16 % 256 = ap m (omega arith) ∙ b2 in
    let b3' : m (a + 3) ≡ v / 2 ^ 24 % 256 = ap m (omega arith) ∙ b3 in
    (
      omega (arith, b0, b1, b2', b3'),
      subst (λ t. Holds m t l) {x = a + 1 + 1 + 1 + 1} {y = a + 4} (omega arith) rest,
    )

pub pointer_text :
    (v : ℕ) (m : Bytes) → v < 2 ^ 32 → string_at (2 ^ 32) 0 (ptrtoa v 0 m) ≡ numeral 8 16 v
pointer_text v m h =
    string_at-Shows (2 ^ 32) 16 0 8 v (ptrtoa v 0 m) (omega arith) (ptrtoa_lem v 0 m h).0

pub long_long_text :
    (v : ℕ) (m : Bytes)
    → v < 2 ^ 64
    → string_at (2 ^ 32) 0 (lltoa_base v 0 16 true m) ≡ numeral 16 16 v
long_long_text v m h =
    string_at-Shows (2 ^ 32) 16 0 16 v (lltoa_base v 0 16 true m) (omega arith)
      (lltoa_lem v 0 true m h).0

IsText-append : (l l' : List ℕ) → IsText l → IsText l' → IsText (l ++ l')
IsText-append [] l' t t' = t'
IsText-append (c ∷ l) l' (pos, small, t) t' = (pos, small, IsText-append l l' t t')

numeral-IsText : (k base v : ℕ) → 0 < base → base < 17 → IsText (numeral k base v)
unfolding numeral
numeral-IsText zero base v pos h = tt
numeral-IsText (suc k) base v pos h =
    let small = mod-lt (v / base ^ k) pos in
    (ground arith, ground (arith, small), numeral-IsText k base v pos h)

meaning-IsText : (i : Item) (m : Bytes) → IsItem m i → IsText (meaning i)
meaning-IsText (plain c) m (t, _) = t
meaning-IsText percent m h = (omega arith, omega arith, tt)
meaning-IsText (signed v) m h = elim (Bool-cases (leb (2 ^ 31) v)) [
  | inl e ↦ rw e (
    omega arith,
    omega arith,
    numeral-IsText (width 32 10 (2 ^ 32 - v)) 10 (2 ^ 32 - v) (omega arith) (omega arith),
  )
  | inr e ↦ rw e (numeral-IsText (width 32 10 v) 10 v (omega arith) (omega arith))
]
meaning-IsText (hexadecimal v) m h = numeral-IsText (width 32 16 v) 16 v (omega arith) (omega arith)
meaning-IsText (unsigned v) m h = numeral-IsText (width 32 10 v) 10 v (omega arith) (omega arith)
meaning-IsText (pointer v) m h = numeral-IsText 8 16 v (omega arith) (omega arith)
meaning-IsText (long_hexadecimal v) m h =
    numeral-IsText (width 32 16 v) 16 v (omega arith) (omega arith)
meaning-IsText (long_long_hexadecimal v) m h = numeral-IsText 16 16 v (omega arith) (omega arith)
meaning-IsText (string a l) m (_, _, t, _) = t

pub expand-IsText : (items : List Item) (m : Bytes) → AreItems m items → IsText (expand items)
expand-IsText [] m h = tt
expand-IsText (i ∷ items) m (is, are) =
    IsText-append (meaning i) (expand items) (meaning-IsText i m is) (expand-IsText items m are)
