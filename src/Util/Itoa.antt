-- ===== src/Util/Itoa.antt =====
-- util.c: what `_itoa` promises.
use native.Mathlib.Nat.{div-eq_of_lt}
use xis.Prelude.{
  ℕ, suc, ◌+◌, ◌-◌, ◌/◌, ◌^◌, ◌≤◌, ◌<◌, ◌≡◌, ◌⊎◌, ap, sym, ◌∙◌, Bool, true, false, not, arith, ◌&&◌,
  ◌||◌, ◌==◌, some, leb, ltb, if◌then◌else◌, Bool-cases, inl, inr,
}
use xis.Prelude.Maps.{update}
use xis.Util.{Bytes, print_digits, itoa_base}
use xis.Util.Digits.{IsBase, width}
use xis.Util.Numeral.{
  atoi, atoi_loop, lt-width, width-le, print_digits_lem, print_digits-le, atoi_loop_lem,
}

width-ten : (base value : ℕ) → IsBase base → value < 2 ^ 32 → width 32 base value ≤ 10
width-ten base value (inl e) l = width-le 32 9 base value (inl e) (rw e (omega arith))
width-ten base value (inr e) l = width-le 32 9 base value (inr e) (rw e (omega arith))

small-pow : (base value : ℕ) → IsBase base → value < 2 ^ 32 → value < base ^ 32
small-pow base value (inl e) l = rw e (omega arith)
small-pow base value (inr e) l = rw e (omega arith)

-- The number printed is read back, and at most eleven bytes change.
print_digits-atoi :
    (base value str : ℕ) (m : Bytes)
    → IsBase base
    → value < 2 ^ 32
    → (atoi base str (print_digits base value str m) ≡ some value)
      × ((a : ℕ) → (a < str) ⊎ (str + 11 ≤ a) → print_digits base value str m a ≡ m a)
print_digits-atoi base value str m h l =
    let w = width 32 base value in
    let out = print_digits base value str m in
    let ten = width-ten base value h l in
    let start : value / base ^ w ≡ 0 =
      div-eq_of_lt (lt-width 32 base value h (small-pow base value h l)) in
    let read : atoi_loop (suc (w + (15 - w))) base (value / base ^ w) str out ≡ some value =
      atoi_loop_lem w (15 - w) base value str out h
        (λ j b. grind (arith, print_digits_lem base value str m (str + j) h))
        (ground (arith, print_digits_lem base value str m (str + w) h)) in
    (
      ap (λ f. atoi_loop f base 0 str out) (omega arith)
          ∙ ap (λ v. atoi_loop (suc (w + (15 - w))) base v str out) (sym start)
          ∙ read,
      λ a o. ground (arith, print_digits_lem base value str m a h),
    )

abbrev pub negative : ℕ → ℕ → Bool → Bool
negative val base not_signed = base == 10 && not not_signed && leb (2 ^ 31) val

-- For the 32 bits of an integer and base 10 or 16, `_itoa` leaves a string of the digits 0 to 9, and in
-- base 16 A to F, that reads back as the number, signed in base 10 unless `not_signed` is set: a negative one has a minus sign in front
-- of the magnitude. At most twelve bytes from `str` on are written, so the callers' 20 bytes are
-- enough.
pub itoa_lem :
    (val str base : ℕ) (not_signed : Bool) (m : Bytes)
    → val < 2 ^ 32
    → IsBase base
    → let out = itoa_base val str base not_signed m in
      let neg = negative val base not_signed in
      ((out str == b'-') ≡ neg)
      × (atoi base (if neg then str + 1 else str) out ≡ some (if neg then 2 ^ 32 - val else val))
      × ((a : ℕ) → leb str a && ltb a (str + 12) || out a == m a ≡ true)
unfolding itoa_base
itoa_lem val str base not_signed m l h =
    let guard : (base == 10 || base == 16) ≡ true = ground arith in
    elim (Bool-cases (negative val base not_signed)) [
      | inl e ↦
          let m' = update m str b'-' in
          let r = print_digits-atoi base (2 ^ 32 - val) (str + 1) m' h (ground arith) in
          let t : not (base == 16) && not not_signed && leb (2 ^ 31) val ≡ true = ground arith in
          rw (guard, t, e) (grind (arith, r.1 str), r.0, λ a. ground (arith, r.1 a))
      | inr e ↦
          let r = print_digits-atoi base val str m h l in
          let t : not (base == 16) && not not_signed && leb (2 ^ 31) val ≡ false = ground arith in
          rw (guard, t, e)
            (grind (arith, print_digits-le base val str m h), r.0, λ a. ground (arith, r.1 a))
    ]
