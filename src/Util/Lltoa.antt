-- ===== src/Util/Lltoa.antt =====
-- util.c: what `_lltoa` prints in base 16.
use mathlib.Core.Path.{subst}
use native.Mathlib.Nat.{pow-suc, div-div-eq-div-mul}
use xis.Prelude.{
  ℕ, zero, suc, ◌+◌, ◌-◌, ◌*◌, ◌/◌, ◌%◌, ◌^◌, ◌≤◌, ◌<◌, ◌≡◌, refl, ap, sym, ◌∙◌, Bool, true, false,
  arith, inl, inr, ◌==◌, ltb, if◌then◌else◌, not, Bool-cases, ==→eq,
}
use xis.Util.{Bytes, itoa_base, strlen, pad, lltoa_base, ptrtoa}
use xis.Util.Digits.{symbol, width, digit_at, digit_at-suc}
use xis.Util.Hex.{Shows, Keeps, hex_width, itoa_base-Shows, strlen-Shows}
use xis.Util.Pad.{pad-Shows, ptrtoa_lem}

-- How many digits a number of 64 bits has.
unfoldable pub places : ℕ → ℕ
places v = if v / 2 ^ 32 == 0 then width 32 16 (v % 2 ^ 32) else width 32 16 (v / 2 ^ 32) + 8

rem_eight : (v i : ℕ) → i < 8 → v % 2 ^ 32 / 16 ^ i % 16 ≡ v / 16 ^ i % 16
rem_eight v zero h = omega arith
rem_eight v (suc zero) h = omega arith
rem_eight v (suc (suc zero)) h = omega arith
rem_eight v (suc (suc (suc zero))) h = omega arith
rem_eight v (suc (suc (suc (suc zero)))) h = omega arith
rem_eight v (suc (suc (suc (suc (suc zero))))) h = omega arith
rem_eight v (suc (suc (suc (suc (suc (suc zero)))))) h = omega arith
rem_eight v (suc (suc (suc (suc (suc (suc (suc zero))))))) h = omega arith
rem_eight v (suc (suc (suc (suc (suc (suc (suc (suc i)))))))) h = absurd (omega arith)

-- A digit of the quotient by `16 ^ n`.
digit_at_shift : (n v i : ℕ) → digit_at 16 (v / 16 ^ n) i ≡ digit_at 16 v (i + n)
digit_at_shift zero v i = ap (λ t. digit_at 16 t i) (omega arith) ∙ ap (digit_at 16 v) (omega arith)
digit_at_shift (suc n) v i =
    let e : v / 16 ^ suc n ≡ v / 16 ^ n / 16 =
      ap (λ t. v / t) (pow-suc 16 n) ∙ sym (div-div-eq-div-mul v (16 ^ n) 16) in
    ap (λ t. digit_at 16 t i) e
    ∙ digit_at-suc 16 (v / 16 ^ n) i
    ∙ digit_at_shift n v (suc i)
    ∙ ap (digit_at 16 v) (omega arith)

digit_high : (v i : ℕ) → digit_at 16 (v / 2 ^ 32) i ≡ digit_at 16 v (i + 8)
digit_high v i = digit_at_shift 8 v i

digit_low : (v i : ℕ) → i < 8 → digit_at 16 (v % 2 ^ 32) i ≡ digit_at 16 v i
unfolding digit_at
digit_low v i h = ap symbol (rem_eight v i h)

-- The digits of the upper word, then the eight of the lower one.
join-Shows :
    (v str k : ℕ) (m m' : Bytes)
    → Shows 16 str k (v / 2 ^ 32) m
    → Shows 16 (str + k) 8 (v % 2 ^ 32) m'
    → ((a : ℕ) → a < str + k → m' a ≡ m a)
    → Shows 16 str (k + 8) v m'
join-Shows v str k m m' s t same = record {
  digits = λ j h. elim (Bool-cases (ltb j k)) [
    | inl e ↦
        same (str + j) (ground arith)
        ∙ s.digits j (ground arith)
        ∙ digit_high v (k - 1 - j)
        ∙ ap (digit_at 16 v) (ground arith)
    | inr e ↦
        ap m' (ground arith)
        ∙ t.digits (j - k) (ground arith)
        ∙ digit_low v (8 - 1 - (j - k)) (ground arith)
        ∙ ap (digit_at 16 v) (ground arith)
  ];
  end = ap m' (omega arith) ∙ t.end;
}

pow-eight : (k : ℕ) → 16 ^ (k + 8) ≡ 16 ^ k * 2 ^ 32
pow-eight k =
    let next = λ (i : ℕ).
      ap (λ t. 16 ^ t) {x = k + suc i} {y = suc (k + i)} (omega arith) ∙ pow-suc 16 (k + i) in
    let start : 16 ^ (k + 0) ≡ 16 ^ k = ap (λ t. 16 ^ t) (omega arith) in
    omega (arith, start, next 0, next 1, next 2, next 3, next 4, next 5, next 6, next 7)

-- Where the upper word is not 0, the lower one is printed as `ptrtoa` prints it.
lower-ptrtoa :
    (v p : ℕ) (m : Bytes)
    → v < 2 ^ 32
    → let m' = itoa_base v p 16 true m in
      (if not (strlen p m' == 8) then pad 8 p m' else m') ≡ ptrtoa v p m
unfolding ptrtoa
lower-ptrtoa v p m h =
    let m' = itoa_base v p 16 true m in
    let len : strlen p m' ≡ width 32 16 v =
      strlen-Shows 16 p (width 32 16 v) v m' (omega (arith, hex_width v h))
        (itoa_base-Shows v p m).0 in
    let same : not (width 32 16 v == 8) ≡ ltb (width 32 16 v) 8 = ground (arith, hex_width v h) in
    rw (len, same) refl

-- Before the last step: all the digits of the number.
pub all_digits :
    (value str : ℕ) (m : Bytes)
    → value < 2 ^ 64
    → let k = places value in
      let m' = lltoa_base value str 16 false m in
      Shows 16 str k value m' × Keeps str k m m' × (value < 16 ^ k) × (k ≤ 16) × (0 < k)
unfolding lltoa_base places
all_digits value str m h =
    let u = value / 2 ^ 32 in
    let l = value % 2 ^ 32 in
    let (fits, short, pos) = hex_width u (omega arith) in
    let (fits', short', pos') = hex_width l (omega arith) in
    elim (Bool-cases (u == 0)) [
      | inl e ↦
          let (shown, keeps) = itoa_base-Shows l str m in
          let same : l ≡ value = omega (arith, ==→eq u 0 e) in
          rw e (
            subst
              (λ t.
                Shows 16 str (width 32 16 l) t (itoa_base l str 16 true m)
                × Keeps str (width 32 16 l) m (itoa_base l str 16 true m)
                × (t < 16 ^ width 32 16 l)
                × (width 32 16 l ≤ 16)
                × (0 < width 32 16 l))
              same (shown, keeps, fits', omega (arith, short'), pos'))
      | inr e ↦
          let k = width 32 16 u in
          let m1 = itoa_base u str 16 true m in
          let (shown, keeps) = itoa_base-Shows u str m in
          let (lower, kept) = ptrtoa_lem l (str + k) m1 (omega arith) in
          rw
            (
              e,
              strlen-Shows 16 str k u m1 (omega arith) shown,
              lower-ptrtoa l (str + k) m1 (omega arith),
            )
            (
              join-Shows value str k m1 (ptrtoa l (str + k) m1) shown lower (λ a b. kept a (inl b)),
              λ a o. kept a (omega arith) ∙ keeps a (omega arith),
              omega (arith, fits, pow-eight k),
              omega (arith, short),
              omega arith,
            )
    ]

-- For the 64 bits of a number, `_lltoa` in base 16 leaves its hexadecimal digits: with `maxfill`
-- sixteen of them, zeros in front, and without it as many as the number has. Nothing but the digits
-- and the NUL is written, so the callers' 20 bytes are enough. In base 10 nothing is written at all.
pub lltoa_lem :
    (value str : ℕ) (maxfill : Bool) (m : Bytes)
    → value < 2 ^ 64
    → let k = if maxfill then 16 else places value in
      Shows 16 str k value (lltoa_base value str 16 maxfill m)
      × Keeps str k m (lltoa_base value str 16 maxfill m)
      × (k ≤ 16)
      × (lltoa_base value str 10 maxfill m ≡ m)
unfolding lltoa_base
lltoa_lem value str false m h =
    let (shown, keeps, _, short, _) = all_digits value str m h in (shown, keeps, short, refl)
lltoa_lem value str true m h =
    let k = places value in
    let m3 = lltoa_base value str 16 false m in
    let (shown, keeps, fits, short, pos) = all_digits value str m h in
    let len = strlen-Shows 16 str k value m3 (omega arith) shown in
    elim (Bool-cases (ltb k 16)) [
      | inl e ↦
          let (padded, kept) =
            pad-Shows 16 str k value m3 (omega arith) pos (ground arith) fits shown in
          rw (len, e) (padded, λ a o. kept a o ∙ keeps a (omega arith), omega arith, refl)
      | inr e ↦
          let full : k ≡ 16 = ground arith in
          rw (len, e)
            (subst (λ t. Shows 16 str t value m3 × Keeps str t m m3 × (16 ≤ 16) × (m ≡ m)) full
              (shown, keeps, omega arith, refl))
    ]
