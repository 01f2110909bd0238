-- ===== src/Util/Digits.antt =====
-- util.c: the digits that `_itoa` prints.
use native.Mathlib.Nat.{pow-succ', div-one, pow-zero, div-div-eq-div-mul, mod-lt}
use xis.Prelude.{
  ℕ, zero, suc, ◌+◌, ◌-◌, ◌/◌, ◌%◌, ◌^◌, ◌<◌, ◌≡◌, ◌⊎◌, ap, sym, ◌∙◌, arith, ◌&&◌, ◌==◌, leb, ltb,
  if◌then◌else◌, Bool-cases, inl, inr,
}
use xis.Prelude.Maps.{update}
use xis.Util.{Bytes, digit, digit_loop}

-- The two bases of `_itoa`.
abbrev pub IsBase : ℕ → Type 0
IsBase base = (base ≡ 10) ⊎ (base ≡ 16)

-- The symbol of a digit: 0 to 9, then A to F.
abbrev pub symbol : ℕ → ℕ
symbol r = if ltb r 10 then b'0' + r else b'A' + (r - 10)

pub digit-symbol : (base r : ℕ) → IsBase base → r < base → digit base r ≡ symbol r
digit-symbol base r h l = ground arith

-- How many digits the loop writes.
unfoldable pub width : ℕ → ℕ → ℕ → ℕ
width zero base value = 0
width (suc n) base value =
    let rest = width n base (value / base) in if value / base == 0 then 1 else suc rest

-- The digit of weight `base ^ k`.
unfoldable pub digit_at : ℕ → ℕ → ℕ → ℕ
digit_at base value k = symbol (value / base ^ k % base)

pub digit_at-suc : (base value k : ℕ) → digit_at base (value / base) k ≡ digit_at base value (suc k)
unfolding digit_at
digit_at-suc base value k =
    ap (λ t. symbol (t % base))
      (div-div-eq-div-mul value base (base ^ k) ∙ ap (λ t. value / t) (sym (pow-succ' base k)))

pub digit_at-zero :
    (base value : ℕ) → IsBase base → digit_at base value 0 ≡ digit base (value % base)
unfolding digit_at
digit_at-zero base value h =
    ap (λ t. symbol (t % base)) (ap (λ t. value / t) (pow-zero base) ∙ div-one value)
    ∙ sym (digit-symbol base (value % base) h (mod-lt value (ground arith)))

digit_at-step :
    (base value p j : ℕ)
    → p < j
    → digit_at base (value / base) (j - (p + 1)) ≡ digit_at base value (j - p)
digit_at-step base value p j h =
    digit_at-suc base value (j - (p + 1)) ∙ ap (digit_at base value) (omega arith)

pub digit_loop-fst :
    (n base value p : ℕ) (m : Bytes) → (digit_loop n base value p m).0 ≡ p + width n base value
unfolding digit_loop width
digit_loop-fst zero base value p m = omega arith
digit_loop-fst (suc n) base value p m =
    grind
      (arith, digit_loop-fst n base (value / base) (p + 1) (update m p (digit base (value % base))))

pub digit_loop-snd :
    (n base value p : ℕ) (m : Bytes) (j : ℕ)
    → IsBase base
    → (digit_loop n base value p m).1 j
      ≡ (if leb p j && ltb j (p + width n base value) then digit_at base value (j - p) else m j)
unfolding digit_loop width
digit_loop-snd zero base value p m j b = grind arith
digit_loop-snd (suc n) base value p m j b =
    let m' = update m p (digit base (value % base)) in
    let here : (j ≡ p) → digit_at base value (j - p) ≡ digit base (value % base) =
      λ e. ap (digit_at base value) (omega arith) ∙ digit_at-zero base value b in
    elim (Bool-cases (value / base == 0)) [
      | inl e ↦ rw e (grind (arith, here))
      | inr e ↦
          rw (e, digit_loop-snd n base (value / base) (p + 1) m' j b)
            (grind (arith, here, digit_at-step base value p j))
    ]
