-- ===== src/Util/Pad.antt =====
-- util.c: `ptrtoa`, and the loops that put zeros in front of a numeral.
use mathlib.Core.Path.{subst}
use native.Mathlib.Nat.{div-eq_of_lt, pow-le-pow_right}
use xis.Prelude.{
  ℕ, zero, suc, ◌+◌, ◌-◌, ◌/◌, ◌^◌, ◌≤◌, ◌<◌, ◌≡◌, refl, ap, ◌∙◌, true, arith, inl, inr, ◌==◌, leb,
  ltb, if◌then◌else◌, ◌&&◌, Bool-cases, ==→eq, ==→ne,
}
use xis.Prelude.Maps.{update}
use xis.Util.{Bytes, itoa_base, move_back, fill_zeros, pad, ptrtoa}
use xis.Util.Digits.{width, digit_at}
use xis.Util.Hex.{Shows, Keeps, hex_width, itoa_base-Shows, strlen-Shows}

-- What one round adds to the rounds behind it.
moved_step :
    (len tmp p r : ℕ) (m : Bytes) (a : ℕ)
    → len ≤ p
    → p ≤ tmp
    → r ≡ (
        if leb (tmp - 1 + 1) (a + len) && leb a (tmp - 1)
        then update m tmp (m p) (a - (tmp - 1 - (p - 1)))
        else update m tmp (m p) a)
    → r ≡ (if leb (tmp + 1) (a + suc len) && leb a tmp then m (a - (tmp - p)) else m a)
moved_step len tmp p r m a h l ih =
    let m1 = update m tmp (m p) in
    let from = a - (tmp - p) in
    elim (Bool-cases (p == 0)) [
      | inl e ↦
          let z = ==→eq p 0 e in
          let here : (a ≡ tmp) → m from ≡ m p = λ q. ap m (omega (arith, q, z)) in
          ground (arith, ih, here, z)
      | inr e ↦
          let n = ==→ne p 0 e in
          let there : m1 (a - (tmp - 1 - (p - 1))) ≡ m1 from = ap m1 (omega (arith, n)) in
          elim (Bool-cases (a == tmp)) [
            | inl t ↦
                let here : m from ≡ m p = ap m (omega (arith, ==→eq a tmp t)) in
                ground (arith, ih, here, t, n)
            | inr t ↦ ground (arith, ih, there, t, n)
          ]
    ]

move_back_lem :
    (len tmp p : ℕ) (m : Bytes) (a : ℕ)
    → len ≤ p + 1
    → p ≤ tmp
    → move_back len tmp p m a
      ≡ (if leb (tmp + 1) (a + len) && leb a tmp then m (a - (tmp - p)) else m a)
unfolding move_back
move_back_lem zero tmp p m a h l = ground arith
move_back_lem (suc len) tmp p m a h l =
    let ih =
      move_back_lem len (tmp - 1) (p - 1) (update m tmp (m p)) a (omega arith) (omega arith) in
    moved_step len tmp p (move_back len (tmp - 1) (p - 1) (update m tmp (m p)) a) m a (omega arith)
      l ih

fill_zeros_lem :
    (len p : ℕ) (m : Bytes) (a : ℕ)
    → fill_zeros len p m a ≡ (if leb p a && ltb a (p + len) then b'0' else m a)
unfolding fill_zeros
fill_zeros_lem zero p m a = ground arith
fill_zeros_lem (suc len) p m a = ground (arith, fill_zeros_lem len (p + 1) (update m p b'0') a)

-- The digits in front of a number are zeros.
digit_at_high : (v k i : ℕ) → v < 16 ^ k → k ≤ i → digit_at 16 v i ≡ b'0'
unfolding digit_at
digit_at_high v k i l h =
    let small : v / 16 ^ i ≡ 0 =
      div-eq_of_lt (omega (arith, l, pow-le-pow_right {n = 16} (omega arith) h)) in
    rw small refl

-- A numeral that has room is padded with zeros.
pub pad-Shows :
    (w p k v : ℕ) (m : Bytes)
    → w < 2 ^ 32
    → 0 < k
    → k < w
    → v < 16 ^ k
    → Shows 16 p k v m
    → Shows 16 p w v (pad w p m) × Keeps p w m (pad w p m)
unfolding pad
pad-Shows w p k v m h pos le small s =
    let tmp = p + w - 1 in
    let m0 = update m (tmp + 1) 0 in
    let m1 = move_back k tmp (p + k - 1) m0 in
    let moved = λ (a : ℕ). move_back_lem k tmp (p + k - 1) m0 a (omega arith) (omega arith) in
    let start : tmp - k + 1 ≡ p + (w - k) = omega arith in
    let shown : Shows 16 (p + (w - k)) k v m1 = record {
      digits = λ j l.
          let from : m (p + (w - k) + j - (tmp - (p + k - 1))) ≡ m (p + j) = ap m (omega arith) in
          ground (arith, moved (p + (w - k) + j), from, s.digits j l);
      end = ground (arith, moved (p + (w - k) + k));
    } in
    let filled = fill_zeros_lem (w - k) p m1 in
    rw
      (
        strlen-Shows 16 p k v m (omega arith) s,
        start,
        strlen-Shows 16 (p + (w - k)) k v m1 (omega arith) shown,
      )
      (
        record {
          digits = λ j l. elim (Bool-cases (ltb j (w - k))) [
            | inl e ↦
                let high = digit_at_high v k (w - 1 - j) small (ground arith) in
                ground (arith, filled (p + j), high, e)
            | inr e ↦
                let place : m1 (p + (w - k) + (j - (w - k))) ≡ m1 (p + j) = ap m1 (ground arith) in
                let same : digit_at 16 v (k - 1 - (j - (w - k))) ≡ digit_at 16 v (w - 1 - j) =
                  ap (digit_at 16 v) (ground arith) in
                ground (arith, filled (p + j), place, same, shown.digits (j - (w - k)), e)
          ];
          end =
              let place : m1 (p + (w - k) + k) ≡ m1 (p + w) = ap m1 (omega arith) in
              ground (arith, filled (p + w), place, shown.end);
        },
        λ a o. ground (arith, filled a, moved a),
      )

-- For the 32 bits of a pointer, `ptrtoa` leaves its eight hexadecimal digits, the first ones zeros
-- where the number is small, and writes nothing but them and the NUL.
pub ptrtoa_lem :
    (val str : ℕ) (m : Bytes)
    → val < 2 ^ 32
    → Shows 16 str 8 val (ptrtoa val str m) × Keeps str 8 m (ptrtoa val str m)
unfolding ptrtoa
ptrtoa_lem val str m h =
    let (shown, keeps) = itoa_base-Shows val str m in
    let (fits, short, pos) = hex_width val h in
    let w = width 32 16 val in
    let m' = itoa_base val str 16 true m in
    rw (strlen-Shows 16 str w val m' (omega arith) shown) (elim (Bool-cases (ltb w 8)) [
      | inl e ↦
          let (padded, kept) =
            pad-Shows 8 str w val m' (omega arith) pos (ground arith) fits shown in
          rw e (padded, λ a o. kept a o ∙ keeps a (omega arith))
      | inr e ↦
          let full : w ≡ 8 = ground arith in
          rw e (subst (λ t. Shows 16 str t val m' × Keeps str t m m') full (shown, keeps))
    ])
