-- ===== src/Util/Format/Tests.antt =====
-- The theorem on `sprintf` at a concrete call.
use xis.Prelude.{
  ℕ, ◌+◌, ◌-◌, ◌<◌, ◌⊎◌, inl, some, ◌≡◌, refl, List, [], ◌∷◌, ltb, if◌then◌else◌, length, get_or,
  arith,
}
use xis.Util.{Bytes}
use xis.Util.Digits.{width}
use xis.Util.Hex.{numeral}
use xis.Util.Format.{Scan, array, sprintf}
use xis.Util.Format.Items.{Item, IsText, Holds, plain, signed, string, expand}
use xis.Util.Format.Expand.{sprintf_lem}

-- `sprintf(buf, "%d/%s", -42, "ok")`: the arguments at 16, the format at 32 and the string at 48.
abbrev words : Bytes
words a =
    if ltb a 32
    then get_or (0xd6 ∷ 0xff ∷ 0xff ∷ 0xff ∷ 48 ∷ 0 ∷ 0 ∷ 0 ∷ []) (a - 16) 0
    else if ltb a 48
    then get_or (b'%' ∷ b'd' ∷ b'/' ∷ b'%' ∷ b's' ∷ []) (a - 32) 0
    else get_or (b'o' ∷ b'k' ∷ []) (a - 48) 0

abbrev call : List Item
call = signed 4294967254 ∷ plain b'/' ∷ string 48 (b'o' ∷ b'k' ∷ []) ∷ []

abbrev scan : Scan
scan = record { list = 16; str = λ _. 99; ptr = array }

sprintf_lem_example :
    (m : Bytes) × (sprintf 64 32 scan words ≡ some m)
    × IsText (expand call)
    × Holds m 64 (b'-' ∷ b'4' ∷ b'2' ∷ b'/' ∷ b'o' ∷ b'k' ∷ 0 ∷ [])
    × ((a : ℕ) → (a < 64) ⊎ (64 + length (expand call) < a) → m a ≡ words a)
unfolding numeral width
sprintf_lem_example =
    sprintf_lem call 64 32 scan words (omega arith)
      (
        omega arith,
        (
          ((omega arith, omega arith, tt), λ e. absurd (omega (arith, e))),
          (
            (
              omega arith,
              omega arith,
              (omega arith, omega arith, (omega arith, omega arith, tt)),
              (refl, (refl, (refl, tt))),
            ),
            tt,
          ),
        ),
      )
      (refl, (refl, (refl, (refl, (refl, (refl, tt))))))
      (refl, (refl, (refl, (refl, (refl, (refl, (refl, (refl, tt))))))))
      (tt, (tt, (inl (omega arith), tt))) (inl (omega arith)) (inl (omega arith))
