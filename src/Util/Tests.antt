-- ===== src/Util/Tests.antt =====
-- The theorems on util.c at concrete numbers and strings.
use xis.Prelude.{
  ℕ, ◌≡◌, ◌≤◌, inl, inr, refl, true, false, some, arith, ◌==◌, ◌||◌, ◌&&◌, leb, if◌then◌else◌, ltb,
}
use xis.Util.{Bytes, strncmp, itoa_base, minus_one, lltoa_base}
use xis.Util.Strings.{strncmp_lem}
use xis.Util.Numeral.{atoi}
use xis.Util.Hex.{Shows, Keeps}
use xis.Util.Lltoa.{lltoa_lem}
use xis.Util.Itoa.{itoa_lem}

abbrev zeros : Bytes
zeros _ = 0

-- "ab" at 0 and "ac" at 8.
abbrev two_strings : Bytes
two_strings a =
    if a == 0 || a == 8 then b'a' else if a == 1 then b'b' else if a == 9 then b'c' else 0

itoa_lem_example :
    let out = itoa_base 4294967254 0 10 false zeros in
    ((out 0 == b'-') ≡ true)
    × (atoi 10 1 out ≡ some 42)
    × ((a : ℕ) → leb 0 a && ltb a 12 || out a == 0 ≡ true)
itoa_lem_example = itoa_lem 4294967254 0 10 false zeros (omega arith) (inl refl)

strncmp_lem_example : strncmp two_strings 0 8 3 ≡ minus_one
strncmp_lem_example =
    strncmp_lem 3 1 0 8 two_strings (λ a. ground arith) (omega arith) (λ j l. ground arith)
      (inr (λ e. absurd (omega (arith, e))))

-- `_lltoa` of 0x1_0000_000a with 16 digits.
lltoa_lem_example :
    Shows 16 0 16 0x10000000a (lltoa_base 0x10000000a 0 16 true zeros)
    × Keeps 0 16 zeros (lltoa_base 0x10000000a 0 16 true zeros)
    × (16 ≤ 16)
    × (lltoa_base 0x10000000a 0 10 true zeros ≡ zeros)
lltoa_lem_example = lltoa_lem 0x10000000a 0 true zeros (omega arith)
