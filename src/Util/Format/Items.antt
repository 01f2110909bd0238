-- ===== src/Util/Format/Items.antt =====
-- util.c, `sprintf`: formats as lists of directives with their arguments, and what they stand for.
use xis.Prelude.{
  ℕ, ◌+◌, ◌-◌, ◌/◌, ◌%◌, ◌^◌, ◌<◌, ◌≡◌, ◌≢◌, List, [], ◌∷◌, ◌++◌, leb, length, if◌then◌else◌,
}
use xis.Util.{Bytes}
use xis.Util.Digits.{width}
use xis.Util.Hex.{numeral}

-- A byte of the text, or a directive with its argument; `%c` is left out, since `va_arg` and the
-- caller do not agree on the size of its argument.
pub data Item : Type 0 where
  plain : ℕ → Item
  percent : Item
  signed : ℕ → Item
  hexadecimal : ℕ → Item
  unsigned : ℕ → Item
  pointer : ℕ → Item
  long_hexadecimal : ℕ → Item
  long_long_hexadecimal : ℕ → Item
  string : ℕ → List ℕ → Item

-- How an item stands in the format.
abbrev pub letters : Item → List ℕ
letters (plain c) = c ∷ []
letters percent = b'%' ∷ b'%' ∷ []
letters (signed v) = b'%' ∷ b'd' ∷ []
letters (hexadecimal v) = b'%' ∷ b'x' ∷ []
letters (unsigned v) = b'%' ∷ b'u' ∷ []
letters (pointer v) = b'%' ∷ b'p' ∷ []
letters (long_hexadecimal v) = b'%' ∷ b'l' ∷ b'x' ∷ []
letters (long_long_hexadecimal v) = b'%' ∷ b'l' ∷ b'l' ∷ b'x' ∷ []
letters (string a l) = b'%' ∷ b's' ∷ []

-- A number of 32 bits as the caller pushes it, the lowest byte first.
abbrev pub pushed : ℕ → List ℕ
pushed v = v % 256 ∷ v / 2 ^ 8 % 256 ∷ v / 2 ^ 16 % 256 ∷ v / 2 ^ 24 % 256 ∷ []

abbrev pub argument : Item → List ℕ
argument (plain c) = []
argument percent = []
argument (signed v) = pushed v
argument (hexadecimal v) = pushed v
argument (unsigned v) = pushed v
argument (pointer v) = pushed v
argument (long_hexadecimal v) = pushed v
argument (long_long_hexadecimal v) = pushed (v % 2 ^ 32) ++ pushed (v / 2 ^ 32)
argument (string a l) = pushed a

-- The shortest numeral.
abbrev pub number : ℕ → ℕ → List ℕ
number base v = numeral (width 32 base v) base v

-- What an item stands for: a number in the base of the directive, signed for `%d`, with eight
-- digits for `%p` and sixteen for `%llx`; or the argument's string.
abbrev pub meaning : Item → List ℕ
meaning (plain c) = c ∷ []
meaning percent = b'%' ∷ []
meaning (signed v) = if leb (2 ^ 31) v then b'-' ∷ number 10 (2 ^ 32 - v) else number 10 v
meaning (hexadecimal v) = number 16 v
meaning (unsigned v) = number 10 v
meaning (pointer v) = numeral 8 16 v
meaning (long_hexadecimal v) = number 16 v
meaning (long_long_hexadecimal v) = numeral 16 16 v
meaning (string a l) = l

abbrev pub format : List Item → List ℕ
format [] = 0 ∷ []
format (i ∷ items) = letters i ++ format items

abbrev pub arguments : List Item → List ℕ
arguments [] = []
arguments (i ∷ items) = argument i ++ arguments items

abbrev pub expand : List Item → List ℕ
expand [] = []
expand (i ∷ items) = meaning i ++ expand items

-- The bytes from `p` on begin with the list.
abbrev pub Holds : Bytes → ℕ → List ℕ → Type 0
Holds m p [] = Unit
Holds m p (c ∷ l) = (m p ≡ c) × Holds m (p + 1) l

-- The bytes of a string.
abbrev pub IsText : List ℕ → Type 0
IsText [] = Unit
IsText (c ∷ l) = (0 < c) × (c < 256) × IsText l

-- The values are of the size of their directives, and a string is at its address and ends.
abbrev pub IsItem : Bytes → Item → Type 0
IsItem m (plain c) = IsText (c ∷ []) × (c ≢ b'%')
IsItem m percent = Unit
IsItem m (signed v) = v < 2 ^ 32
IsItem m (hexadecimal v) = v < 2 ^ 32
IsItem m (unsigned v) = v < 2 ^ 32
IsItem m (pointer v) = v < 2 ^ 32
IsItem m (long_hexadecimal v) = v < 2 ^ 32
IsItem m (long_long_hexadecimal v) = v < 2 ^ 64
IsItem m (string a l) = (a < 2 ^ 32) × (length l < 2 ^ 32) × IsText l × Holds m a (l ++ 0 ∷ [])

abbrev pub AreItems : Bytes → List Item → Type 0
AreItems m [] = Unit
AreItems m (i ∷ items) = IsItem m i × AreItems m items
