-- ===== src/Util.antt =====
-- util.c: strlen, strncmp and the printing of integers, over a memory of bytes.
use xis.Prelude.{
  ℕ, zero, suc, ◌+◌, ◌-◌, ◌/◌, ◌%◌, ◌^◌, Bool, true, not, ◌&&◌, ◌||◌, ltb, leb, ◌==◌, if◌then◌else◌,
  List, [], ◌∷◌,
}
use xis.Prelude.Maps.{update}
pub mod Strings
pub mod Reverse
pub mod Digits
pub mod Numeral
pub mod Itoa
pub mod Hex
pub mod Pad
pub mod Lltoa
pub mod Format
mod Tests

-- The bytes by address.
abbrev pub Bytes : Type 0
Bytes = ℕ → ℕ

pub strlen_loop : ℕ → ℕ → ℕ → Bytes → ℕ
strlen_loop zero p len m = len
strlen_loop (suc n) p len m =
    let rest = strlen_loop n (p + 1) (len + 1) m in if m p == 0 then len else rest

-- The loop is given as many rounds as there are addresses.
pub strlen : ℕ → Bytes → ℕ
strlen p m = strlen_loop (2 ^ 32) p 0 m

abbrev pub minus_one : ℕ
minus_one = 2 ^ 32 - 1

-- `char` is signed: this is the order of the values of two bytes.
abbrev pub char_less : ℕ → ℕ → Bool
char_less a b = ltb ((a + 2 ^ 7) % 2 ^ 8) ((b + 2 ^ 7) % 2 ^ 8)

unfoldable pub strncmp : Bytes → ℕ → ℕ → ℕ → ℕ
strncmp m s1 s2 zero = 0
strncmp m s1 s2 (suc len) =
    let rest = strncmp m (s1 + 1) (s2 + 1) len in
    if char_less (m s1) (m s2) then minus_one else if char_less (m s2) (m s1) then 1 else rest

abbrev pub digit : ℕ → ℕ → ℕ
digit base rem =
    if base == 10 then rem + b'0' else if ltb rem 10 then rem + b'0' else rem - 10 + b'A'

-- The `do` loop, with the rounds that are left: `p` and the bytes behind it.
pub digit_loop : ℕ → ℕ → ℕ → ℕ → Bytes → ℕ × Bytes
digit_loop zero base value p m = (p, m)
digit_loop (suc n) base value p m =
    let m' = update m p (digit base (value % base)) in
    let rest = digit_loop n base (value / base) (p + 1) m' in
    if value / base == 0 then (p + 1, m') else rest

-- The last `while` loop: swaps from both ends while `p > str`.
pub reverse_loop : ℕ → ℕ → ℕ → Bytes → Bytes
reverse_loop zero p str m = m
reverse_loop (suc n) p str m =
    let rest = reverse_loop n (p - 1) (str + 1) (update (update m p (m str)) str (m p)) in
    if ltb str p then rest else m

-- From the `do` loop on; a value of 32 bits has at most 32 digits.
pub print_digits : ℕ → ℕ → ℕ → Bytes → Bytes
print_digits base value str m =
    let (p, m') = digit_loop 32 base value str m in reverse_loop 32 (p - 1) str (update m' p 0)

-- `val` is the 32 bits of the argument, which is negative from `2 ^ 31` on.
pub itoa_base : ℕ → ℕ → ℕ → Bool → Bytes → Bytes
itoa_base val str base not_signed m =
    if not (base == 10 || base == 16)
    then m
    else if not (base == 16) && not not_signed && leb (2 ^ 31) val
    then print_digits base (2 ^ 32 - val) (str + 1) (update m str b'-')
    else print_digits base val str m

-- `while(len--) *tmp-- = *p--;`
pub move_back : ℕ → ℕ → ℕ → Bytes → Bytes
move_back zero tmp p m = m
move_back (suc len) tmp p m = move_back len (tmp - 1) (p - 1) (update m tmp (m p))

-- `while(len--) *p++ = '0';`
pub fill_zeros : ℕ → ℕ → Bytes → Bytes
fill_zeros zero p m = m
fill_zeros (suc len) p m = fill_zeros len (p + 1) (update m p b'0')

-- The string at `p` is moved to the end of `w` bytes, with zeros in front.
pub pad : ℕ → ℕ → Bytes → Bytes
pad w p m =
    let len = strlen p m in
    let tmp = p + w - 1 in
    let m' = move_back len tmp (p + len - 1) (update m (tmp + 1) 0) in
    fill_zeros (w - strlen (tmp - len + 1) m') p m'

pub ptrtoa : ℕ → ℕ → Bytes → Bytes
ptrtoa val str m =
    let m' = itoa_base val str 16 true m in if ltb (strlen str m') 8 then pad 8 str m' else m'

-- `value` is the 64 bits of the argument. Without CONFIG_64, a base other than 16 does nothing.
pub lltoa_base : ℕ → ℕ → ℕ → Bool → Bytes → Bytes
lltoa_base value str base maxfill m =
    let upper = value / 2 ^ 32 in
    let m1 = if upper == 0 then m else itoa_base upper str base true m in
    let p = if upper == 0 then str else str + strlen str m1 in
    let m2 = itoa_base (value % 2 ^ 32) p base true m1 in
    let m3 = if not (upper == 0) && not (strlen p m2 == 8) then pad 8 p m2 else m2 in
    let filled = if maxfill && ltb (strlen str m3) 16 then pad 16 str m3 else m3 in
    if base == 16 then filled else m

-- The string at `p`, from at most so many bytes.
pub string_at : ℕ → ℕ → Bytes → List ℕ
string_at zero p m = []
string_at (suc n) p m = let rest = string_at n (p + 1) m in if m p == 0 then [] else m p ∷ rest
