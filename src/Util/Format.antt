-- ===== src/Util/Format.antt =====
-- util.c, `sprintf`: the directives of a format. `printf` of debug.c has the same code.
use xis.Prelude.{
  ℕ, zero, suc, ◌+◌, ◌*◌, ◌^◌, true, false, ◌||◌, Option, none, some, List, length, [], ◌∷◌, ◌++◌,
  ◌==◌, if◌then◌else◌,
}
use xis.Prelude.Maps.{update}
use xis.Util.{Bytes, itoa_base, ptrtoa, lltoa_base, string_at}
pub mod Items
pub mod Texts
pub mod Apart
pub mod Steps
pub mod Expand
mod Tests

-- Where `ptr` points: into the array `str`, or to an address.
pub data Source : Type 0 where
  array : Source
  address : ℕ → Source

-- The variables of `sprintf` but for `p` and `buf`; `str` is the stack from the array on.
pub record Scan : Type 0 where
  pub list : ℕ
  pub str : Bytes
  pub ptr : Source

-- The values of 4 and 8 bytes at an address.
abbrev pub word : Bytes → ℕ → ℕ
word m a = m a + 2 ^ 8 * m (a + 1) + 2 ^ 16 * m (a + 2) + 2 ^ 24 * m (a + 3)

abbrev pub double_word : Bytes → ℕ → ℕ
double_word m a = word m a + 2 ^ 32 * word m (a + 4)

-- `va_arg` of `size` bytes and what is printed of it into `str`.
abbrev pub printed : ℕ → Bytes → Scan → Scan
printed size out s = record { list = s.list + size; str = out; ptr = array }

-- A directive that is neither a percent sign nor a character, with `p` at its first letter: where
-- `p` is then, and the variables.
pub convert : Bytes → ℕ → Scan → ℕ × Scan
convert m p s =
    let val = word m s.list in
    if m p == b'i' || m p == b'd' || m p == b'x'
    then (p, printed 4 (itoa_base val 0 (if m p == b'x' then 16 else 10) false s.str) s)
    else if m p == b'p'
    then (p, printed 4 (ptrtoa val 0 s.str) s)
    else if m p == b'u'
    then (p, printed 4 (itoa_base val 0 10 true s.str) s)
    else if m p == b'l'
    then if m (p + 1) == b'l'
      then if m (p + 2) == b'x'
        then (p + 2, printed 8 (lltoa_base (double_word m s.list) 0 16 true s.str) s)
        else (p + 1, printed 8 (lltoa_base (double_word m s.list) 0 10 false s.str) s)
      else if m (p + 1) == b'x'
      then (p + 1, printed 4 (itoa_base val 0 16 false s.str) s)
      else (p, printed 4 (itoa_base val 0 10 false s.str) s)
    else if m p == b's'
    then (p, record { list = s.list + 4; str = s.str; ptr = address val })
    else (p, s)

-- What a directive writes: a byte, or the string that `ptr` points at, with the array `str`.
pub data Written : Type 0 where
  one : ℕ → Written
  text : Source → Bytes → Written

-- What is written for a directive, where `p` is after it, and the variables. `va_arg(list, char)`
-- takes one byte.
pub directive : Bytes → ℕ → Scan → Written × ℕ × Scan
directive m p s =
    let (q, s') = convert m p s in
    if m p == b'%' || m p == 0
    then (one b'%', p, s)
    else if m p == b'c'
    then (one (m s.list), p, record { list = s.list + 1; str = s.str; ptr = s.ptr })
    else (text s'.ptr s'.str, q, s')

-- The bytes that are written, into another object than the memory.
abbrev pub written : Bytes → Written → List ℕ
written m (one c) = c ∷ []
written m (text array str) = string_at (2 ^ 32) 0 str
written m (text (address a) str) = string_at (2 ^ 32) a m

-- The loop of `printf` over the format, with the rounds that are left: the bytes written. They are
-- written into the buffer, which is an object of its own.
pub format_loop : ℕ → Bytes → ℕ → Scan → List ℕ
format_loop zero m p s = []
format_loop (suc n) m p s =
    let (w, q, s') = directive m (p + 1) s in
    let behind = format_loop n m (q + 1) s' in
    let rest = format_loop n m (p + 1) s in
    if m p == 0 then [] else if m p == b'%' then written m w ++ behind else m p ∷ rest

-- `*buf++ = ...` for each byte.
unfoldable pub store_bytes : ℕ → List ℕ → Bytes → Bytes
store_bytes buf [] m = m
store_bytes buf (c ∷ l) m = store_bytes (buf + 1) l (update m buf c)

-- `while(*ptr) *buf++=*ptr++` in the memory, with the rounds that are left; none when they run out.
pub copy_string : ℕ → ℕ → ℕ → Bytes → Option (ℕ × Bytes)
copy_string zero ptr buf m = none
copy_string (suc n) ptr buf m =
    let rest = copy_string n (ptr + 1) (buf + 1) (update m buf (m ptr)) in
    if m ptr == 0 then some (buf, m) else rest

-- What a directive writes, at `buf` of the memory that the rest is read from: `buf` and the memory.
-- The array is apart from the memory.
abbrev pub write_out : Written → ℕ → Bytes → Option (ℕ × Bytes)
write_out (one c) buf m = some (buf + 1, update m buf c)
write_out (text array str) buf m =
    let l = string_at (2 ^ 32) 0 str in some (buf + length l, store_bytes buf l m)
write_out (text (address a) str) buf m = copy_string (2 ^ 32) a buf m

abbrev pub go_on : (ℕ → Bytes → Option Bytes) → Option (ℕ × Bytes) → Option Bytes
go_on next none = none
go_on next (some (buf, m)) = next buf m

-- The loop of `sprintf` over the format and the NUL: each byte is written before the next one is
-- read. None when the rounds run out.
pub sprintf_loop : ℕ → ℕ → ℕ → Scan → Bytes → Option Bytes
sprintf_loop zero buf p s m = none
sprintf_loop (suc n) buf p s m =
    let (w, q, s') = directive m (p + 1) s in
    let behind = go_on (λ buf' m'. sprintf_loop n buf' (q + 1) s' m') (write_out w buf m) in
    let rest = sprintf_loop n (buf + 1) (p + 1) s (update m buf (m p)) in
    if m p == 0 then some (update m buf 0) else if m p == b'%' then behind else rest

-- `list` is the address behind the argument `fmt`; `str` and `ptr` are not initialized.
pub sprintf : ℕ → ℕ → Scan → Bytes → Option Bytes
sprintf buf fmt s m = sprintf_loop (2 ^ 32) buf fmt s m
