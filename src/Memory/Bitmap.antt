-- ===== src/Memory/Bitmap.antt =====
-- memory.c: the bitmaps of the object caches.
use Prim.Native.Nat.{bit_or}
use xis.Prelude.Maps.{update}
use xis.Prelude.{ℕ, zero, suc, ◌+◌, ◌-◌, ◌*◌, ◌/◌, ◌%◌, ◌^◌, Bool, true, false, ◌==◌, if◌then◌else◌}
use xis.Util.{Bytes}
pub mod Search
mod Tests

-- `while(num)`: the position, an `int`, after the bits of a number of at most so many bits.
pub bit_loop : ℕ → ℕ → ℕ → ℕ
bit_loop zero num bit_position = bit_position
bit_loop (suc r) num bit_position =
    let rest = bit_loop r (num / 2) ((bit_position + 1) % 2 ^ 32) in
    if num == 0 then bit_position else rest

abbrev pub minus_one : ℕ
minus_one = 2 ^ 32 - 1

-- The byte with its lowest bit set that is not.
abbrev pub set_lowest : ℕ → ℕ
set_lowest old = bit_or old (old + 1) % 256

-- The loop, with the bytes that are left; the number that it returns and the bytes.
pub first_loop : ℕ → ℕ → ℕ → Bytes → ℕ × Bytes
first_loop zero count bitmap m = (minus_one, m)
first_loop (suc n) count bitmap m =
    let old = m bitmap in
    let m' = update m bitmap (set_lowest old) in
    let rest = first_loop n (count + 1) (bitmap + 1) m' in
    if set_lowest old == old
    then rest
    else ((bit_loop 32 (set_lowest old - old) minus_one + count) % 2 ^ 32, m')

pub bitmap_firstfreebitset : ℕ → ℕ → Bytes → ℕ × Bytes
bitmap_firstfreebitset bitmap bitmap_size m = first_loop bitmap_size 0 bitmap m

pub bitmap_allbitsset : ℕ → ℕ → Bytes → Bool
bitmap_allbitsset bitmap zero m = true
bitmap_allbitsset bitmap (suc n) m =
    let rest = bitmap_allbitsset (bitmap + 1) n m in if m bitmap % 256 == 0 then false else rest
