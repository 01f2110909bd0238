-- ===== src/Memory/Bitmap/Tests.antt =====
-- memory.c, bitmaps: runs at fixed bitmaps, and the theorem at one of them.
use xis.Prelude.{ℕ, ◌+◌, ◌*◌, ◌%◌, ◌^◌, ◌<◌, ◌≡◌, refl, true, ◌==◌, if◌then◌else◌, arith}
use xis.Util.{Bytes}
use xis.Memory.Bitmap.{bit_loop, first_loop, bitmap_firstfreebitset, bitmap_allbitsset}
use xis.Memory.Bitmap.Search.{bitmap_firstfreebitset_lem}

-- A full byte, and 3 in the next one.
abbrev ten_set : Bytes
ten_set a = if a == 0 then 255 else if a == 1 then 3 else 0

-- Bit 1 of the first byte and bit 0 of the second are both number 1.
same_number :
    ((bitmap_firstfreebitset 0 4 (λ a. if a == 0 then 1 else 0)).0 ≡ 1)
    × ((bitmap_firstfreebitset 0 4 (λ a. if a == 0 then 255 else 0)).0 ≡ 1)
unfolding bitmap_firstfreebitset first_loop bit_loop
same_number = (refl, refl)

-- A bit in each byte is enough for `bitmap_allbitsset`.
one_in_each : bitmap_allbitsset 0 4 (λ _. 1) ≡ true
unfolding bitmap_allbitsset
one_in_each = refl

bitmap_firstfreebitset_lem_example :
    (k : ℕ) × (k < 8)
    × (3 % (2 * 2 ^ k) + 1 ≡ 2 ^ k)
    × ((bitmap_firstfreebitset 0 4 ten_set).0 ≡ k + 1)
    × ((a : ℕ)
        → (bitmap_firstfreebitset 0 4 ten_set).1 a
          ≡ (if 1 == a then ten_set a + 2 ^ k else ten_set a))
bitmap_firstfreebitset_lem_example =
    bitmap_firstfreebitset_lem 0 4 1 ten_set (omega arith) (omega arith) (λ j l. ground arith)
      (omega arith)
