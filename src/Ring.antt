-- ===== src/Ring.antt =====
-- util.c and util.h: the byte ring buffer of the keyboard driver.
use xis.Prelude.{
  ℕ, ◌+◌, ◌-◌, ◌%◌, ◌^◌, ◌≡◌, Option, none, some, List, Bool, true, false, not, ◌||◌, ◌==◌,
  if◌then◌else◌, replicate, get_or, set,
}
pub mod Inv
mod Fifo
mod Tests

-- `struct ring_buffer`; the memory that `buffer` points to is the list. `buffer_size`, `cur_ptr`
-- and `len` are u16.
pub record RingBuffer : Type 0 where
  pub buffer : List ℕ
  pub buffer_size : ℕ
  pub cur_ptr : ℕ
  pub len : ℕ

abbrev u16 : ℕ → ℕ
u16 n = n % 2 ^ 16

-- `none` is the return value -1, which leaves the ring as it was.
pub ring_buffer_init : ℕ → Option RingBuffer
ring_buffer_init size =
    if size == 0
    then none
    else some (record { buffer = replicate size 0; buffer_size = size; cur_ptr = 0; len = 0 })

-- The sum is taken in `int`, so it does not wrap; the stored length does.
pub ring_buffer_put_elem : RingBuffer → ℕ → Option RingBuffer
ring_buffer_put_elem rb elem =
    if (rb.cur_ptr + rb.len + 1) % rb.buffer_size == rb.cur_ptr
    then none
    else some (record rb { buffer = set rb.buffer rb.cur_ptr elem; len = u16 (rb.len + 1) })

-- The caller's pointer `elem` is never null in the sources that call it.
pub ring_buffer_get_elem : RingBuffer → Option (ℕ × RingBuffer)
ring_buffer_get_elem rb =
    if rb.len == 0
    then none
    else some (
      get_or rb.buffer rb.cur_ptr 0,
      record rb { cur_ptr = u16 ((rb.cur_ptr + 1) % rb.buffer_size); len = rb.len - 1 },
    )
