-- ===== src/Ring/Tests.antt =====
-- util.c, ring buffer: runs at fixed inputs, and the theorems at a concrete ring.
use xis.Prelude.{◌≡◌, refl, some, [], ◌∷◌, arith}
use xis.Ring.{RingBuffer, ring_buffer_put_elem, ring_buffer_get_elem}
use xis.Ring.Inv.{IsValid}
use xis.Ring.Fifo.{put-get}

-- Bytes 7 and 8 are stored, in a ring over four slots.
abbrev two : RingBuffer
two = record { buffer = 9 ∷ 7 ∷ 8 ∷ 0 ∷ []; buffer_size = 4; cur_ptr = 1; len = 2 }

abbrev three : RingBuffer
three = record { buffer = 9 ∷ 5 ∷ 8 ∷ 0 ∷ []; buffer_size = 4; cur_ptr = 1; len = 3 }

two-IsValid : IsValid two
two-IsValid = omega arith

put_two : ring_buffer_put_elem two 5 ≡ some three
unfolding ring_buffer_put_elem
put_two = refl

put-get_example : (rb : RingBuffer) × (ring_buffer_get_elem three ≡ some (5, rb)) × (rb.len ≡ 2)
unfolding ring_buffer_put_elem
put-get_example = put-get 5 two-IsValid refl
