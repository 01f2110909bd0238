-- ===== src/Ring/Fifo.antt =====
-- util.c, ring buffer: what a put and a get do to the bytes that a reader sees.
use xis.Prelude.{
  ℕ, ◌+◌, ◌-◌, ◌%◌, ◌^◌, ◌<◌, ◌≡◌, sym, ◌∙◌, ap, ◌≢◌, ◌↔◌, none, some, arith, get_or, set,
  get_or-set_self, get_or-set_ne,
}
use native.Mathlib.Nat.{mod-eq_of_lt, mod-add-mod, add-zero}
use xis.Ring.{RingBuffer, ring_buffer_put_elem, ring_buffer_get_elem}
use xis.Ring.Inv.{IsValid, peek, step_mod_ne, full_mod, mod_full, put_sizes, put-IsValid}

peek_zero : (rb : RingBuffer) → IsValid rb → peek rb 0 ≡ get_or rb.buffer rb.cur_ptr 0
peek_zero rb v = rw (add-zero, mod-eq_of_lt v.pointer)

-- A put is refused exactly when `buffer_size - 1` bytes are stored.
put_full :
    {rb : RingBuffer} (x : ℕ)
    → IsValid rb
    → (ring_buffer_put_elem rb x ≡ none) ↔ (rb.len + 1 ≡ rb.buffer_size)
unfolding ring_buffer_put_elem
put_full {rb} x v = (
  λ e. ground (arith, full_mod rb.buffer_size rb.cur_ptr rb.len),
  λ e. ground (arith, mod_full rb.buffer_size rb.cur_ptr rb.len),
)

-- An accepted put writes the slot of the oldest byte: the next get returns the new byte, and every
-- other slot keeps its byte.
put-peek :
    {rb rb' : RingBuffer} (x : ℕ)
    → IsValid rb
    → ring_buffer_put_elem rb x ≡ some rb'
    → (rb'.len ≡ rb.len + 1)
      × (peek rb' 0 ≡ x)
      × ((k : ℕ) → 0 < k → k < rb.buffer_size → peek rb' k ≡ peek rb k)
put-peek {rb} {rb'} x v e = (sizes.0, front, others)
  where
    sizes :
        (rb'.len ≡ rb.len + 1)
        × (rb'.cur_ptr ≡ rb.cur_ptr)
        × (rb'.buffer_size ≡ rb.buffer_size)
        × (rb'.buffer ≡ set rb.buffer rb.cur_ptr x)
    sizes = put_sizes x v e

    front : peek rb' 0 ≡ x
    front =
        rw (sizes.1, sizes.2, sizes.3, add-zero, mod-eq_of_lt v.pointer)
          (get_or-set_self rb.buffer rb.cur_ptr x 0 (omega arith))

    others : (k : ℕ) → 0 < k → k < rb.buffer_size → peek rb' k ≡ peek rb k
    others k lo hi =
        rw (sizes.1, sizes.2, sizes.3)
          (get_or-set_ne rb.buffer rb.cur_ptr ((rb.cur_ptr + k) % rb.buffer_size) x 0
            (λ q. step_mod_ne rb.buffer_size rb.cur_ptr k v.pointer lo hi (sym q)))

-- A put into a ring that already holds a byte other than the new one breaks first-in first-out: the
-- stored bytes are not all kept.
put_loses_oldest :
    {rb rb' : RingBuffer} (x : ℕ)
    → IsValid rb
    → ring_buffer_put_elem rb x ≡ some rb'
    → 0 < rb.len
    → peek rb 0 ≢ x
    → ¬ ((k : ℕ) → k < rb.len → peek rb' k ≡ peek rb k)
put_loses_oldest x v e full ne kept = ne (sym (kept 0 full) ∙ (put-peek x v e).1)

-- A get on an empty ring fails; else it returns the front byte, shortens the ring by one and moves
-- every later byte one place to the front.
get-peek :
    {rb rb' : RingBuffer} {x : ℕ}
    → IsValid rb
    → ring_buffer_get_elem rb ≡ some (x, rb')
    → (x ≡ peek rb 0) × (rb'.len + 1 ≡ rb.len) × ((k : ℕ) → peek rb' k ≡ peek rb (k + 1))
unfolding ring_buffer_get_elem
get-peek {rb} {rb'} {x} v e = (ground (arith, peek_zero rb v), ground arith, λ k. later k)
  where
    moved : rb'.cur_ptr ≡ (rb.cur_ptr + 1) % rb.buffer_size
    moved = ground arith

    same : (rb'.buffer ≡ rb.buffer) × (rb'.buffer_size ≡ rb.buffer_size)
    same = ground arith

    later : (k : ℕ) → peek rb' k ≡ peek rb (k + 1)
    later k =
        rw (moved, same.0, same.1, mod-add-mod)
          (ap (λ t. get_or rb.buffer (t % rb.buffer_size) 0) (omega arith))

-- A byte put into a valid ring that has room is what the next get returns; the ring is then as
-- long as before.
pub put-get :
    {rb rb' : RingBuffer} (x : ℕ)
    → IsValid rb
    → ring_buffer_put_elem rb x ≡ some rb'
    → (rb'' : RingBuffer) × (ring_buffer_get_elem rb' ≡ some (x, rb'')) × (rb''.len ≡ rb.len)
unfolding ring_buffer_get_elem
put-get {rb} {rb'} x v e = (
  record rb' { cur_ptr = (rb'.cur_ptr + 1) % rb'.buffer_size % 2 ^ 16; len = rb'.len - 1 },
  ground (arith, put-peek x v e, peek_zero rb' (put-IsValid x v e)),
  ground (arith, put-peek x v e),
)
