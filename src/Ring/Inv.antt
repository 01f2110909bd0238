-- ===== src/Ring/Inv.antt =====
-- util.c, ring buffer: the invariant, and what the operations do to the bytes that a reader sees.

use native.Mathlib.Decide.{dec_lt}
use native.Mathlib.Nat.{mod-eq_of_lt, mod-eq-sub-mod}
use xis.Prelude.{
  ℕ, ◌+◌, ◌-◌, ◌%◌, ◌^◌, ◌<◌, ◌≡◌, ◌∙◌, ap, ◌≢◌, some, arith, length, get_or, set, length-set,
  length-replicate,
}
use xis.Ring.{RingBuffer, ring_buffer_init, ring_buffer_put_elem, ring_buffer_get_elem}

-- Every index is inside the buffer, and one slot stays empty.
pub record IsValid (rb : RingBuffer) : Type 0 where
  pub storage : length rb.buffer ≡ rb.buffer_size
  pub small : rb.buffer_size < 2 ^ 16
  pub pointer : rb.cur_ptr < rb.buffer_size
  pub room : rb.len < rb.buffer_size

-- The byte that the k-th next call of `ring_buffer_get_elem` reads.
abbrev pub peek : RingBuffer → ℕ → ℕ
peek rb k = get_or rb.buffer ((rb.cur_ptr + k) % rb.buffer_size) 0

-- Fewer than `n` steps round a ring of `n` slots do not come back to the start.
pub step_mod_ne : (n c k : ℕ) → c < n → 0 < k → k < n → (c + k) % n ≢ c
step_mod_ne n c k hc h0 hk = elim (dec_lt (c + k) n) [
  | yes p ↦ omega (arith, mod-eq_of_lt p)
  | no p ↦ omega (
    arith,
    mod-eq-sub-mod {n = c + k} {m = n} (omega arith),
    mod-eq_of_lt {n = c + k - n} {m = n} (omega arith),
  )
]

-- The test for a full ring means that one slot is left.
pub full_mod : (n c l : ℕ) → c < n → l < n → ((c + l + 1) % n ≡ c) → l + 1 ≡ n
full_mod n c l hc hl e = elim (dec_lt (l + 1) n) [
  | yes p ↦ absurd (step_mod_ne n c (l + 1) hc (omega arith) p (ap (λ t. t % n) (omega arith) ∙ e))
  | no p ↦ omega arith
]

pub mod_full : (n c l : ℕ) → c < n → l + 1 ≡ n → (c + l + 1) % n ≡ c
mod_full n c l hc e = omega (
  arith,
  mod-eq-sub-mod {n = c + l + 1} {m = n} (omega arith),
  mod-eq_of_lt {n = c + l + 1 - n} {m = n} (omega arith),
)

-- A ring over 1 to 65535 bytes starts valid and empty; size 0 is refused.
pub init-IsValid :
    (size : ℕ) {rb : RingBuffer}
    → size < 2 ^ 16
    → ring_buffer_init size ≡ some rb
    → IsValid rb × (rb.len ≡ 0) × (rb.buffer_size ≡ size)
unfolding ring_buffer_init
init-IsValid size h e = ground (arith, length-replicate {A = ℕ} size 0)

module _ {rb rb' : RingBuffer} (x : ℕ) (v : IsValid rb) where
  -- An accepted put keeps the invariant.
  pub put-IsValid : ring_buffer_put_elem rb x ≡ some rb' → IsValid rb'
  unfolding ring_buffer_put_elem
  put-IsValid e =
      ground (arith, length-set rb.buffer rb.cur_ptr x, mod_full rb.buffer_size rb.cur_ptr rb.len)

  pub put_sizes :
      ring_buffer_put_elem rb x ≡ some rb'
      → (rb'.len ≡ rb.len + 1)
        × (rb'.cur_ptr ≡ rb.cur_ptr)
        × (rb'.buffer_size ≡ rb.buffer_size)
        × (rb'.buffer ≡ set rb.buffer rb.cur_ptr x)
  unfolding ring_buffer_put_elem
  put_sizes e = ground arith

-- A get keeps the invariant.
get-IsValid :
    {rb rb' : RingBuffer} (x : ℕ)
    → IsValid rb
    → ring_buffer_get_elem rb ≡ some (x, rb')
    → IsValid rb'
unfolding ring_buffer_get_elem
get-IsValid x v e = ground arith
