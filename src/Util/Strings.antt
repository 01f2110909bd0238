-- ===== src/Util/Strings.antt =====
-- util.c: what `strlen` and `strncmp` return.
use xis.Prelude.{
  ℕ, zero, suc, ◌+◌, ◌^◌, ◌<◌, ◌≤◌, ◌⊎◌, ◌≡◌, ◌≢◌, ap, ◌∙◌, arith, if◌then◌else◌, ◌==◌, inl, inr,
  ne→==,
}
use xis.Util.{Bytes, strlen_loop, strlen, char_less, minus_one, strncmp}

strlen_loop_lem :
    (k n p len : ℕ) (m : Bytes)
    → k < n
    → ((j : ℕ) → j < k → m (p + j) ≢ 0)
    → m (p + k) ≡ 0
    → strlen_loop n p len m ≡ len + k
unfolding strlen_loop
strlen_loop_lem k zero p len m h d z = absurd (omega arith)
strlen_loop_lem zero (suc n) p len m h d z =
    let e : m p ≡ 0 = ap m (omega arith) ∙ z in rw e (omega arith)
strlen_loop_lem (suc k) (suc n) p len m h d z =
    let e : m p ≢ 0 = λ x. d 0 (omega arith) (ap m (omega arith) ∙ x) in
    rw (ne→== (m p) 0 e) (
      strlen_loop_lem k n (p + 1) (len + 1) m (omega arith)
        (λ j l x. d (suc j) (omega arith) (ap m (omega arith) ∙ x)) (ap m (omega arith) ∙ z)
      ∙ omega arith)

-- `strlen` returns how many bytes stand in front of the first zero byte.
pub strlen_lem :
    (k p : ℕ) (m : Bytes)
    → k < 2 ^ 32
    → ((j : ℕ) → j < k → m (p + j) ≢ 0)
    → m (p + k) ≡ 0
    → strlen p m ≡ k
unfolding strlen
strlen_lem k p m h d z = strlen_loop_lem k (2 ^ 32) p 0 m h d z ∙ omega arith

-- Over bytes, with `i` the first place below `len` where the two differ, or `len` when they agree
-- throughout, zero bytes among them or not: `strncmp` returns 0 for `len`, and else -1 or 1 by
-- the bytes at `i` as signed characters.
pub strncmp_lem :
    (len i s1 s2 : ℕ) (m : Bytes)
    → ((a : ℕ) → m a < 2 ^ 8)
    → i ≤ len
    → ((j : ℕ) → j < i → m (s1 + j) ≡ m (s2 + j))
    → (i ≡ len) ⊎ (m (s1 + i) ≢ m (s2 + i))
    → strncmp m s1 s2 len
      ≡ (if i == len then 0 else if char_less (m (s1 + i)) (m (s2 + i)) then minus_one else 1)
unfolding strncmp
strncmp_lem zero i s1 s2 m b h e o = ground arith
strncmp_lem (suc len) zero s1 s2 m b h e (inl o) = absurd (omega arith)
strncmp_lem (suc len) zero s1 s2 m b h e (inr o) =
    let p : m (s1 + 0) ≡ m s1 = ap m (omega arith) in
    let q : m (s2 + 0) ≡ m s2 = ap m (omega arith) in ground (arith, p, q, b (s1 + 0), b (s2 + 0))
strncmp_lem (suc len) (suc i) s1 s2 m b h e o =
    let p : m s1 ≡ m s2 = ap m (omega arith) ∙ e 0 (omega arith) ∙ ap m (omega arith) in
    let x : m (s1 + 1 + i) ≡ m (s1 + suc i) = ap m (omega arith) in
    let y : m (s2 + 1 + i) ≡ m (s2 + suc i) = ap m (omega arith) in
    let rest =
      strncmp_lem len i (s1 + 1) (s2 + 1) m b (omega arith)
        (λ j l. ap m (omega arith) ∙ e (suc j) (omega arith) ∙ ap m (omega arith))
        (ground (arith, x, y)) in
    ground (arith, x, y, p, rest)
