-- ===== src/Memory/Cache/Sizes.antt =====
-- memory.c: what an object of a size gets from the object caches.
use mathlib.Core.Path.{subst}
use native.Mathlib.Nat.{
  mul-zero, mul-suc, suc-mul, zero-mul, div-eq_of_lt-le, div-div-eq-div-mul, pow-succ', pow-suc,
  pow-zero, div-one,
}
use xis.Prelude.{
  ℕ, zero, suc, ◌+◌, ◌-◌, ◌*◌, ◌/◌, ◌^◌, ◌≤◌, ◌<◌, ◌≡◌, ap, sym, ◌∙◌, arith, ltb, leb, ◌==◌, ==→eq,
  Bool-cases, inl, inr,
}
use xis.Memory.Cache.{class_loop, slots_loop, slot_count}

-- For a bitmap of at least 4 bytes, as many descriptors are put on the page as bitmaps alone would
-- have room in its last 4080 bytes.
slots_loop_lem :
    (n desc b : ℕ)
    → 4084 < desc + b * n
    → desc ≤ 4084
    → let r = slots_loop n desc b in (r * b + desc ≤ 4084) × (4084 < suc r * b + desc)
unfolding slots_loop
slots_loop_lem zero desc b g l = absurd (omega (arith, mul-zero b))
slots_loop_lem (suc n) desc b g l =
    let r = slots_loop n (desc + b) b in
    elim (Bool-cases (leb (desc + (12 + b)) 4096)) [
      | inl e ↦
          let (low, high) =
            slots_loop_lem n (desc + b) b (omega (arith, mul-suc b n)) (ground arith) in
          rw e (omega (arith, suc-mul r b), omega (arith, suc-mul (suc r) b))
      | inr e ↦ rw e (omega (arith, zero-mul b), ground (arith, suc-mul 0 b, zero-mul b))
    ]

-- For a bitmap of at least 4 bytes: as many descriptors are put on a page as bitmaps alone have room
-- in 4080 of its bytes, since each one starts one bitmap behind the one before.
pub slot_count_lem : (b : ℕ) → 4 ≤ b → slot_count b ≡ 4080 / b
unfolding slot_count
slot_count_lem b h =
    let (low, high) = slots_loop_lem 1024 4 b (omega arith) (omega arith) in
    let r = slots_loop 1024 4 b in
    let next : (r + 1) * b ≡ suc r * b = ap (λ t. t * b) {x = r + 1} {y = suc r} (omega arith) in
    sym (div-eq_of_lt-le {k = r} b (omega (arith, low)) (omega (arith, high, next)))

-- The class is reached by the halvings that leave no more than 4.
class_loop_lem :
    (n i idx : ℕ)
    → i < 2 ^ n
    → (c : ℕ) × (class_loop n i idx ≡ idx + c) × (i / 2 ^ c ≤ 4) × ((k : ℕ) → k < c → 4 < i / 2 ^ k)
unfolding class_loop
class_loop_lem zero i idx h = (
  0,
  omega arith,
  rw (pow-zero 2, div-one i) (omega (arith, pow-zero 2)),
  λ k l. absurd (omega arith),
)
class_loop_lem (suc n) i idx h = elim (Bool-cases (ltb 4 i)) [
  | inl e ↦
      let (c, at, low, high) = class_loop_lem n (i / 2) (idx + 1) (omega (arith, pow-suc 2 n)) in
      let half =
        λ (k : ℕ). div-div-eq-div-mul i 2 (2 ^ k) ∙ ap (λ t. i / t) (sym (pow-succ' 2 k)) in
      (
        suc c,
        rw e (at ∙ omega arith),
        omega (arith, half c, low),
        λ k l. elim (Bool-cases (k == 0)) [
          | inl z ↦
              subst (λ j. 4 < i / 2 ^ j) (sym (==→eq k 0 z))
                (rw (pow-zero 2, div-one i) (ground arith))
          | inr z ↦
              let same : suc (k - 1) ≡ k = ground arith in
              subst (λ j. 4 < i / 2 ^ j) same
                (omega (arith, half (k - 1), high (k - 1) (ground arith)))
        ],
      )
  | inr e ↦ (
    0,
    rw e (omega arith),
    rw (pow-zero 2, div-one i) (ground arith),
    λ k l. absurd (omega arith),
  )
]
