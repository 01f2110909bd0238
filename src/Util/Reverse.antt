-- ===== src/Util/Reverse.antt =====
-- util.c: the reversal in place at the end of `_itoa`.
use xis.Prelude.{
  ℕ, zero, suc, ◌+◌, ◌-◌, ◌≤◌, ◌≡◌, arith, ◌&&◌, leb, ltb, if◌then◌else◌, Bool-cases, inl, inr,
}
use xis.Prelude.Maps.{update}
use xis.Util.{Bytes, reverse_loop}

pub reverse_loop_lem :
    (n p str : ℕ) (m : Bytes) (j : ℕ)
    → p ≤ str + n
    → reverse_loop n p str m j ≡ (if leb str j && leb j p then m (str + p - j) else m j)
unfolding reverse_loop
reverse_loop_lem zero p str m j h = grind arith
reverse_loop_lem (suc n) p str m j h = elim (Bool-cases (ltb str p)) [
  | inl e ↦
      rw
        (
          e,
          reverse_loop_lem n (p - 1) (str + 1) (update (update m p (m str)) str (m p)) j
              (omega arith),
        )
        (grind (arith, e))
  | inr e ↦ rw e (grind (arith, e))
]
