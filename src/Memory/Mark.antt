-- ===== src/Memory/Mark.antt =====
-- memory.c, buddy allocator: the descriptor of a page that is in no list may change.
use xis.Prelude.Maps.{update}
use xis.Prelude.{ℕ, ◌≡◌, ◌↔◌, Bool, false, arith}
use xis.Memory.{Buddy}
use xis.Memory.Invariant.{Head, order_of, IsValid, IsFree}

-- A page that is not the head of a free block is given an order and the flag `free_sub`.
abbrev pub mark : Buddy → ℕ → ℕ → Bool → Buddy
mark b q o sub = record b {
  kpages = update b.kpages q (record (b.kpages q) { order = o; free_sub = sub });
}

module _ (b : Buddy) (q o : ℕ) (sub : Bool) (not_head : (b.kpages q).free_buddy ≡ false) where
  mark-head : (r : ℕ) → ((mark b q o sub).kpages r).free_buddy ≡ (b.kpages r).free_buddy
  mark-head r = ground arith

  mark-order : (r : ℕ) → Head b r → order_of (mark b q o sub) r ≡ order_of b r
  mark-order r h = ground arith

  pub unmarked :
      (r : ℕ) → Head (mark b q o sub) r → Head b r × (order_of (mark b q o sub) r ≡ order_of b r)
  unmarked r h = ground arith

  pub mark-IsValid : IsValid b → IsValid (mark b q o sub)
  mark-IsValid v = record {
    bounded = λ r h. rw ((unmarked r h).1) (v.bounded r (unmarked r h).0);
    aligned = λ r h. rw ((unmarked r h).1) (v.aligned r (unmarked r h).0);
    inside = λ r h. rw ((unmarked r h).1) (v.inside r (unmarked r h).0);
    apart = λ r s hr hs n.
        rw ((unmarked r hr).1, (unmarked s hs).1)
          (v.apart r s (unmarked r hr).0 (unmarked s hs).0 n);
    listed = λ r k. ground (arith, v.listed r k);
    distinct = v.distinct;
    counted = v.counted;
  }

  pub IsFree-mark : (f : ℕ) → IsFree (mark b q o sub) f ↔ IsFree b f
  IsFree-mark f = (
    λ (r, h, i). (r, (unmarked r h).0, rw ((unmarked r h).1) at i),
    λ (r, h, i). (r, rw (mark-head r) h, rw (mark-order r h) i),
  )
