-- ===== src/Memory/Take.antt =====
-- memory.c, `page_alloc`: a block leaves its list, and its upper halves are given back.
use xis.Prelude.{
  ℕ, ◌≤◌, ◌≡◌, ◌≢◌, ◌⊎◌, inl, inr, ◌↔◌, refl, sym, true, false, ◌==◌, ◌&&◌, if◌then◌else◌, length,
  arith, Bool-cases, ==→eq, ==→ne,
}
use mathlib.Core.Path.{subst}
use xis.Memory.{Buddy, take_block}
use xis.Memory.Blocks.{InBlock}
use xis.Memory.Invariant.{
  mem, Distinct, Head, order_of, IsValid, IsFree, Loose, mem-remove, remove-Distinct, remove_absent,
  length-remove,
}

module _ (order p : ℕ) (b : Buddy) (v : IsValid b) (head : Head b p) where
  abbrev after : Buddy
  after = take_block order p b

  take-head :
      (q : ℕ) → (after.kpages q).free_buddy ≡ (if p == q then false else (b.kpages q).free_buddy)
  unfolding take_block
  take-head q = ground arith

  take-order : (q : ℕ) → p ≢ q → order_of after q ≡ order_of b q
  unfolding take_block
  take-order q n = ground arith

  pub take_marks : (order_of after p ≡ order) × ((after.kpages p).allocated ≡ true)
  unfolding take_block
  take_marks = ground arith

  pub take-last : after.kpage_last ≡ b.kpage_last
  unfolding take_block
  take-last = refl

  old : (q : ℕ) → Head after q → Head b q × (p ≢ q) × (order_of after q ≡ order_of b q)
  old q h = ground (arith, take-head q, take-order q)

  still : (q : ℕ) → Head b q → p ≢ q → Head after q × (order_of after q ≡ order_of b q)
  still q h n = ground (arith, take-head q, take-order q n)

  take-listed :
      (q k : ℕ)
      → mem q (after.free_pages k) ≡ ((after.kpages q).free_buddy && order_of after q == k)
  unfolding take_block
  take-listed q k = ground (arith, v.listed q k, mem-remove p q (b.free_pages k))

  take-counted : (k : ℕ) → length (after.free_pages k) ≤ after.free_pages_count k
  unfolding take_block
  take-counted k = ground (
    arith,
    v.counted k,
    length-remove p (b.free_pages k) (v.distinct k),
    remove_absent p (b.free_pages k),
    v.listed p k,
  )

  take-Distinct : (k : ℕ) → Distinct (after.free_pages k)
  unfolding take_block
  take-Distinct k = remove-Distinct p (b.free_pages k) (v.distinct k)

  pub take-IsValid : IsValid after
  take-IsValid = record {
    bounded = λ q h. rw ((old q h).2) (v.bounded q (old q h).0);
    aligned = λ q h. rw ((old q h).2) (v.aligned q (old q h).0);
    inside = λ q h. rw ((old q h).2, take-last) (v.inside q (old q h).0);
    apart =
        λ q r hq hr n. rw ((old q hq).2, (old r hr).2) (v.apart q r (old q hq).0 (old r hr).0 n);
    listed = take-listed;
    distinct = take-Distinct;
    counted = take-counted;
  }

  pub take-Loose : Loose after p (order_of b p)
  take-Loose = record {
    small = v.bounded p head;
    at_multiple = v.aligned p head;
    in_memory = rw take-last (v.inside p head);
    clear = λ q h. rw ((old q h).2) (v.apart p q head (old q h).0 (old q h).1);
  }

  pub IsFree-take : (f : ℕ) → IsFree b f ↔ (IsFree after f ⊎ InBlock p (order_of b p) f)
  IsFree-take f = (
    λ (q, h, i). elim (Bool-cases (p == q)) [
      | inl e ↦ inr (subst (λ t. InBlock t (order_of b t) f) (sym (==→eq p q e)) i)
      | inr e ↦ inl (q, (still q h (==→ne p q e)).0, rw ((still q h (==→ne p q e)).1) i)
    ],
    elim [ inl (q, h, i) ↦ (q, (old q h).0, rw ((old q h).2) at i) | inr i ↦ (p, head, i) ],
  )
