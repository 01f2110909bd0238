-- ===== src/Memory/Merge.antt =====
-- memory.c, `page_add_to_slot`: the branch that joins a block with its free buddy.
use xis.Prelude.{
  ℕ, suc, ◌+◌, ◌^◌, ◌≤◌, ◌<◌, ◌≡◌, ◌≢◌, ◌⊎◌, inl, inr, ◌↔◌, refl, sym, true, false, ◌&&◌, ◌==◌,
  if◌then◌else◌, length, arith, Bool-cases, ==→eq, ==→ne,
}
use native.Mathlib.Nat.{pow-suc}
use mathlib.Core.Path.{subst}
use xis.Memory.{Buddy, max_alloc_order, buddy_of, first_of, can_merge, merge}
use xis.Memory.Blocks.{InBlock, Apart, Halves, buddy-Halves, pow_pos}
use xis.Memory.Invariant.{
  mem, Distinct, Head, order_of, IsValid, IsFree, Loose, mem-remove, remove-Distinct, remove_absent,
  length-remove,
}
use xis.Memory.Insert.{loose_not_head}

module _ (b : Buddy) (p o end_pfn : ℕ) (v : IsValid b) (l : Loose b p o)
    (can : can_merge b o p end_pfn ≡ true) where
  abbrev other : ℕ
  other = buddy_of p o

  abbrev first : ℕ
  first = first_of p other

  abbrev after : Buddy
  after = merge b o p

  -- What the condition of the merge says.
  merge_guard : (o < max_alloc_order) × Head b other × (order_of b other ≡ o)
  merge_guard = ground arith

  halves : Halves p o other
  halves = buddy-Halves p o l.at_multiple

  other-ne : other ≢ p
  other-ne e = omega (arith, halves.side, pow_pos o)

  head-merge :
      (q : ℕ)
      → (after.kpages q).free_buddy
        ≡ (if other == q then false else if p == q then false else (b.kpages q).free_buddy)
  unfolding merge
  head-merge q = ground arith

  order-merge : (q : ℕ) → order_of after q ≡ order_of b q
  unfolding merge
  order-merge q = ground arith

  -- The two halves make up the block of the next order.
  union : (f : ℕ) → InBlock first (suc o) f ↔ (InBlock p o f ⊎ InBlock other o f)
  union f = (
    λ i. ground (arith, halves.side, pow-suc 2 o, pow_pos o),
    λ i. ground (arith, halves.side, pow-suc 2 o, pow_pos o),
  )

  -- A free block is either the buddy, which is taken out, or stays as it was.
  kept-Head : (q : ℕ) → Head after q → Head b q × (other ≢ q)
  kept-Head q h = ground (arith, head-merge q)

  kept_again : (q : ℕ) → Head b q → other ≢ q → Head after q
  kept_again q h n = ground (arith, head-merge q, loose_not_head b p o v l)

  merge-listed :
      (q k : ℕ)
      → mem q (after.free_pages k) ≡ ((after.kpages q).free_buddy && order_of after q == k)
  unfolding merge
  merge-listed q k = ground (
    arith,
    v.listed q k,
    mem-remove other q (b.free_pages k),
    head-merge q,
    order-merge q,
    loose_not_head b p o v l,
  )

  merge-counted : (k : ℕ) → length (after.free_pages k) ≤ after.free_pages_count k
  unfolding merge
  merge-counted k = ground (
    arith,
    v.counted k,
    length-remove other (b.free_pages k) (v.distinct k),
    remove_absent other (b.free_pages k),
    v.listed other k,
    merge_guard,
  )

  merge-Distinct : (k : ℕ) → Distinct (after.free_pages k)
  unfolding merge
  merge-Distinct k = remove-Distinct other (b.free_pages k) (v.distinct k)

  same_last : after.kpage_last ≡ b.kpage_last
  unfolding merge
  same_last = refl

  pub merge-IsValid : IsValid after
  merge-IsValid = record {
    bounded = λ q h. rw order-merge (v.bounded q (kept-Head q h).0);
    aligned = λ q h. rw order-merge (v.aligned q (kept-Head q h).0);
    inside = λ q h. rw (order-merge, same_last) (v.inside q (kept-Head q h).0);
    apart = λ q r hq hr n.
        rw (order-merge q, order-merge r) (v.apart q r (kept-Head q hq).0 (kept-Head r hr).0 n);
    listed = merge-listed;
    distinct = merge-Distinct;
    counted = merge-counted;
  }

  other-in_memory : other + 2 ^ o ≤ suc b.kpage_last
  other-in_memory = ground (arith, merge_guard, v.inside other)

  -- The buddy's block has the order of the block at hand.
  other-clear : (q : ℕ) → Head b q → other ≢ q → Apart other o q (order_of b q)
  other-clear q h n = rw (merge_guard.2) at (v.apart other q (merge_guard.1) h n)

  merge-clear : (q : ℕ) → Head after q → Apart first (suc o) q (order_of after q)
  merge-clear q h = ground (
    arith,
    order-merge q,
    l.clear q (kept-Head q h).0,
    other-clear q (kept-Head q h).0 (kept-Head q h).1,
    halves.side,
    pow-suc 2 o,
    pow_pos (order_of b q),
  )

  pub merge-Loose : Loose after first (suc o)
  merge-Loose = record {
    small = merge_guard.0;
    at_multiple = halves.aligned_first;
    in_memory = ground (arith, halves.side, pow-suc 2 o, l.in_memory, other-in_memory, same_last);
    clear = merge-clear;
  }

  same_block : (q f : ℕ) → other ≡ q → InBlock q (order_of b q) f → InBlock other o f
  same_block q f e i = rw (merge_guard.2) at (subst (λ t. InBlock t (order_of b t) f) (sym e) i)

  -- What is free, the block at hand included, is the same before and after.
  pub IsFree-merge :
      (f : ℕ) → (IsFree after f ⊎ InBlock first (suc o) f) ↔ (IsFree b f ⊎ InBlock p o f)
  IsFree-merge f = (
    elim [
      | inl (q, h, i) ↦ inl (q, (kept-Head q h).0, rw order-merge at i)
      | inr i ↦ elim ((union f).0 i) [
        | inl lower ↦ inr lower
        | inr upper ↦ inl (other, merge_guard.1, rw (merge_guard.2) upper)
      ]
    ],
    elim [
      | inl (q, h, i) ↦ elim (Bool-cases (other == q)) [
        | inl e ↦ inr ((union f).1 (inr (same_block q f (==→eq other q e) i)))
        | inr e ↦ inl (q, kept_again q h (==→ne other q e), rw order-merge i)
      ]
      | inr i ↦ inr ((union f).1 (inl i))
    ],
  )
