-- ===== src/Memory/Insert.antt =====
-- memory.c, `page_add_to_slot`: the branch that puts a block into its list.
use xis.Prelude.{
  ℕ, suc, ◌+◌, ◌^◌, ◌≤◌, ◌≡◌, ◌≢◌, ◌⊎◌, inl, inr, ◌↔◌, refl, true, false, ◌&&◌, [], ◌∷◌, ◌==◌,
  if◌then◌else◌, length, length-append, arith, Bool-cases, ==→eq, ==→ne,
}
use xis.Memory.{Buddy, max_alloc_order, insert_block}
use xis.Memory.Blocks.{InBlock, Apart, IsAligned, pow_pos}
use xis.Memory.Invariant.{
  mem, Distinct, Head, order_of, IsValid, IsFree, Loose, mem-append, append-Distinct,
}

module _ (b : Buddy) (p o : ℕ) (v : IsValid b) (l : Loose b p o) where
  -- A loose block is no free block.
  pub loose_not_head : (b.kpages p).free_buddy ≡ false
  loose_not_head = elim (Bool-cases (b.kpages p).free_buddy) [
    | inl h ↦ absurd (omega (arith, l.clear p h, pow_pos o, pow_pos (order_of b p)))
    | inr h ↦ h
  ]

  abbrev after : Buddy
  after = insert_block b o p

  head-insert :
      (q : ℕ) → (after.kpages q).free_buddy ≡ (if p == q then true else (b.kpages q).free_buddy)
  unfolding insert_block
  head-insert q = ground arith

  order-insert : (q : ℕ) → order_of after q ≡ (if p == q then o else order_of b q)
  unfolding insert_block
  order-insert q = ground arith

  same_last : after.kpage_last ≡ b.kpage_last
  unfolding insert_block
  same_last = refl

  -- What holds of the new block and of the old ones holds of every block behind the insertion.
  insert_heads :
      (P : ℕ → ℕ → Type 0)
      → P p o
      → ((q : ℕ) → Head b q → p ≢ q → P q (order_of b q))
      → (q : ℕ) → Head after q
      → P q (order_of after q)
  insert_heads P new old q h = elim (Bool-cases (p == q)) [
    | inl e ↦ rw (order-insert q, e) (rw (==→eq p q e) at new)
    | inr e ↦ rw (order-insert q, e) (old q (ground (arith, head-insert q)) (==→ne p q e))
  ]

  insert-Apart :
      (q r : ℕ)
      → Head after q
      → Head after r
      → q ≢ r
      → Apart q (order_of after q) r (order_of after r)
  insert-Apart q r hq hr =
      insert_heads (λ x k. x ≢ r → Apart x k r (order_of after r))
        (insert_heads (λ y k. p ≢ y → Apart p o y k) (λ n. absurd (n refl)) (λ y h e n. l.clear y h)
          r hr)
        (λ x hx px.
          insert_heads (λ y k. x ≢ y → Apart x (order_of b x) y k)
            (λ n. ground (arith, l.clear x hx)) (λ y hy py n. v.apart x y hx hy n) r hr)
        q hq

  insert-listed :
      (q o' : ℕ)
      → mem q (after.free_pages o') ≡ ((after.kpages q).free_buddy && order_of after q == o')
  unfolding insert_block
  insert-listed q o' =
      ground (arith, v.listed q o', mem-append q p (b.free_pages o'), loose_not_head)

  insert-Distinct : (o' : ℕ) → Distinct (after.free_pages o')
  unfolding insert_block
  insert-Distinct o' =
      ground
        (arith, append-Distinct p (b.free_pages o), v.listed p o, v.distinct o', loose_not_head)

  insert-counted : (o' : ℕ) → length (after.free_pages o') ≤ after.free_pages_count o'
  unfolding insert_block
  insert-counted o' = ground (arith, v.counted o', length-append (b.free_pages o) (p ∷ []))

  pub insert-IsValid : IsValid after
  insert-IsValid = record {
    bounded = insert_heads (λ q k. k ≤ max_alloc_order) l.small (λ q h n. v.bounded q h);
    aligned = insert_heads IsAligned l.at_multiple (λ q h n. v.aligned q h);
    inside =
        insert_heads (λ q k. q + 2 ^ k ≤ suc after.kpage_last) (rw same_last l.in_memory)
          (λ q h n. rw same_last (v.inside q h));
    apart = insert-Apart;
    listed = insert-listed;
    distinct = insert-Distinct;
    counted = insert-counted;
  }

  old-Head : (q : ℕ) → Head b q → Head after q × (order_of after q ≡ order_of b q)
  old-Head q h = ground (arith, head-insert q, order-insert q, loose_not_head)

  new-Head : Head after p × (order_of after p ≡ o)
  new-Head = ground (arith, head-insert p, order-insert p)

  -- The free frames are the old ones and those of the block.
  pub IsFree-insert : (f : ℕ) → IsFree after f ↔ (IsFree b f ⊎ InBlock p o f)
  IsFree-insert f = (
    λ (q, h, i).
        insert_heads (λ q k. InBlock q k f → IsFree b f ⊎ InBlock p o f) (λ i. inr i)
          (λ q h n i. inl (q, h, i)) q h i,
    elim [
      | inl (q, h, i) ↦ (q, (old-Head q h).0, rw ((old-Head q h).1) i)
      | inr i ↦ (p, new-Head.0, rw (new-Head.1) i)
    ],
  )
