-- ===== src/Memory/Add.antt =====
-- memory.c, `page_add_to_slot`: a block given back joins the free frames, and nothing else does.
use xis.Prelude.{ℕ, zero, suc, ◌+◌, ◌≡◌, ◌⊎◌, inl, inr, ◌↔◌, refl, Option, arith, Bool-cases}
use xis.Memory.{
  Buddy, max_alloc_order, buddy_of, first_of, can_merge, merge, insert_block, add_loop, end_of,
  page_add_to_slot,
}
use xis.Memory.Blocks.{InBlock}
use xis.Memory.Invariant.{Head, order_of, IsValid, IsFree, Loose}
use xis.Memory.Insert.{insert-IsValid, IsFree-insert}
use xis.Memory.Merge.{merge-IsValid, merge-Loose, IsFree-merge}

-- The state is valid, and its free frames are those of `b` and those of the block.
pub record Joined (b : Buddy) (p o : ℕ) (b' : Buddy) : Type 0 where
  pub valid : IsValid b'
  pub frames : (f : ℕ) → IsFree b' f ↔ (IsFree b f ⊎ InBlock p o f)

pub add_loop-Joined :
    (n o p end_pfn : ℕ) (b : Buddy)
    → o + n ≡ suc max_alloc_order
    → IsValid b
    → Loose b p o
    → Joined b p o (add_loop n o p end_pfn b)
unfolding add_loop
add_loop-Joined zero o p end_pfn b e v l = absurd (omega (arith, l.small))
add_loop-Joined (suc n) o p end_pfn b e v l = elim (Bool-cases (can_merge b o p end_pfn)) [
  | inl can ↦
      let next : o + 1 ≡ suc o = omega arith in
      let ih =
        add_loop-Joined n (suc o) (first_of p (buddy_of p o)) end_pfn (merge b o p) (omega arith)
          (merge-IsValid b p o end_pfn v l can) (merge-Loose b p o end_pfn v l can) in
      rw (can, next)
        (record {
          valid = ih.valid;
          frames = λ f. (
            λ h. (IsFree-merge b p o end_pfn v l can f).0 ((ih.frames f).0 h),
            λ h. (ih.frames f).1 ((IsFree-merge b p o end_pfn v l can f).1 h),
          );
        })
  | inr not ↦ rw not (record { valid = insert-IsValid b p o v l; frames = IsFree-insert b p o v l })
]

merge_fields :
    (b : Buddy) (o p q : ℕ)
    → (order_of (merge b o p) q ≡ order_of b q)
      × (((merge b o p).kpages q).allocated ≡ (b.kpages q).allocated)
unfolding merge
merge_fields b o p q = (ground arith, ground arith)

insert_fields :
    (b : Buddy) (o p q : ℕ)
    → ((order_of (insert_block b o p) q ≡ order_of b q) ⊎ Head (insert_block b o p) q)
      × (((insert_block b o p).kpages q).allocated ≡ (b.kpages q).allocated)
unfolding insert_block
insert_fields b o p q = (ground arith, ground arith)

-- The page descriptors of other pages keep their order, unless they become heads of free blocks.
pub add_loop-order :
    (n o p end_pfn : ℕ) (b : Buddy) (q : ℕ)
    → (order_of (add_loop n o p end_pfn b) q ≡ order_of b q) ⊎ Head (add_loop n o p end_pfn b) q
unfolding add_loop
add_loop-order zero o p end_pfn b q = inl refl
add_loop-order (suc n) o p end_pfn b q = ground (
  arith,
  add_loop-order n (o + 1) (first_of p (buddy_of p o)) end_pfn (merge b o p) q,
  merge_fields b o p q,
  insert_fields b o p q,
)

-- `page_add_to_slot` keeps the allocation marks and the reference counts.
pub add_loop-allocated :
    (n o p end_pfn : ℕ) (b : Buddy) (q : ℕ)
    → ((add_loop n o p end_pfn b).kpages q).allocated ≡ (b.kpages q).allocated
unfolding add_loop
add_loop-allocated zero o p end_pfn b q = refl
add_loop-allocated (suc n) o p end_pfn b q = ground (
  arith,
  add_loop-allocated n (o + 1) (first_of p (buddy_of p o)) end_pfn (merge b o p) q,
  merge_fields b o p q,
  insert_fields b o p q,
)

pub add_loop-last :
    (n o p end_pfn : ℕ) (b : Buddy) → (add_loop n o p end_pfn b).kpage_last ≡ b.kpage_last
unfolding add_loop merge insert_block
add_loop-last zero o p end_pfn b = refl
add_loop-last (suc n) o p end_pfn b =
    ground (arith, add_loop-last n (o + 1) (first_of p (buddy_of p o)) end_pfn (merge b o p))

-- A block that is not free is given back: the state stays valid, and the free frames are those from
-- before and those of the block, whether it is merged with its buddies or not.
pub page_add_to_slot-Joined :
    (p : ℕ) (end_kpage : Option ℕ) (b : Buddy)
    → IsValid b
    → Loose b p (order_of b p)
    → Joined b p (order_of b p) (page_add_to_slot p end_kpage b)
unfolding page_add_to_slot
page_add_to_slot-Joined p end_kpage b v l =
    add_loop-Joined _ (order_of b p) p (end_of end_kpage b) b (omega (arith, l.small)) v l
