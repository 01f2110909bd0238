-- ===== src/Memory/Init/Frames.antt =====
-- memory.c, `mem_init`: the last loop gives the allocator exactly the frames that nothing marks.

use xis.Prelude.{
  ℕ, zero, suc, ◌+◌, ◌-◌, ◌^◌, ◌≤◌, ◌<◌, ◌≡◌, ◌≢◌, ◌⊎◌, ◌↔◌, inl, inr, refl, ap, sym, ◌∙◌, true,
  false, some, ◌==◌, arith, Bool-cases, ne→==, ==→eq, ==→ne, ==_refl,
}
use mathlib.Core.Path.{subst}
use native.Mathlib.Nat.{one-le-pow}
use xis.Memory.{
  Kpage, Buddy, kpage_is_free, page_add_to_slot, add_loop, merge, insert_block, buddy_of, first_of,
  can_merge,
}
use xis.Memory.Blocks.{InBlock}
use xis.Memory.Invariant.{order_of, IsValid, IsFree, Loose}
use xis.Memory.Add.{Joined, page_add_to_slot-Joined, add_loop-last}
use xis.Memory.Mark.{mark, unmarked, mark-IsValid, IsFree-mark}
use xis.Memory.Init.{Kpages, free_loop}
use xis.Page32.{Words}

merge_ne : (b : Buddy) (o p q : ℕ) → p ≢ q → buddy_of p o ≢ q → (merge b o p).kpages q ≡ b.kpages q
unfolding merge
merge_ne b o p q n n' = ground arith

insert_ne : (b : Buddy) (o p q : ℕ) → p ≢ q → (insert_block b o p).kpages q ≡ b.kpages q
unfolding insert_block
insert_ne b o p q n = rw (ne→== p q n) refl

-- The pages behind the end of the merges keep their descriptors.
add_loop-beyond :
    (n o p end_pfn : ℕ) (b : Buddy) (q : ℕ)
    → p ≤ end_pfn
    → end_pfn < q
    → (add_loop n o p end_pfn b).kpages q ≡ b.kpages q
unfolding add_loop
add_loop-beyond zero o p end_pfn b q h l = refl
add_loop-beyond (suc n) o p end_pfn b q h l = elim (Bool-cases (can_merge b o p end_pfn)) [
  | inl can ↦
      let within : buddy_of p o ≤ end_pfn = ground arith in
      rw can (
        add_loop-beyond n (o + 1) (first_of p (buddy_of p o)) end_pfn (merge b o p) q (ground arith)
          l
        ∙ merge_ne b o p q (λ e. omega arith) (λ e. omega (arith, within, e)))
  | inr cannot ↦ rw cannot (insert_ne b o p q (λ e. omega arith))
]

-- Where the loop is at frame `p`, from the descriptors `k`.
pub record Given (k : Kpages) (last p : ℕ) (b : Buddy) : Type 0 where
  pub valid : IsValid b
  pub frames : (f : ℕ) → IsFree b f ↔ ((f < p) × (kpage_is_free (k f) ≡ true))
  pub ahead : (q : ℕ) → p ≤ q → b.kpages q ≡ k q
  pub end : b.kpage_last ≡ last

module _ (k : Kpages) (none_listed : (f : ℕ) → (k f).free_buddy ≡ false) (last : ℕ) where
  module _ (p : ℕ) (b : Buddy) (g : Given k last p b) (inside : p ≤ last) where
    abbrev reset : Buddy
    reset = mark b p 0 (b.kpages p).free_sub

    not_head : (b.kpages p).free_buddy ≡ false
    not_head = ap (λ (t : Kpage). t.free_buddy) (g.ahead p (omega arith)) ∙ none_listed p

    reset_free : kpage_is_free (reset.kpages p) ≡ kpage_is_free (k p)
    unfolding kpage_is_free
    reset_free = rw (==_refl p) (ap kpage_is_free (g.ahead p (omega arith)))

    reset-Loose : Loose reset p 0
    reset-Loose = record {
      small = omega arith;
      at_multiple = (p, omega arith);
      in_memory = omega (arith, g.end);
      clear = λ q h.
          let (old, same) = unmarked b p 0 (b.kpages p).free_sub not_head q h in
          let below = (g.frames (q + 2 ^ order_of b q - 1)).0 (
            q,
            old,
            (
              omega (arith, one-le-pow (order_of b q) 2 (omega arith)),
              omega (arith, one-le-pow (order_of b q) 2 (omega arith)),
            ),
          ) in
          rw same (omega (arith, below, one-le-pow (order_of b q) 2 (omega arith)));
    }

    reset_frames : (f : ℕ) → IsFree reset f ↔ ((f < p) × (kpage_is_free (k f) ≡ true))
    reset_frames f =
        let same = IsFree-mark b p 0 (b.kpages p).free_sub not_head f in
        (λ h. (g.frames f).0 (same.0 h), λ h. same.1 ((g.frames f).1 h))

    reset_ahead : (q : ℕ) → p + 1 ≤ q → reset.kpages q ≡ k q
    reset_ahead q l = rw (ne→== p q (λ e. omega arith)) (g.ahead q (omega arith))

    reset-IsValid : IsValid reset
    reset-IsValid = mark-IsValid b p 0 (b.kpages p).free_sub not_head g.valid

    kept-Given : kpage_is_free (k p) ≡ false → Given k last (p + 1) reset
    kept-Given e = record {
      valid = reset-IsValid;
      frames = λ f. (
        λ h. let old = (reset_frames f).0 h in (omega (arith, old), old.1),
        λ h. (reset_frames f).1 (skip f h, h.1),
      );
      ahead = reset_ahead;
      end = g.end;
    }
      where
        skip : (f : ℕ) → (f < p + 1) × (kpage_is_free (k f) ≡ true) → f < p
        skip f h = elim (Bool-cases (f == p)) [
          | inl same ↦
              absurd (cc (sym e ∙ ap (λ t. kpage_is_free (k t)) (sym (==→eq f p same)) ∙ h.1))
          | inr other ↦ let n = ==→ne f p other in omega (arith, h.0, n)
        ]

    freed-Given :
        kpage_is_free (k p) ≡ true → Given k last (p + 1) (page_add_to_slot p (some p) reset)
    unfolding page_add_to_slot
    freed-Given e = record {
      valid = joined.valid;
      frames = λ f. (
        λ h. elim ((joined.frames f).0 h) [
          | inl old ↦ let o = (reset_frames f).0 old in (omega (arith, o), o.1)
          | inr here ↦ (omega (arith, here), ap (λ t. kpage_is_free (k t)) (only f here) ∙ e)
        ],
        λ h. (joined.frames f).1 (back f h),
      );
      ahead = λ q l. add_loop-beyond _ _ p p reset q (omega arith) (omega arith) ∙ reset_ahead q l;
      end = add_loop-last _ _ p p reset ∙ g.end;
    }
      where
        order_zero : order_of reset p ≡ 0
        order_zero = ground arith

        joined : Joined reset p 0 (page_add_to_slot p (some p) reset)
        joined =
            subst (λ o. Joined reset p o (page_add_to_slot p (some p) reset)) order_zero
              (page_add_to_slot-Joined p (some p) reset reset-IsValid
                (subst (λ o. Loose reset p o) (sym order_zero) reset-Loose))

        only : (f : ℕ) → InBlock p 0 f → f ≡ p
        only f i = omega (arith, i)

        back : (f : ℕ) → (f < p + 1) × (kpage_is_free (k f) ≡ true) → IsFree reset f ⊎ InBlock p 0 f
        back f h = elim (Bool-cases (f == p)) [
          | inl same ↦ let i = ==→eq f p same in inr (omega (arith, i), omega (arith, i))
          | inr other ↦
              let n = ==→ne f p other in inl ((reset_frames f).1 (omega (arith, h.0, n), h.1))
        ]

  -- Where the loop ends, it has given all frames up to the last.
  pub free_loop_lem :
      (n table p : ℕ) (b : Buddy) (m : Words)
      → Given k last p b
      → p + n ≡ suc last
      → Given k last (suc last) (free_loop n table p b m).0
  unfolding free_loop
  free_loop_lem zero table p b m g e = subst (λ t. Given k last t b) (omega arith) g
  free_loop_lem (suc n) table p b m g e = elim (Bool-cases (kpage_is_free (k p))) [
    | inl free ↦
        rw (reset_free p b g (omega arith), free)
          (free_loop_lem n table (p + 1) _ _ (freed-Given p b g (omega arith) free) (omega arith))
    | inr taken ↦
        rw (reset_free p b g (omega arith), taken)
          (free_loop_lem n table (p + 1) _ _ (kept-Given p b g (omega arith) taken) (omega arith))
  ]
