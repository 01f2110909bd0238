-- ===== src/Page32/User/Errors.antt =====
-- page32.c, `alloc_user_page`: its error returns.
use xis.Prelude.{
  ℕ, suc, ◌+◌, ◌/◌, ◌%◌, ◌^◌, ◌≤◌, ◌≡◌, ◌≢◌, ◌⊎◌, ◌↔◌, refl, ap, sym, ◌∙◌, Option, none, some,
  false, ◌==◌, leb, not, if◌then◌else◌, arith, Bool-cases, inl, inr,
}
use mathlib.Core.Path.{subst}
use xis.Memory.{Buddy, page_alloc}
use xis.Memory.Invariant.{IsValid, IsFree}
use xis.Memory.Contract.{page_alloc-Allocated, IsValid-shown, page_alloc-kept, IsFree-return}
use xis.Page32.{Layout, kernel_virt_addr, page_size, align_page}
use xis.Page32.User.{
  Machine, Run, exhausted, returned, err_nomem, err_invalid, err_not_supported, npages_to_order,
  retry_loop, alloc_user_page,
}
use xis.Page32.User.Rounds.{
  machine_of, is_exhausted, settled_ends, settled, round-settled, settled-error,
}

-- The same free frames, in a valid allocator.
abbrev pub SameFrames : Buddy → Buddy → Type 0
SameFrames b b' = IsValid b' × ((f : ℕ) → IsFree b' f ↔ IsFree b f)

module _ (y : Layout) (cpu virt_addr length pte_flags : ℕ) (s : Machine) where
  abbrev size : ℕ
  size = align_page length

  -- The checks of the arguments, before the body.
  abbrev guarded : Run → Run
  guarded got =
      if virt_addr == 0
      then returned err_not_supported s
      else if not (virt_addr % page_size == 0)
      then returned err_invalid s
      else if leb kernel_virt_addr ((virt_addr + size) % 2 ^ 32)
      then returned err_invalid s
      else got

  guarded-cases :
      (r : Run) (code : ℕ) (s' : Machine)
      → guarded r ≡ returned code s'
      → (s ≡ s') ⊎ (r ≡ returned code s')
  guarded-cases r code s' e = elim (Bool-cases (virt_addr == 0)) [
    | inl a ↦ inl (ap (machine_of s) (rw a at e))
    | inr a ↦ elim (Bool-cases (virt_addr % page_size == 0)) [
      | inr b ↦ inl (ap (machine_of s) (rw (a, b) at e))
      | inl b ↦ elim (Bool-cases (leb kernel_virt_addr ((virt_addr + size) % 2 ^ 32))) [
        | inl d ↦ inl (ap (machine_of s) (rw (a, b, d) at e))
        | inr d ↦ inr (rw (a, b, d) at e)
      ]
    ]
  ]

  abbrev pages : Option ℕ × Buddy
  pages = page_alloc (npages_to_order (size / page_size)) s.buddy

  abbrev body : Option ℕ × Buddy → Run
  body (none, b) = returned err_nomem (record s { buddy = b })
  body (some p, b) = settled y cpu virt_addr size pte_flags p (record s { buddy = b })

  alloc_user_page-body :
      (n : ℕ)
      → alloc_user_page (suc (suc n)) y cpu virt_addr length pte_flags s ≡ guarded (body pages)
  unfolding alloc_user_page
  alloc_user_page-body n = ap guarded (go pages)
    where
      go :
          (t : Option ℕ × Buddy)
          → elim t.0 [
            | none ↦ returned err_nomem (record s { buddy = t.1 })
            | some p ↦
                retry_loop
                  (suc (suc n))
                  y
                  cpu
                  virt_addr
                  size
                  pte_flags
                  p
                  none
                  0
                  (record s { buddy = t.1 })
          ]
            ≡ body t
      go (none, b) = refl
      go (some p, b) = round-settled y cpu virt_addr size pte_flags p n (record s { buddy = b })

  guarded_ends : (r : Run) → is_exhausted r ≡ false → is_exhausted (guarded r) ≡ false
  guarded_ends r e = elim (Bool-cases (virt_addr == 0)) [
    | inl a ↦ rw a refl
    | inr a ↦ elim (Bool-cases (virt_addr % page_size == 0)) [
      | inr b ↦ rw (a, b) refl
      | inl b ↦ elim (Bool-cases (leb kernel_virt_addr ((virt_addr + size) % 2 ^ 32))) [
        | inl d ↦ rw (a, b, d) refl
        | inr d ↦ rw (a, b, d) e
      ]
    ]
  ]

  body_ends : (t : Option ℕ × Buddy) → is_exhausted (body t) ≡ false
  body_ends (none, b) = refl
  body_ends (some p, b) = settled_ends y cpu virt_addr size pte_flags p (record s { buddy = b })

  body-error :
      (t : Option ℕ × Buddy) (code : ℕ) (s' : Machine)
      → IsValid s.buddy
      → pages ≡ t
      → body t ≡ returned code s'
      → code ≢ 0
      → (s'.words ≡ s.words) × SameFrames s.buddy s'.buddy
  body-error (none, b) code s' v h e c =
      let same = ap (machine_of s) e in
      let kept = page_alloc-kept (npages_to_order (size / page_size)) s.buddy v b h in
      let frames : SameFrames s.buddy b =
        subst (SameFrames s.buddy) kept.1 (IsValid-shown s.buddy kept.0 v, λ f. (λ x. x, λ x. x)) in
      subst (λ (t : Machine). (t.words ≡ s.words) × SameFrames s.buddy t.buddy) same (refl, frames)
  body-error (some p, b) code s' v h e c =
      let order = npages_to_order (size / page_size) in
      let s1 = record s { buddy = b } in
      let (words, (w, given)) =
        settled-error y cpu virt_addr size pte_flags p s1 s' code
          (page_alloc-Allocated order s.buddy v p b h).valid e c in
      (words, subst (SameFrames s.buddy) (sym given) (IsFree-return order s.buddy v p b w h))

  -- For a virtual address that is 0, is not that of a page, or makes the range reach the kernel,
  -- the call returns the code for it and changes nothing.
  alloc_user_page-rejects :
      (n : ℕ)
      → (virt_addr % page_size ≢ 0)
        ⊎ (virt_addr ≡ 0)
        ⊎ (kernel_virt_addr ≤ (virt_addr + size) % 2 ^ 32)
      → alloc_user_page n y cpu virt_addr length pte_flags s
        ≡ returned (if virt_addr == 0 then err_not_supported else err_invalid) s
  unfolding alloc_user_page
  alloc_user_page-rejects n bad = ground arith

  -- The retries end: with two rounds or more the rounds do not run out, and the result is the same as
  -- with two.
  pub alloc_user_page-rounds :
      (n : ℕ)
      → (alloc_user_page (suc (suc n)) y cpu virt_addr length pte_flags s ≢ exhausted)
        × (alloc_user_page (suc (suc n)) y cpu virt_addr length pte_flags s
            ≡ alloc_user_page 2 y cpu virt_addr length pte_flags s)
  alloc_user_page-rounds n = (
    λ e. absurd (
        cc (
          sym (guarded_ends (body pages) (body_ends pages))
          ∙ ap is_exhausted (sym (alloc_user_page-body n) ∙ e))),
    alloc_user_page-body n ∙ sym (alloc_user_page-body 0),
  )

  -- From a valid allocator, a call that returns an error leaves the memory as it was, the allocator
  -- valid, and the same frames free: nothing that was allocated on the way is lost.
  pub alloc_user_page-error :
      (n code : ℕ) (s' : Machine)
      → IsValid s.buddy
      → alloc_user_page (suc (suc n)) y cpu virt_addr length pte_flags s ≡ returned code s'
      → code ≢ 0
      → (s'.words ≡ s.words) × SameFrames s.buddy s'.buddy
  unfolding alloc_user_page
  alloc_user_page-error n code s' v e c =
      elim (guarded-cases (body pages) code s' (sym (alloc_user_page-body n) ∙ e)) [
        | inl same ↦
            subst (λ (t : Machine). (t.words ≡ s.words) × SameFrames s.buddy t.buddy) same
              (refl, (v, λ f. (λ x. x, λ x. x)))
        | inr ran ↦ body-error pages code s' v refl ran c
      ]
