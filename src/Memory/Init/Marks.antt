-- ===== src/Memory/Init/Marks.antt =====
-- memory.c, `mem_init`: what the loops over the memory map make of the page descriptors.
use xis.Prelude.Maps.{update}
use xis.Prelude.{
  ℕ, zero, suc, ◌+◌, ◌*◌, ◌/◌, ◌%◌, ◌^◌, ◌<◌, ◌≡◌, inl, inr, refl, ap, sym, ◌∙◌, true, false, not,
  ◌&&◌, ltb, leb, ◌==◌, if◌then◌else◌, arith, Bool-cases, ==→eq, ==→ne, ==_refl,
}
use xis.Memory.{Kpage}
use xis.Memory.Init.{Kpages, reserve, mark_kernel, mark_page, mark_loop, reserve_loop, kernel_loop}

-- The descriptor of a frame of an entry.
abbrev pub marked : ℕ → ℕ → ℕ → Kpage → Kpage
marked type last f p =
    if type == 1
    then if not p.reserved && leb (f * 4096) last then record p { kernel = true } else p
    else record p { reserved = true }

-- A loop that changes the descriptors of `n` frames from `f` on, one by one.
pub apply_range : (ℕ → Kpage → Kpage) → ℕ → ℕ → Kpages → Kpages
apply_range op zero f k = k
apply_range op (suc n) f k = apply_range op n (f + 1) (update k f (op f (k f)))

pub apply_range_lem :
    (op : ℕ → Kpage → Kpage) (n f g : ℕ) (k : Kpages)
    → apply_range op n f k g ≡ (if leb f g && ltb g (f + n) then op g (k g) else k g)
unfolding apply_range
apply_range_lem op zero f g k =
    let out : (leb f g && ltb g (f + 0)) ≡ false = ground arith in rw out refl
apply_range_lem op (suc n) f g k = elim (Bool-cases (f == g)) [
  | inl e ↦
      let same = ==→eq f g e in
      let past : (leb (f + 1) g && ltb g (f + 1 + n)) ≡ false = ground arith in
      let here : (leb f g && ltb g (f + suc n)) ≡ true = ground arith in
      apply_range_lem op n (f + 1) g (update k f (op f (k f)))
      ∙ rw (past, here, e) (ap (λ t. op t (k t)) same)
  | inr e ↦
      let other = ==→ne f g e in
      let range : (leb (f + 1) g && ltb g (f + 1 + n)) ≡ (leb f g && ltb g (f + suc n)) =
        ground arith in
      apply_range_lem op n (f + 1) g (update k f (op f (k f))) ∙ rw (range, e) refl
]

abbrev pub as_reserved : ℕ → Kpage → Kpage
as_reserved f p = record p { reserved = true }

abbrev pub as_kernel : ℕ → Kpage → Kpage
as_kernel f p = record p { kernel = true }

pub reserve_loop-apply_range :
    (n f : ℕ) (k : Kpages) → reserve_loop n f k ≡ apply_range as_reserved n f k
unfolding reserve_loop apply_range
reserve_loop-apply_range zero f k = refl
reserve_loop-apply_range (suc n) f k = reserve_loop-apply_range n (f + 1) (reserve f k)

pub kernel_loop-apply_range :
    (n f : ℕ) (k : Kpages) → kernel_loop n f k ≡ apply_range as_kernel n f k
unfolding kernel_loop apply_range
kernel_loop-apply_range zero f k = refl
kernel_loop-apply_range (suc n) f k = kernel_loop-apply_range n (f + 1) (mark_kernel f k)

mark_page_at :
    (type last f g : ℕ) (k : Kpages)
    → mark_page type last (f * 4096) k g ≡ update k f (marked type last f (k f)) g
unfolding mark_page
mark_page_at type last f g k =
    let frame : f * 4096 / 4096 ≡ f = omega arith in
    rw frame (elim (Bool-cases (type == 1)) [
      | inl e ↦ rw e (elim (Bool-cases (not (k f).reserved && leb (f * 4096) last)) [
        | inl d ↦ rw d refl
        | inr d ↦ rw d (elim (Bool-cases (f == g)) [
          | inl h ↦ rw h (ap k (sym (==→eq f g h)))
          | inr h ↦ rw h refl
        ])
      ])
      | inr e ↦ rw (e, ==_refl f) refl
    ])

pub mark_loop-apply_range :
    (n type last f : ℕ) (k : Kpages)
    → (f + n) * 4096 < 2 ^ 64
    → mark_loop n type last (f * 4096) k ≡ apply_range (marked type last) n f k
unfolding mark_loop apply_range
mark_loop-apply_range zero type last f k l = refl
mark_loop-apply_range (suc n) type last f k l =
    let next : (f * 4096 + 4096) % 2 ^ 64 ≡ (f + 1) * 4096 = omega arith in
    rw next (
      ap (mark_loop n type last ((f + 1) * 4096)) (λ i g. mark_page_at type last f g k i)
      ∙ mark_loop-apply_range n type last (f + 1) (update k f (marked type last f (k f)))
          (omega arith))
