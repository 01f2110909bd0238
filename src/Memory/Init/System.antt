-- ===== src/Memory/Init/System.antt =====
-- memory.c, `mem_init`: the frames that it keeps whatever the memory map says.
use mathlib.Core.Path.{subst}
use xis.Prelude.{
  ℕ, ◌+◌, ◌-◌, ◌*◌, ◌/◌, ◌%◌, ◌^◌, ◌≡◌, inl, inr, refl, ap, sym, ◌∙◌, Bool, true, false, not, ◌&&◌,
  ◌||◌, ltb, leb, ◌==◌, if◌then◌else◌, arith, Bool-cases, ==→eq,
}
use xis.Memory.{Kpage, kpage_is_free}
use xis.Page32.{align_page}
use xis.Memory.Init.{Kpages, reserve, mark_kernel, reserve_loop, kernel_loop, mark_system}
use xis.Memory.Init.Marks.{
  apply_range_lem, as_reserved, as_kernel, reserve_loop-apply_range, kernel_loop-apply_range,
}

-- The frames that the kernel keeps for itself and for the BIOS: 0, 2, those of the code for the
-- other processors, and 512 KB up to 1 MB.
abbrev pub system : ℕ → ℕ → Bool
system init_ap_size f =
    f == 0
    || f == 2
    || leb 7 f && ltb (f * 4096) (align_page ((0x7c00 + init_ap_size) % 2 ^ 32))
    || leb 0x80 f && ltb f 0x100

-- What a mark leaves of a descriptor: it is not free, and in the same list.
abbrev pub Marked : Bool → Kpage → Kpage → Type 0
Marked c p q = (kpage_is_free q ≡ (not c && kpage_is_free p)) × (q.free_buddy ≡ p.free_buddy)

if_reserved : (c : Bool) (f : ℕ) (p : Kpage) → Marked c p (if c then as_reserved f p else p)
unfolding kpage_is_free
if_reserved true f p = (refl, refl)
if_reserved false f p = (refl, refl)

if_kernel : (c : Bool) (f : ℕ) (p : Kpage) → Marked c p (if c then as_kernel f p else p)
unfolding kpage_is_free
if_kernel true f p = (elim (Bool-cases p.reserved) [ inl e ↦ rw e refl | inr e ↦ rw e refl ], refl)
if_kernel false f p = (refl, refl)

reserve_loop-Marked :
    (n f g : ℕ) (k : Kpages) → Marked (leb f g && ltb g (f + n)) (k g) (reserve_loop n f k g)
reserve_loop-Marked n f g k =
    subst (Marked (leb f g && ltb g (f + n)) (k g))
      (sym (
        ap (λ (t : Kpages). t g) (reserve_loop-apply_range n f k)
        ∙ apply_range_lem as_reserved n f g k))
      (if_reserved (leb f g && ltb g (f + n)) g (k g))

kernel_loop-Marked :
    (n f g : ℕ) (k : Kpages) → Marked (leb f g && ltb g (f + n)) (k g) (kernel_loop n f k g)
kernel_loop-Marked n f g k =
    subst (Marked (leb f g && ltb g (f + n)) (k g))
      (sym (
        ap (λ (t : Kpages). t g) (kernel_loop-apply_range n f k)
        ∙ apply_range_lem as_kernel n f g k))
      (if_kernel (leb f g && ltb g (f + n)) g (k g))

one_kernel : (f g : ℕ) (k : Kpages) → Marked (f == g) (k g) (mark_kernel f k g)
one_kernel f g k = elim (Bool-cases (f == g)) [
  | inl e ↦ let same = ap k (==→eq f g e) in rw (e, same) (if_kernel true g (k g))
  | inr e ↦ rw e (if_kernel false g (k g))
]

one_reserved : (f g : ℕ) (k : Kpages) → Marked (f == g) (k g) (reserve f k g)
one_reserved f g k = elim (Bool-cases (f == g)) [
  | inl e ↦ let same = ap k (==→eq f g e) in rw (e, same) (if_reserved true g (k g))
  | inr e ↦ rw e (if_reserved false g (k g))
]

both-Marked : (c d : Bool) (p q r : Kpage) → Marked c p q → Marked d q r → Marked (d || c) p r
both-Marked c true p q r a b = (b.0, b.1 ∙ a.1)
both-Marked c false p q r a b = (b.0 ∙ a.0, b.1 ∙ a.1)

abbrev ap_pages : ℕ → ℕ
ap_pages init_ap_size = (align_page ((0x7c00 + init_ap_size) % 2 ^ 32) - 0x7000) / 4096

-- The marks in the order in which they are set, the last one first.
abbrev system_marks : ℕ → ℕ → Bool
system_marks n g =
    (leb 0xf0 g && ltb g 0x100)
    || ((leb 0xc8 g && ltb g 0xf0)
        || ((leb 0xc0 g && ltb g 0xc8)
            || ((leb 0xa0 g && ltb g 0xc0)
                || ((leb 0x80 g && ltb g 0xa0)
                    || ((0 == g) || ((leb 7 g && ltb g (7 + n)) || (2 == g)))))))

system_marks_lem :
    (init_ap_size g : ℕ) → system_marks (ap_pages init_ap_size) g ≡ system init_ap_size g
system_marks_lem init_ap_size g = ground arith

pub mark_system-Marked :
    (init_ap_size g : ℕ) (k : Kpages)
    → Marked (system init_ap_size g) (k g) (mark_system init_ap_size k g)
unfolding mark_system
mark_system-Marked init_ap_size g k =
    let n = ap_pages init_ap_size in
    let k1 = mark_kernel 2 k in
    let k2 = kernel_loop n 7 k1 in
    let k3 = reserve 0 k2 in
    let k4 = reserve_loop 32 0x80 k3 in
    let k5 = reserve_loop 32 0xa0 k4 in
    let k6 = reserve_loop 8 0xc0 k5 in
    let k7 = reserve_loop 40 0xc8 k6 in
    let on = λ (c d : Bool) (q r : Kpage). both-Marked c d (k g) q r in
    subst (λ c. Marked c (k g) (reserve_loop 16 0xf0 k7 g)) (system_marks_lem init_ap_size g)
      (on _ _ _ _
        (on _ _ _ _
          (on _ _ _ _
            (on _ _ _ _
              (on _ _ _ _
                (on _ _ _ _ (on _ _ _ _ (one_kernel 2 g k) (kernel_loop-Marked n 7 g k1))
                  (one_reserved 0 g k2))
                (reserve_loop-Marked 32 0x80 g k3))
              (reserve_loop-Marked 32 0xa0 g k4))
            (reserve_loop-Marked 8 0xc0 g k5))
          (reserve_loop-Marked 40 0xc8 g k6))
        (reserve_loop-Marked 16 0xf0 g k7))
