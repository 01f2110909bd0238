-- ===== src/Memory/Init/Inside.antt =====
-- memory.c, `mem_init`: the descriptors that are written are those of the array.
use xis.Prelude.{
  ℕ, ◌+◌, ◌-◌, ◌*◌, ◌/◌, ◌%◌, ◌^◌, ◌≤◌, ◌<◌, ◌≡◌, ◌⊎◌, inl, inr, refl, ap, ◌∙◌, false, List, [],
  ◌∷◌, ◌&&◌, leb, ltb, arith, Bool-cases, ne→==,
}
use xis.Page32.{align_page}
use xis.Memory.Init.{
  E820Map, Kpages, zero_kpage, page_of, reserve, mark_kernel, reserve_loop, kernel_loop, e820_loop,
  mark_system, describe,
}
use xis.Memory.Init.Marks.{
  apply_range_lem, as_reserved, as_kernel, reserve_loop-apply_range, kernel_loop-apply_range,
}
use xis.Memory.Init.Map.{IsSorted}
use xis.Memory.Init.Entries.{e820_loop_lem}

-- The first entry starts within the array.
e820_base : (nr : ℕ) (e : E820Map) (l : List E820Map) → IsSorted nr e l → page_of e ≤ nr * 4096
e820_base nr e [] s = omega (arith, s.1)
e820_base nr e (next ∷ l) s = omega (arith, s.0.1)

pub e820_loop-inside :
    (e : E820Map) (l : List E820Map) (nr last addr : ℕ) (k : Kpages)
    → IsSorted nr e l
    → addr ≤ nr * 4096
    → (e820_loop (e ∷ l) nr last addr k).1 ≤ nr * 4096
unfolding e820_loop
e820_loop-inside e [] nr last addr k s h = elim (Bool-cases (ltb (addr / 4096) nr)) [
  | inl a ↦ rw a s.2
  | inr a ↦ rw a h
]
e820_loop-inside e (next ∷ l) nr last addr k s h = elim (Bool-cases (ltb (addr / 4096) nr)) [
  | inl a ↦ rw a (
      e820_loop-inside next l nr last _ _ s.2
        (omega (arith, s.0.1, s.0.2, s.1, e820_base nr next l s.2)))
  | inr a ↦ rw a h
]

reserve_loop-outside : (n f g : ℕ) (k : Kpages) → (g < f) ⊎ (f + n ≤ g) → reserve_loop n f k g ≡ k g
reserve_loop-outside n f g k o =
    let out : (leb f g && ltb g (f + n)) ≡ false = ground arith in
    ap (λ (t : Kpages). t g) (reserve_loop-apply_range n f k)
    ∙ apply_range_lem as_reserved n f g k
    ∙ rw out refl

kernel_loop-outside : (n f g : ℕ) (k : Kpages) → (g < f) ⊎ (f + n ≤ g) → kernel_loop n f k g ≡ k g
kernel_loop-outside n f g k o =
    let out : (leb f g && ltb g (f + n)) ≡ false = ground arith in
    ap (λ (t : Kpages). t g) (kernel_loop-apply_range n f k)
    ∙ apply_range_lem as_kernel n f g k
    ∙ rw out refl

mark_system-outside :
    (init_ap_size g : ℕ) (k : Kpages)
    → 0x100 ≤ g
    → init_ap_size + 0x8c00 ≤ g * 4096
    → mark_system init_ap_size k g ≡ k g
unfolding mark_system
mark_system-outside init_ap_size g k big h =
    let n = (align_page ((0x7c00 + init_ap_size) % 2 ^ 32) - 0x7000) / 4096 in
    let k1 = mark_kernel 2 k in
    let k2 = kernel_loop n 7 k1 in
    let k3 = reserve 0 k2 in
    let k4 = reserve_loop 32 0x80 k3 in
    let k5 = reserve_loop 32 0xa0 k4 in
    let k6 = reserve_loop 8 0xc0 k5 in
    let k7 = reserve_loop 40 0xc8 k6 in
    reserve_loop-outside 16 0xf0 g k7 (inr (omega arith))
    ∙ reserve_loop-outside 40 0xc8 g k6 (inr (omega arith))
    ∙ reserve_loop-outside 8 0xc0 g k5 (inr (omega arith))
    ∙ reserve_loop-outside 32 0xa0 g k4 (inr (omega arith))
    ∙ reserve_loop-outside 32 0x80 g k3 (inr (omega arith))
    ∙ rw (ne→== 0 g (λ e. omega arith)) refl
    ∙ kernel_loop-outside n 7 g k1 (inr (omega arith))
    ∙ rw (ne→== 2 g (λ e. omega arith)) refl

-- Behind the array no descriptor is written.
pub describe-inside :
    (init_ap_size nr last g : ℕ) (e : E820Map) (l : List E820Map)
    → IsSorted nr e l
    → 0x100 ≤ nr
    → init_ap_size + 0x8c00 ≤ nr * 4096
    → nr ≤ g
    → (describe init_ap_size nr last e l).0 g ≡ zero_kpage
unfolding describe
describe-inside init_ap_size nr last g e l s big ap_fits behind =
    let (marked, addr) = e820_loop (e ∷ l) nr last (page_of e) (λ _. zero_kpage) in
    let start : page_of e ≤ nr * 4096 = e820_base nr e l s in
    let end = e820_loop-inside e l nr last (page_of e) (λ _. zero_kpage) s start in
    let d = e820_loop_lem nr last e l (λ _. zero_kpage) s (λ f _. (refl, refl)) in
    let out : (leb (page_of e) (g * 4096) && ltb (g * 4096) addr) ≡ false = ground (arith, end) in
    mark_system-outside init_ap_size g marked (omega arith) (omega arith) ∙ d.frames g ∙ rw out refl
