-- ===== src/Page32/Unmap.antt =====
-- page32.c: `unmap_kernel_with_pagetable` as a change of what the processor reads.
use xis.Prelude.{
  ℕ, zero, suc, ◌+◌, ◌-◌, ◌*◌, ◌/◌, ◌%◌, ◌^◌, ◌≤◌, ◌<◌, ◌≡◌, ◌≢◌, refl, ap, ◌∙◌, Option, none, some,
  true, false, ◌==◌, ◌&&◌, ◌||◌, leb, ltb, if◌then◌else◌, arith, ne→==,
}
use xis.Page32.{
  Words, Layout, MapFlags, kernel_virt_addr, page_size, pgd_size, page_mask, align_page, pgdir_of,
  kernel_pte, unmap_pagetable, unmap_kernel_loop, unmap_kernel_with_pagetable, all_pages,
}
use xis.Page32.Walk.{walk, IsLayout, IsKernelDir}
use xis.Page32.Build.{unmap_pagetable_page}
use xis.Page32.Slot.{table_of}
use xis.Page32.Clear.{cleared, cleared-IsKernelDir, walk-cleared}

-- What clearing `n` pages from `v` on makes of the reading of addresses.
abbrev pub unmapped : ℕ → ℕ → (ℕ → Option ℕ) → ℕ → Option ℕ
unmapped n v read u = if leb v u && ltb u (v + n * 4096) then none else read u

unmapped-suc :
    (n v u : ℕ) (read1 read : ℕ → Option ℕ)
    → v % 4096 ≡ 0
    → read1 u ≡ (if u / 4096 == v / 4096 then none else read u)
    → unmapped n (v + 4096) read1 u ≡ unmapped (suc n) v read u
unmapped-suc n v u read1 read c e = ground (arith, e)

module _ (y : Layout) (cpu : ℕ) (flags : MapFlags) (lay : IsLayout y (pgdir_of y cpu flags)) where
  abbrev pgdir : ℕ
  pgdir = pgdir_of y cpu flags

  unmap_page :
      (v : ℕ) (m : Words)
      → kernel_virt_addr ≤ v
      → v + pgd_size < 2 ^ 32
      → v % 4096 ≡ 0
      → unmap_pagetable 2 y cpu (λ _. page_mask (kernel_pte y v)) v page_size flags m
        ≡ some (cleared y pgdir v m)
  unfolding cleared
  unmap_page v m a b c =
      let table : page_mask (kernel_pte y v) ≡ y.kernel_pg_table_0 + 4096 * table_of v =
        omega (arith, lay.tables_aligned) in
      rw table (
        unmap_pagetable_page y cpu (λ _. y.kernel_pg_table_0 + 4096 * table_of v) v flags m b
          (omega (arith, lay.tables_aligned)) (omega (arith, lay.tables_fit)))

  unmap_step :
      (r v end : ℕ) (m : Words)
      → kernel_virt_addr ≤ v
      → v + pgd_size < 2 ^ 32
      → v % 4096 ≡ 0
      → v ≢ end
      → unmap_kernel_loop (suc r) y cpu (kernel_pte y v) v end flags m
        ≡ unmap_kernel_loop r y cpu
            (kernel_pte y (v + 4096))
            (v + 4096)
            end
            flags
            (cleared y pgdir v m)
  unfolding unmap_kernel_loop
  unmap_step r v end m a b c n =
      let pte' : kernel_pte y v + 4 ≡ kernel_pte y (v + 4096) = omega arith in
      let v' : (v + 4096) % 2 ^ 32 ≡ v + 4096 = omega arith in
      rw (ne→== v end n, unmap_page v m a b c, pte', v') refl

  unmap_kernel_loop_lem :
      (n r v : ℕ) (m : Words)
      → IsKernelDir y pgdir m
      → kernel_virt_addr ≤ v
      → v + n * 4096 + pgd_size ≤ 2 ^ 32
      → v % 4096 ≡ 0
      → n < r
      → (m' : Words) × (unmap_kernel_loop r y cpu (kernel_pte y v) v (v + n * 4096) flags m
          ≡ some m')
        × IsKernelDir y pgdir m'
        × ((u : ℕ)
            → kernel_virt_addr ≤ u
            → u < 2 ^ 32
            → walk m' pgdir u ≡ unmapped n v (walk m pgdir) u)
  unfolding unmap_kernel_loop
  unmap_kernel_loop_lem n zero v m k a b c f = absurd (omega arith)
  unmap_kernel_loop_lem zero (suc r) v m k a b c f =
      let done : (v == v + 0 * 4096) ≡ true = ground arith in
      (m, rw done refl, k, λ u l h. ground arith)
  unmap_kernel_loop_lem (suc n) (suc r) v m k a b c f =
      let m1 = cleared y pgdir v m in
      let (m', ran, k', reads) =
        unmap_kernel_loop_lem n r (v + 4096) m1
          (cleared-IsKernelDir y pgdir lay v a (omega arith) m k) (omega arith) (omega arith)
          (omega arith) (omega arith) in
      (
        m',
        unmap_step r v (v + suc n * 4096) m a (omega arith) c (λ x. omega arith)
            ∙ ap (λ t. unmap_kernel_loop r y cpu (kernel_pte y (v + 4096)) (v + 4096) t flags m1)
                {x = v + suc n * 4096} {y = v + 4096 + n * 4096} (omega arith)
            ∙ ran,
        k',
        λ u l h.
            reads u l h
            ∙ unmapped-suc n v u (walk m1 pgdir) (walk m pgdir) c
                (walk-cleared y pgdir lay v a (omega arith) m k u l h),
      )

  -- For a directory of the kernel that stands apart from the tables, kernel flags, and a range
  -- that starts at a kernel address and ends more than 4 MB below the end of the address space:
  -- the unmapping ends, the directory is one of the kernel again, and each page from the one of
  -- `virt_addr` to the last of the range is a page fault; every other kernel address reads as
  -- before.
  pub unmap_kernel_lem :
      (virt_addr length : ℕ) (m : Words)
      → IsKernelDir y pgdir m
      → flags.user ≡ false
      → kernel_virt_addr ≤ virt_addr
      → virt_addr + length + 4096 + pgd_size ≤ 2 ^ 32
      → let n = (virt_addr + length + 4095) / 4096 - virt_addr / 4096 in
        (m' : Words) × (unmap_kernel_with_pagetable y cpu virt_addr length flags m ≡ some m')
        × IsKernelDir y pgdir m'
        × ((u : ℕ)
            → kernel_virt_addr ≤ u
            → u < 2 ^ 32
            → walk m' pgdir u ≡ unmapped n (page_mask virt_addr) (walk m pgdir) u)
  unfolding unmap_kernel_with_pagetable
  unmap_kernel_lem virt_addr length m k s a b =
      let n = (virt_addr + length + 4095) / 4096 - virt_addr / 4096 in
      let v = page_mask virt_addr in
      let (m', ran, k', reads) =
        unmap_kernel_loop_lem n all_pages v m k (omega arith) (omega arith) (omega arith)
          (omega arith) in
      let guard : (ltb virt_addr kernel_virt_addr || flags.user) ≡ false = ground arith in
      let loop = λ (end : ℕ). unmap_kernel_loop all_pages y cpu (kernel_pte y v) v end flags m in
      let end = align_page ((virt_addr + length) % 2 ^ 32) in
      (
        m',
        ap (λ g. if g then some m else loop end) guard
            ∙ ap loop {x = end} {y = v + n * 4096} (omega arith)
            ∙ ran,
        k',
        reads,
      )
