-- ===== src/Page32/Map.antt =====
-- page32.c: `map_kernel_with_pagetable` as a change of what the processor reads.
use Prim.Native.Nat.{bit_or}
use xis.Prelude.BitOr.{bit_or-page, bit_or_odd}
use xis.Prelude.{
  ℕ, zero, suc, ◌+◌, ◌-◌, ◌*◌, ◌/◌, ◌%◌, ◌^◌, ◌≤◌, ◌<◌, ◌≡◌, ◌≢◌, refl, ap, ◌∙◌, Option, some, true,
  false, ◌==◌, ◌&&◌, ◌||◌, leb, ltb, if◌then◌else◌, arith, ne→==,
}
use xis.Page32.{
  Words, Layout, MapFlags, kernel_virt_addr, page_size, page_mask, align_page, pte_index, pgdir_of,
  kernel_pte, build_pagetable, map_loop, map_kernel_with_pagetable, all_pages,
}
use xis.Page32.Walk.{walk, IsLayout, IsKernelDir}
use xis.Page32.Build.{build_pagetable_page}
use xis.Page32.Slot.{table_of, page_entry, stored, stored-IsKernelDir, walk-stored}

-- What a mapping of `n` pages from `v` on to `p` makes of the reading of addresses.
abbrev pub mapped : ℕ → ℕ → ℕ → (ℕ → Option ℕ) → ℕ → Option ℕ
mapped n v p read u = if leb v u && ltb u (v + n * 4096) then some (p + (u - v)) else read u

mapped-suc :
    (n v p u : ℕ) (read1 read : ℕ → Option ℕ)
    → v % 4096 ≡ 0
    → read1 u ≡ (if u / 4096 == v / 4096 then some (p + u % 4096) else read u)
    → mapped n (v + 4096) (p + 4096) read1 u ≡ mapped (suc n) v p read u
mapped-suc n v p u read1 read c e = ground (arith, e)

pub map_kernel_below :
    (y : Layout) (cpu v p n pte_flags : ℕ) (flags : MapFlags) (m : Words)
    → v < kernel_virt_addr
    → map_kernel_with_pagetable y cpu v p n pte_flags flags m ≡ some m
unfolding map_kernel_with_pagetable
map_kernel_below y cpu v p n pte_flags flags m h =
    let low : ltb v kernel_virt_addr ≡ true = ground arith in rw low refl

module _ (y : Layout) (cpu pte_flags : ℕ) (flags : MapFlags)
    (lay : IsLayout y (pgdir_of y cpu flags)) (few : pte_flags < 4096) where
  abbrev pgdir : ℕ
  pgdir = pgdir_of y cpu flags

  -- A call for a page is one store.
  build_page :
      (v p : ℕ) (m : Words)
      → kernel_virt_addr ≤ v
      → v + page_size < 2 ^ 32
      → v % 4096 ≡ 0
      → build_pagetable 2 y cpu
          (λ _. page_mask (kernel_pte y v))
          p
          v
          page_size
          (bit_or 1 2)
          (bit_or pte_flags 1)
          flags
          m
        ≡ some (stored y pgdir v (bit_or p (bit_or pte_flags 1)) m)
  unfolding stored
  build_page v p m a b c =
      let table : page_mask (kernel_pte y v) ≡ y.kernel_pg_table_0 + 4096 * table_of v =
        omega (arith, lay.tables_aligned) in
      let index : kernel_pte y v ≡ y.kernel_pg_table_0 + 4096 * table_of v + 4 * pte_index v =
        omega arith in
      rw table (
        build_pagetable_page y cpu (λ _. y.kernel_pg_table_0 + 4096 * table_of v) v flags m p 3
          (bit_or pte_flags 1) b (omega (arith, lay.tables_aligned))
          (omega (arith, lay.tables_fit)))

  -- The entry written is present and has the frame of `p`.
  page_written :
      (p u : ℕ) → p % 4096 ≡ 0 → page_entry (bit_or p (bit_or pte_flags 1)) u ≡ some (p + u % 4096)
  page_written p u d =
      let small = bit_or-page pte_flags 1 (omega arith) in
      let frame = bit_or-page p (bit_or pte_flags 1) (omega (arith, small)) in
      let odd = bit_or_odd p (bit_or pte_flags 1) (bit_or_odd pte_flags 1 refl) in
      ground (arith, frame, odd)

  map_loop_step :
      (r v end p : ℕ) (m : Words)
      → kernel_virt_addr ≤ v
      → v + page_size < 2 ^ 32
      → v % 4096 ≡ 0
      → p + 4096 < 2 ^ 32
      → v ≢ end
      → map_loop (suc r) y cpu (kernel_pte y v) v end p pte_flags flags m
        ≡ map_loop r y cpu
            (kernel_pte y (v + 4096))
            (v + 4096)
            end
            (p + 4096)
            pte_flags
            flags
            (stored y pgdir v (bit_or p (bit_or pte_flags 1)) m)
  unfolding map_loop
  map_loop_step r v end p m a b c d n =
      let pte' : kernel_pte y v + 4 ≡ kernel_pte y (v + 4096) = omega arith in
      let v' : (v + 4096) % 2 ^ 32 ≡ v + 4096 = omega arith in
      let p' : (p + 4096) % 2 ^ 32 ≡ p + 4096 = omega arith in
      rw (ne→== v end n, build_page v p m a b c, pte', v', p') refl

  -- From the loop's entry for a page at `v`: some rounds map `n` pages from there.
  map_loop_lem :
      (n r v p : ℕ) (m : Words)
      → IsKernelDir y pgdir m
      → kernel_virt_addr ≤ v
      → v + n * 4096 < 2 ^ 32
      → v % 4096 ≡ 0
      → p % 4096 ≡ 0
      → p + n * 4096 < 2 ^ 32
      → n < r
      → (m' : Words) × (map_loop r y cpu (kernel_pte y v) v (v + n * 4096) p pte_flags flags m
          ≡ some m')
        × IsKernelDir y pgdir m'
        × ((u : ℕ)
            → kernel_virt_addr ≤ u
            → u < 2 ^ 32
            → walk m' pgdir u ≡ mapped n v p (walk m pgdir) u)
  unfolding map_loop
  map_loop_lem n zero v p m k a b c d e f = absurd (omega arith)
  map_loop_lem zero (suc r) v p m k a b c d e f =
      let done : (v == v + 0 * 4096) ≡ true = ground arith in
      (m, rw done refl, k, λ u l h. ground arith)
  map_loop_lem (suc n) (suc r) v p m k a b c d e f =
      let w = bit_or p (bit_or pte_flags 1) in
      let m1 = stored y pgdir v w m in
      let (m', ran, k', reads) =
        map_loop_lem n r (v + 4096) (p + 4096) m1
          (stored-IsKernelDir y pgdir lay v w a (omega arith) m k) (omega arith) (omega arith)
          (omega arith) (omega arith) (omega arith) (omega arith) in
      (
        m',
        map_loop_step r v (v + suc n * 4096) p m a (omega arith) c (omega arith) (λ x. omega arith)
            ∙ ap
                (λ t.
                  map_loop r y cpu (kernel_pte y (v + 4096)) (v + 4096) t (p + 4096) pte_flags flags
                    m1)
                {x = v + suc n * 4096} {y = v + 4096 + n * 4096} (omega arith)
            ∙ ran,
        k',
        λ u l h.
            reads u l h
            ∙ mapped-suc n v p u (walk m1 pgdir) (walk m pgdir) c (
                walk-stored y pgdir lay v w a (omega arith) m k u l h
                ∙ ap (λ t. if u / 4096 == v / 4096 then t else walk m pgdir u)
                    (page_written p u d)),
      )

  -- For a directory of the kernel that stands apart from the tables, kernel flags, table flags of
  -- 12 bits, a range that starts at a kernel address and ends 8 KB or more below 4 GB, and
  -- physical addresses that do so too: the mapping ends, the directory is one of the kernel
  -- again, and the processor reads the pages from the one of `virt_addr` to the last of the range
  -- at the pages from that of `phys_addr` on; every other kernel address reads as before.
  pub map_kernel_lem :
      (virt_addr phys_addr length : ℕ) (m : Words)
      → IsKernelDir y pgdir m
      → flags.user ≡ false
      → kernel_virt_addr ≤ virt_addr
      → virt_addr + length + 8192 ≤ 2 ^ 32
      → phys_addr + length + 8192 ≤ 2 ^ 32
      → let n = (virt_addr + length + 4095) / 4096 - virt_addr / 4096 in
        (m' : Words) × (map_kernel_with_pagetable y cpu virt_addr phys_addr length pte_flags flags m
          ≡ some m')
        × IsKernelDir y pgdir m'
        × ((u : ℕ)
            → kernel_virt_addr ≤ u
            → u < 2 ^ 32
            → walk m' pgdir u
              ≡ mapped n (page_mask virt_addr) (page_mask phys_addr) (walk m pgdir) u)
  unfolding map_kernel_with_pagetable
  map_kernel_lem virt_addr phys_addr length m k s a b c =
      let n = (virt_addr + length + 4095) / 4096 - virt_addr / 4096 in
      let v = page_mask virt_addr in
      let (m', ran, k', reads) =
        map_loop_lem n all_pages v (page_mask phys_addr) m k (omega arith) (omega arith)
          (omega arith) (omega arith) (omega arith) (omega arith) in
      let guard : (ltb virt_addr kernel_virt_addr || flags.user) ≡ false = ground arith in
      let loop = λ (end : ℕ).
        map_loop all_pages y cpu (kernel_pte y v) v end (page_mask phys_addr) pte_flags flags m in
      let end = align_page ((virt_addr + length) % 2 ^ 32) in
      (
        m',
        ap (λ g. if g then some m else loop end) guard
            ∙ ap loop {x = end} {y = v + n * 4096} (omega arith)
            ∙ ran,
        k',
        reads,
      )
