-- ===== src/Page32/Build.antt =====
-- page32.c: `build_pagetable` and `unmap_pagetable` for one page, as their callers use them.
use Prim.Native.Nat.{bit_or}
use xis.Prelude.Maps.{update}
use xis.Prelude.{
  ℕ, suc, ◌+◌, ◌-◌, ◌*◌, ◌/◌, ◌%◌, ◌^◌, ◌≤◌, ◌<◌, ◌≡◌, ◌≢◌, refl, ◌∙◌, some, true, false, ltb, ◌==◌,
  if◌then◌else◌, arith, ne→==, Bool-cases, inl, inr,
}
use xis.Page32.{
  Words, Layout, MapFlags, Cursor, page_size, pgd_size, pgd_index, pte_index, pgdir_of, set_pgd,
  first_cursor, next_page, table_end, build_loop, build_pagetable, unmap_loop, unmap_pagetable,
}

module _ (pgtable : ℕ → ℕ) (end : ℕ) where
  build_loop-end :
      (n pf tf : ℕ) (c : Cursor) (m : Words)
      → end ≤ c.start
      → build_loop (suc n) pgtable end pf tf c m ≡ some m
  unfolding build_loop
  build_loop-end n pf tf c m h = let e : ltb c.start end ≡ false = ground arith in rw e refl

  build_loop-page :
      (n pf tf : ℕ) (c : Cursor) (m : Words)
      → c.start < end
      → c.pte ≢ c.last_pte
      → build_loop (suc n) pgtable end pf tf c m
        ≡ build_loop n pgtable end pf tf (next_page c) (update m c.pte (bit_or c.phys_addr tf))
  unfolding build_loop
  build_loop-page n pf tf c m h t =
      let e : ltb c.start end ≡ true = ground arith in rw (e, ne→== c.pte c.last_pte t) refl

  unmap_loop-end :
      (n : ℕ) (c : Cursor) (m : Words) → end ≤ c.start → unmap_loop (suc n) pgtable end c m ≡ some m
  unfolding unmap_loop
  unmap_loop-end n c m h = let e : ltb c.start end ≡ false = ground arith in rw e refl

  unmap_loop-page :
      (n : ℕ) (c : Cursor) (m : Words)
      → c.start < end
      → c.pte ≢ c.last_pte
      → unmap_loop (suc n) pgtable end c m
        ≡ unmap_loop n pgtable end (next_page c) (update m c.pte 0)
  unfolding unmap_loop
  unmap_loop-page n c m h t =
      let e : ltb c.start end ≡ true = ground arith in rw (e, ne→== c.pte c.last_pte t) refl

module _ (y : Layout) (cpuid : ℕ) (pgtable : ℕ → ℕ) (start : ℕ) (flags : MapFlags) (m : Words) where
  -- The first table's end is not where the entry is, as a table is a page.
  inside_table :
      pgtable 0 % 4096 ≡ 0
      → pgtable 0 + 4096 ≤ 2 ^ 32
      → pgtable 0 + 4 * pte_index start ≢ table_end (pgtable 0 + 4 * pte_index start)
  inside_table a b e = omega arith

  -- For one page, but not the last of the address space, and a table that is a page: the entry of
  -- the directory is set and the page's entry in the table is written, in two rounds.
  pub build_pagetable_page :
      (phys_addr pgd_flags pte_flags : ℕ)
      → start + page_size < 2 ^ 32
      → pgtable 0 % 4096 ≡ 0
      → pgtable 0 + 4096 ≤ 2 ^ 32
      → build_pagetable 2 y cpuid pgtable phys_addr start page_size pgd_flags pte_flags flags m
        ≡ some (
            update
              (set_pgd (pgdir_of y cpuid flags + 4 * pgd_index start) (pgtable 0) pgd_flags m)
              (pgtable 0 + 4 * pte_index start)
              (bit_or phys_addr pte_flags))
  unfolding build_pagetable
  build_pagetable_page phys_addr pgd_flags pte_flags l a b =
      let pgdir = pgdir_of y cpuid flags in
      let c = first_cursor pgdir pgtable phys_addr start in
      let end = (start + page_size) % 2 ^ 32 in
      let m' = set_pgd c.pgd (pgtable 0) pgd_flags m in
      build_loop-page pgtable end 1 pgd_flags pte_flags c m' (omega arith) (inside_table a b)
      ∙ build_loop-end pgtable end 0 pgd_flags pte_flags (next_page c)
          (update m' c.pte (bit_or phys_addr pte_flags)) (omega arith)

  -- The last page of the address space is not mapped: the end of the range is 0, and the loop is
  -- left at once.
  build_pagetable_last :
      (n phys_addr pgd_flags pte_flags : ℕ)
      → start ≡ 2 ^ 32 - page_size
      → build_pagetable
          (suc n)
          y
          cpuid
          pgtable
          phys_addr
          start
          page_size
          pgd_flags
          pte_flags
          flags
          m
        ≡ some (set_pgd (pgdir_of y cpuid flags + 4 * pgd_index start) (pgtable 0) pgd_flags m)
  unfolding build_pagetable
  build_pagetable_last n phys_addr pgd_flags pte_flags e =
      let c = first_cursor (pgdir_of y cpuid flags) pgtable phys_addr start in
      build_loop-end pgtable ((start + page_size) % 2 ^ 32) n pgd_flags pte_flags c
        (set_pgd c.pgd (pgtable 0) pgd_flags m) (omega arith)

  -- For one page below the last 4 MB of the address space: the page's entry in the table is
  -- cleared when the entry of the directory is not 0, and else nothing is written.
  pub unmap_pagetable_page :
      start + pgd_size < 2 ^ 32
      → pgtable 0 % 4096 ≡ 0
      → pgtable 0 + 4096 < 2 ^ 32
      → unmap_pagetable 2 y cpuid pgtable start page_size flags m
        ≡ some (
            if m (pgdir_of y cpuid flags + 4 * pgd_index start) == 0
            then m
            else update m (pgtable 0 + 4 * pte_index start) 0)
  unfolding unmap_pagetable
  unmap_pagetable_page l a b =
      let pgdir = pgdir_of y cpuid flags in
      let c = first_cursor pgdir pgtable 0 start in
      let end = (start + page_size) % 2 ^ 32 in
      let past = record c {
        start = (start + (c.last_pte - c.pte) / 4 * page_size) % 2 ^ 32;
        pte = c.last_pte;
      } in
      elim (Bool-cases (m (pgdir + 4 * pgd_index start) == 0)) [
        | inl e ↦ rw e (unmap_loop-end pgtable end 1 past m (omega arith))
        | inr e ↦ rw e (
            unmap_loop-page pgtable end 1 c m (omega arith) (inside_table a (omega arith))
            ∙ unmap_loop-end pgtable end 0 (next_page c) (update m c.pte 0) (omega arith))
      ]
