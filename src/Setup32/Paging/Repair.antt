-- ===== src/Setup32/Paging/Repair.antt =====
-- setup32.c, `trap_handler`: a page fault on an address that the shared directory maps is repaired.
use xis.Prelude.Maps.{update}
use xis.Prelude.{
  ℕ, ◌+◌, ◌^◌, ◌≤◌, ◌<◌, ◌≡◌, ◌≢◌, ◌⊎◌, inl, inr, refl, sym, ap, ◌∙◌, none, some, true, leb, ◌==◌,
  if◌then◌else◌, arith, Bool-cases, ne→==, ==→eq,
}
use xis.Page32.{Words, Layout, kernel_virt_addr, pgd_index, pte_index, get_cpu_pgdir}
use xis.Page32.Walk.{walk, IsLayout, IsLinked, IsKernelDir, directory_word, table_word}
use xis.Page32.Slot.{table_of, page_entry, words_apart, walk_linked, walk_lem}
use xis.Setup32.Paging.{resumed, trap_handler}

module _ (y : Layout) (cpu : ℕ) (lay : IsLayout y (get_cpu_pgdir y cpu))
    (lay' : IsLayout y y.master_kernel_pg_dir)
    (apart : (get_cpu_pgdir y cpu + 4096 ≤ y.master_kernel_pg_dir)
      ⊎ (y.master_kernel_pg_dir + 4096 ≤ get_cpu_pgdir y cpu))
    (m : Words) (linked : IsLinked y (get_cpu_pgdir y cpu) m)
    (master : IsKernelDir y y.master_kernel_pg_dir m) where
  abbrev local : ℕ
  local = get_cpu_pgdir y cpu

  abbrev shared : ℕ
  shared = y.master_kernel_pg_dir

  module _ (cr2 : ℕ) (low : kernel_virt_addr ≤ cr2) (high : cr2 < 2 ^ 32) where
    abbrev entry : ℕ
    entry = table_of cr2

    abbrev repaired : Words
    repaired = update m (directory_word local entry) (m (directory_word shared entry))

    -- A fault of the processor where the shared directory maps the address: only the processor's
    -- own entry is missing.
    entries :
        (p : ℕ)
        → walk m local cr2 ≡ none
        → walk m shared cr2 ≡ some p
        → (m (directory_word local entry) ≡ 0) × (m (directory_word shared entry) ≢ 0)
    entries p f g = (
      elim (Bool-cases (m (directory_word local entry) == 0)) [
        | inl e ↦ ==→eq (m (directory_word local entry)) 0 e
        | inr e ↦
            let reads = walk_linked y local lay m cr2 linked low high in
            let reads' = walk_lem y shared lay' m cr2 master low high in
            absurd (
              cc (
                sym f
                ∙ reads
                ∙ ap
                    (λ b.
                      if b then none else page_entry (m (table_word y entry (pte_index cr2))) cr2)
                    e
                ∙ sym reads'
                ∙ g))
      ],
      λ z.
          let reads = walk_linked y shared lay' m cr2 master.linked low high in
          absurd (
            cc (
              sym g
              ∙ reads
              ∙ ap
                  (λ t.
                    if t == 0
                    then none
                    else page_entry (m (table_word y entry (pte_index cr2))) cr2)
                  z)),
    )

    repaired_table :
        (i j : ℕ) → i < 512 → j < 1024 → repaired (table_word y i j) ≡ m (table_word y i j)
    repaired_table i j a b =
        rw
          (ne→== (directory_word local entry) (table_word y i j)
            (words_apart y local lay entry i j (omega arith) a b))
          refl

    repaired-shared :
        (i : ℕ) → i < 512 → repaired (directory_word shared i) ≡ m (directory_word shared i)
    repaired-shared i a =
        rw (ne→== (directory_word local entry) (directory_word shared i) (λ e. omega arith)) refl

    repaired-local :
        (i : ℕ)
        → i < 512
        → repaired (directory_word local i)
          ≡ (if i == entry then m (directory_word shared i) else m (directory_word local i))
    repaired-local i a = ground arith

    repaired-IsLinked : IsLinked y local repaired
    repaired-IsLinked i a = rw (repaired-local i a) (elim (Bool-cases (i == entry)) [
      | inl e ↦ rw e (master.linked i a)
      | inr e ↦ rw e (linked i a)
    ])

    repaired-IsKernelDir : IsKernelDir y shared repaired
    repaired-IsKernelDir = record {
      linked = λ i a. rw (repaired-shared i a) (master.linked i a);
      clean = λ i j a b z.
          rw (repaired_table i j a b) (master.clean i j a b (sym (repaired-shared i a) ∙ z));
    }

    walk-repaired :
        (u : ℕ)
        → kernel_virt_addr ≤ u
        → u < 2 ^ 32
        → m (directory_word shared entry) ≢ 0
        → walk repaired local u
          ≡ (if pgd_index u == pgd_index cr2 then walk m shared u else walk m local u)
    walk-repaired u a b n =
        let same : (pgd_index u == pgd_index cr2) ≡ (table_of u == entry) = ground arith in
        rw
          (
            walk_linked y local lay repaired u repaired-IsLinked a b,
            repaired-local (table_of u) (omega arith),
            repaired_table (table_of u) (pte_index u) (omega arith) (omega arith),
            same,
            walk_linked y local lay m u linked a b,
            walk_linked y shared lay' m u master.linked a b,
          )
          (elim (Bool-cases (table_of u == entry)) [ inl e ↦ rw e refl | inr e ↦ rw e refl ])

    -- For a directory of a processor that stands apart from the shared one, with entries that are
    -- 0 or point to the kernel's tables, and a shared directory of the kernel, both apart from
    -- the tables: a page fault of kernel code at a kernel address that the shared directory maps
    -- is repaired. The handler returns; the address, and all others of its table, read as in the
    -- shared directory and all other kernel addresses as before; and both directories are again
    -- as they were supposed to be.
    pub trap_handler-repairs :
        (eip p : ℕ)
        → kernel_virt_addr ≤ eip
        → walk m local cr2 ≡ none
        → walk m shared cr2 ≡ some p
        → (m' : Words) × (trap_handler y cpu 14 eip cr2 m ≡ resumed m')
          × (walk m' local cr2 ≡ some p)
          × ((u : ℕ)
              → kernel_virt_addr ≤ u
              → u < 2 ^ 32
              → walk m' local u
                ≡ (if pgd_index u == pgd_index cr2 then walk m shared u else walk m local u))
          × IsLinked y local m'
          × IsKernelDir y shared m'
    unfolding trap_handler
    trap_handler-repairs eip p k f g =
        let (absent, present) = entries p f g in
        let index : pgd_index cr2 ≡ 512 + entry = omega arith in
        let same : (pgd_index cr2 == pgd_index cr2) ≡ true = ground arith in
        let code : leb kernel_virt_addr eip ≡ true = ground arith in
        (
          repaired,
          rw (index, code, absent, ne→== (m (directory_word shared entry)) 0 present) refl,
          walk-repaired cr2 low high present ∙ rw same g,
          λ u a b. walk-repaired u a b present,
          repaired-IsLinked,
          repaired-IsKernelDir,
        )
