-- ===== src/Page32/Walk.antt =====
-- page32.c: how the processor reads the tables, and the state in which the kernel keeps them.
use xis.Prelude.{
  ℕ, ◌+◌, ◌*◌, ◌/◌, ◌%◌, ◌^◌, ◌≤◌, ◌<◌, ◌≡◌, ◌⊎◌, Option, none, some, ◌==◌, if◌then◌else◌,
}
use xis.Page32.{Words, Layout, kernel_virt_addr, pgd_index, pte_index}

-- The physical address of a virtual one, by the directory at `pgdir`; none is a page fault. A table
-- is read at its linear address.
unfoldable pub walk : Words → ℕ → ℕ → Option ℕ
walk m pgdir v =
    let e = m (pgdir + 4 * pgd_index v) in
    let t = m ((e / 4096 * 4096 + kernel_virt_addr) % 2 ^ 32 + 4 * pte_index v) in
    if e % 2 == 0 then none else if t % 2 == 0 then none else some (t / 4096 * 4096 + v % 4096)

-- The kernel's tables stand one after the other in a place above KERNEL_VIRT_ADDR, and a directory
-- of one page stands apart from them.
pub record IsLayout (y : Layout) (pgdir : ℕ) : Type 0 where
  pub tables_aligned : y.kernel_pg_table_0 % 4096 ≡ 0
  pub tables_high : kernel_virt_addr ≤ y.kernel_pg_table_0
  pub tables_fit : y.kernel_pg_table_0 + 2097152 ≤ 2 ^ 32
  pub apart : (pgdir + 4096 ≤ y.kernel_pg_table_0) ⊎ (y.kernel_pg_table_0 + 2097152 ≤ pgdir)

-- The entry of the directory for the kernel table `i`, and the word `j` of that table.
abbrev pub directory_word : ℕ → ℕ → ℕ
directory_word pgdir i = pgdir + 4 * (512 + i)

abbrev pub table_word : Layout → ℕ → ℕ → ℕ
table_word y i j = y.kernel_pg_table_0 + 4096 * i + 4 * j

-- An entry for a kernel table is 0, or it is present and points to the table.
abbrev pub IsLinked : Layout → ℕ → Words → Type 0
IsLinked y pgdir m =
    (i : ℕ)
    → i < 512
    → (m (directory_word pgdir i) ≡ 0)
      ⊎ ((m (directory_word pgdir i) % 2 ≡ 1)
          × (m (directory_word pgdir i) / 4096 * 4096 + kernel_virt_addr
              ≡ y.kernel_pg_table_0 + 4096 * i))

-- Where the entry is 0, the table maps nothing: the directory knows all that the kernel has mapped.
pub record IsKernelDir (y : Layout) (pgdir : ℕ) (m : Words) : Type 0 where
  pub linked : IsLinked y pgdir m
  pub clean :
      (i j : ℕ) → i < 512 → j < 1024 → m (directory_word pgdir i) ≡ 0 → m (table_word y i j) % 2 ≡ 0
