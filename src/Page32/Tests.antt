-- ===== src/Page32/Tests.antt =====
-- The theorems on page32.c at concrete tables.

use xis.Prelude.{ℕ, ◌-◌, ◌^◌, ◌≤◌, ◌<◌, ◌≡◌, ◌↔◌, inl, refl, false, some, arith}
use xis.Memory.{}
use xis.Page32.{
  Words, Layout, MapFlags, kernel_virt_addr, pgd_index, pgdir_of, map_kernel_with_pagetable,
  unmap_kernel_with_pagetable,
}
use xis.Page32.Walk.{walk, IsLayout, IsKernelDir}
use xis.Page32.Map.{mapped, map_kernel_lem}
use xis.Page32.Unmap.{unmapped, unmap_kernel_lem}
use xis.Page32.Locks.{pgd_lock, kernel, kernel_locks, pgd_lock_shared}
use xis.Page32.User.{}

-- The tables in the order of kernel32.ld.
abbrev linked_at : Layout
linked_at = record {
  master_kernel_pg_dir = 0x80200000;
  kernel_pg_dir = 0x80201000;
  kernel_pg_table_0 = 0x80221000;
}

abbrev shared : MapFlags
shared = record { user = false; local_cpu = false; pgd_locked = false }

linked_at-IsLayout : IsLayout linked_at (pgdir_of linked_at 0 shared)
linked_at-IsLayout = record {
  tables_aligned = refl;
  tables_high = omega arith;
  tables_fit = omega arith;
  apart = inl (omega arith);
}

abbrev no_words : Words
no_words _ = 0

no_words-IsKernelDir : IsKernelDir linked_at (pgdir_of linked_at 0 shared) no_words
no_words-IsKernelDir = record { linked = λ i l. inl refl; clean = λ i j l l' z. refl }

-- The local APIC's page is mapped to itself.
map_kernel_lem_example :
    (m : Words) × (map_kernel_with_pagetable linked_at 0 0xfee00000 0xfee00000 1024 2 shared
        no_words
      ≡ some m)
    × IsKernelDir linked_at (pgdir_of linked_at 0 shared) m
    × ((u : ℕ)
        → kernel_virt_addr ≤ u
        → u < 2 ^ 32
        → walk m (pgdir_of linked_at 0 shared) u
          ≡ mapped 1 0xfee00000 0xfee00000 (walk no_words (pgdir_of linked_at 0 shared)) u)
map_kernel_lem_example =
    map_kernel_lem linked_at 0 2 shared linked_at-IsLayout (omega arith) 0xfee00000 0xfee00000 1024
      no_words no_words-IsKernelDir refl (omega arith) (omega arith) (omega arith)

unmap_kernel_lem_example :
    (m : Words) × (unmap_kernel_with_pagetable linked_at 0 0xfee00000 1024 shared no_words ≡ some m)
    × IsKernelDir linked_at (pgdir_of linked_at 0 shared) m
    × ((u : ℕ)
        → kernel_virt_addr ≤ u
        → u < 2 ^ 32
        → walk m (pgdir_of linked_at 0 shared) u
          ≡ unmapped 1 0xfee00000 (walk no_words (pgdir_of linked_at 0 shared)) u)
unmap_kernel_lem_example =
    unmap_kernel_lem linked_at 0 shared linked_at-IsLayout 0xfee00000 1024 no_words
      no_words-IsKernelDir refl (omega arith) (omega arith)

pgd_lock_shared_example :
    (pgd_lock 0 0xfee00000 shared ≡ kernel (pgd_index 0xfee00000 - 512))
    × (pgd_index 0xfee00000 - 512 < kernel_locks)
    × ((pgd_lock 0 0xfee00000 shared ≡ pgd_lock 1 0xfec00000 shared)
        ↔ (pgd_index 0xfee00000 ≡ pgd_index 0xfec00000))
pgd_lock_shared_example =
    pgd_lock_shared 0 1 0xfee00000 0xfec00000 shared refl (omega arith) (omega arith) (omega arith)
      (omega arith)
