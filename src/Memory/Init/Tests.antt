-- ===== src/Memory/Init/Tests.antt =====
-- memory.c, `mem_init`: the theorem at a memory map of 8 MB.
use xis.Prelude.{ℕ, ◌*◌, ◌≤◌, ◌<◌, ◌≡◌, ◌↔◌, inl, refl, true, false, some, [], ◌∷◌, arith}
use xis.Memory.{Buddy}
use xis.Memory.Invariant.{IsValid, IsFree}
use xis.Page32.{Words, Layout}
use xis.Page32.Walk.{IsLayout, IsKernelDir}
use xis.Memory.Init.{E820Map, zero_kpage, mem_init, e820_loop, describe, sizes, total_memory}
use xis.Memory.Init.Map.{usable}
use xis.Memory.Init.System.{system}
use xis.Memory.Init.Mapped.{mem_init_lem}

-- The tables in the order of kernel32.ld.
abbrev linked_at : Layout
linked_at = record {
  master_kernel_pg_dir = 0x80200000;
  kernel_pg_dir = 0x80201000;
  kernel_pg_table_0 = 0x80221000;
}

linked_at-IsLayout : IsLayout linked_at linked_at.master_kernel_pg_dir
linked_at-IsLayout = record {
  tables_aligned = refl;
  tables_high = omega arith;
  tables_fit = omega arith;
  apart = inl (omega arith);
}

abbrev no_words : Words
no_words _ = 0

no_words-IsKernelDir : IsKernelDir linked_at linked_at.master_kernel_pg_dir no_words
no_words-IsKernelDir = record { linked = λ i l. inl refl; clean = λ i j l l' z. refl }

-- 640 KB and 7 MB of memory, with a gap.
abbrev low_memory : E820Map
low_memory = record { base = 0; length = 0xa0000; type = 1 }

abbrev high_memory : E820Map
high_memory = record { base = 0x100000; length = 0x700000; type = 1 }

abbrev before : Buddy
before = record {
  kpages = λ _. zero_kpage;
  kpage_last = 0;
  free_pages = λ _. [];
  free_pages_count = λ _. 0;
  screen = record { mem = λ _. 0; ptr = 0 };
}

mem_init_lem_example :
    (b : Buddy) × (m : Words) × (mem_init linked_at 0 28 0x400000 0x1000 low_memory
        (high_memory ∷ [])
        before
        no_words
      ≡ some (0, b, m))
    × IsValid b
    × ((f : ℕ)
        → IsFree b f ↔ (
            (f * 4096 < 0x800000)
            × (usable (low_memory ∷ high_memory ∷ []) f ≡ true)
            × (0x40f000 < f * 4096)
            × (system 0x1000 f ≡ false)))
    × (0x800000 ≤ 0x800 * 4096)
    × ((f : ℕ)
        → 0x800 ≤ f
        → (describe 0x1000 0x800 0x40f000 low_memory (high_memory ∷ [])).0 f ≡ zero_kpage)
unfolding e820_loop sizes total_memory
mem_init_lem_example =
    mem_init_lem linked_at 0 linked_at-IsLayout 28 0x400000 0x1000 low_memory (high_memory ∷ [])
      before no_words (omega arith) (omega arith) (omega arith) (omega arith) (omega arith)
      (
        (omega arith, omega arith, omega arith),
        omega arith,
        (omega arith, omega arith, omega arith),
      )
      (omega arith) (omega arith) (omega arith) (omega arith) no_words-IsKernelDir
