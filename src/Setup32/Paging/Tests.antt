-- ===== src/Setup32/Paging/Tests.antt =====
-- The theorems on the page faults of setup32.c at concrete tables.
use xis.Prelude.Maps.{update}
use xis.Prelude.{
  ℕ, ◌^◌, ◌≤◌, ◌<◌, ◌≡◌, inl, inr, refl, some, ◌==◌, if◌then◌else◌, arith, Bool-cases, ==→eq,
}
use xis.Page32.{Words, Layout, kernel_virt_addr, pgd_index, get_cpu_pgdir}
use xis.Page32.Walk.{walk, IsLayout, IsLinked, IsKernelDir}
use xis.Setup32.Paging.{resumed, trap_handler, setup32_pgdir}
use xis.Setup32.Paging.Repair.{trap_handler-repairs}
use xis.Setup32.Paging.Copy.{setup32-copies}

-- The tables in the order of kernel32.ld.
abbrev linked_at : Layout
linked_at = record {
  master_kernel_pg_dir = 0x80200000;
  kernel_pg_dir = 0x80201000;
  kernel_pg_table_0 = 0x80221000;
}

abbrev local : ℕ
local = get_cpu_pgdir linked_at 1

abbrev shared : ℕ
shared = linked_at.master_kernel_pg_dir

local-IsLayout : IsLayout linked_at local
local-IsLayout = record {
  tables_aligned = refl;
  tables_high = omega arith;
  tables_fit = omega arith;
  apart = inl (omega arith);
}

shared-IsLayout : IsLayout linked_at shared
shared-IsLayout = record {
  tables_aligned = refl;
  tables_high = omega arith;
  tables_fit = omega arith;
  apart = inl (omega arith);
}

-- The shared directory maps the page of the local APIC to itself, the one of processor 1 nothing.
abbrev words : Words
words = update (update (λ _. 0) 0x80200fec 0x0041c003) 0x8041c800 0xfee00003

words-IsLinked : IsLinked linked_at local words
words-IsLinked i l = inl (ground arith)

words-IsKernelDir : IsKernelDir linked_at shared words
words-IsKernelDir = record {
  linked = λ i l. elim (Bool-cases (i == 507)) [
    | inl e ↦ rw (==→eq i 507 e) (inr (refl, refl))
    | inr e ↦ inl (ground arith)
  ];
  clean = λ i j l l' z. ground arith;
}

trap_handler-repairs_example :
    (m : Words) × (trap_handler linked_at 1 14 0x80101234 0xfee00010 words ≡ resumed m)
    × (walk m local 0xfee00010 ≡ some 0xfee00010)
    × ((u : ℕ)
        → kernel_virt_addr ≤ u
        → u < 2 ^ 32
        → walk m local u ≡ (
            if pgd_index u == pgd_index 0xfee00010
            then walk words shared u
            else walk words local u))
    × IsLinked linked_at local m
    × IsKernelDir linked_at shared m
unfolding walk
trap_handler-repairs_example =
    trap_handler-repairs linked_at 1 local-IsLayout shared-IsLayout (inr (omega arith)) words
      words-IsLinked words-IsKernelDir 0xfee00010 (omega arith) (omega arith) 0x80101234 0xfee00010
      (omega arith) refl refl

setup32-copies_example :
    let m = setup32_pgdir linked_at 1 words in
    IsLinked linked_at local m
    × IsKernelDir linked_at shared m
    × ((u : ℕ) → kernel_virt_addr ≤ u → u < 2 ^ 32 → walk m local u ≡ walk words shared u)
setup32-copies_example =
    setup32-copies linked_at 1 local-IsLayout shared-IsLayout (inr (omega arith)) words
      words-IsKernelDir
