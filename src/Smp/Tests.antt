-- ===== src/Smp/Tests.antt =====
-- The theorems on smp.c at concrete processors.
use xis.Prelude.{
  ℕ, ◌+◌, ◌%◌, ◌^◌, ◌<◌, ◌≡◌, inl, inr, refl, true, false, some, [], ◌∷◌, if◌then◌else◌, arith,
}
use xis.Page32.{Layout}
use xis.Page32.Walk.{IsKernelDir}
use xis.Smp.{Smp, Image, Boot, smp_start}
use xis.Smp.Tables.{AreApart}
use xis.Smp.Count.{count_all, member, bit, count_all_lem}
use xis.Smp.Start.{FindsTables, FindsParameters, signals, smp_start_lem}

-- The tables in the order of kernel32.ld.
abbrev linked_at : Layout
linked_at = record {
  master_kernel_pg_dir = 0x80200000;
  kernel_pg_dir = 0x80201000;
  kernel_pg_table_0 = 0x80221000;
}

linked_at-AreApart : AreApart linked_at
linked_at-AreApart = record {
  shared = record {
    tables_aligned = refl;
    tables_high = omega arith;
    tables_fit = omega arith;
    apart = inl (omega arith);
  };
  local = λ i h. record {
    tables_aligned = refl;
    tables_high = omega arith;
    tables_fit = omega arith;
    apart = inl (omega arith);
  };
  apart = inr (omega arith);
}

abbrev image : Image
image = record {
  init_ap = 0x80100000;
  init_ap_size = 300;
  kernel_stack_0_start = 0x80500000;
  finish_smp_initialization = 0x80101000;
}

abbrev booted : Boot
booted = record { bytes = λ a. a % 256; words = λ _. 0; events = [] }

booted-IsKernelDir : IsKernelDir linked_at 0x80200000 booted.words
booted-IsKernelDir = record { linked = λ i l. inl refl; clean = λ i j l l' z. refl }

smp_start_lem_example :
    let s = smp_start linked_at image true 0xfee00000 booted in
    (smp_start linked_at image false 0xfee00000 booted ≡ booted)
    × ((j : ℕ) → j < 300 → s.bytes (0x80007c00 + j) ≡ (0x80100000 + j) % 256)
    × FindsParameters linked_at image 0xfee00000 s.words
    × ((k : ℕ) → 0 < k → k < 32 → FindsTables linked_at k booted.words s.words)
    × (s.events ≡ signals 0xfee00000)
smp_start_lem_example =
    smp_start_lem linked_at image 0xfee00000 booted linked_at-AreApart (omega arith) (omega arith)
      (omega arith) booted-IsKernelDir (inl (omega arith))

abbrev first : Smp
first = record { smp_bits = 1; smp_nums = 0; smp_on_hold = false }

count_all_lem_example :
    (s : Smp) × (count_all (3 ∷ 1 ∷ []) first ≡ some s)
    × (s.smp_nums ≡ (0 + 2) % 2 ^ 32)
    × ((k : ℕ) → bit s.smp_bits k ≡ (if member k (3 ∷ 1 ∷ []) then 1 else bit 1 k))
count_all_lem_example =
    count_all_lem (3 ∷ 1 ∷ []) first (omega arith, (omega arith, tt)) refl (omega arith)
