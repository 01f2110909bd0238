-- ===== src/Memory/Kmap/Tests.antt =====
-- memory.c, `page_alloc_kmap_linear`: the theorem at a memory with a free block of four frames.
use xis.Prelude.{
  ℕ, ◌+◌, ◌*◌, ◌<◌, ◌≡◌, inl, inr, refl, Bool, true, false, some, [], ◌∷◌, ◌==◌, if◌then◌else◌,
  arith,
}
use xis.Memory.{Kpage, Buddy, page_alloc, report, alloc_loop, last_of}
use xis.Memory.Invariant.{IsValid}
use xis.Memory.Alloc.{Allocated}
use xis.Memory.Kmap.{page_alloc_kmap_linear, page_alloc_kmap_linear_lem}
use xis.Page32.{Words, Layout}
use xis.Page32.Walk.{walk, IsLayout, IsKernelDir}

abbrev page : ℕ → Bool → Kpage
page o free = record {
  order = o;
  reserved = false;
  kernel = false;
  free_buddy = free;
  free_sub = false;
  allocated = false;
  cache_metadata = false;
  cache = false;
  refcount = 0;
}

-- Of the frames below 1032 the last four are a free block.
abbrev four_free : Buddy
four_free = record {
  kpages = λ p. if p == 1028 then page 2 true else page 0 false;
  kpage_last = 1031;
  free_pages = λ o. if o == 2 then 1028 ∷ [] else [];
  free_pages_count = λ o. if o == 2 then 1 else 0;
  screen = record { mem = λ _. 0; ptr = 0 };
}

four_free-IsValid : IsValid four_free
four_free-IsValid = record {
  bounded = λ p h. ground arith;
  aligned = λ p h. (257, ground arith);
  inside = λ p h. ground arith;
  apart = λ p q hp hq n. ground arith;
  listed = λ p o. ground arith;
  distinct = λ o. ground arith;
  counted = λ o. ground arith;
}

abbrev linked_at : Layout
linked_at = record {
  master_kernel_pg_dir = 0x80200000;
  kernel_pg_dir = 0x80201000;
  kernel_pg_table_0 = 0x80500000;
}

linked_at-IsLayout : IsLayout linked_at linked_at.master_kernel_pg_dir
linked_at-IsLayout = record {
  tables_aligned = refl;
  tables_high = omega arith;
  tables_fit = omega arith;
  apart = inl (omega arith);
}

abbrev no_words : Words
no_words _ = 0

no_words-IsKernelDir : IsKernelDir linked_at linked_at.master_kernel_pg_dir no_words
no_words-IsKernelDir = record { linked = λ i l. inl refl; clean = λ i j l l' z. refl }

-- Two frames of the block, at 0x404000.
page_alloc_kmap_linear_lem_example :
    (m : Words) × (page_alloc_kmap_linear linked_at 0 1 four_free no_words
      ≡ some (some 0x80404000, (page_alloc 1 four_free).1, m))
    × Allocated 1 four_free 1028 (page_alloc 1 four_free).1
    × ((j : ℕ) → j < 8192 → walk m 0x80200000 (0x80404000 + j) ≡ some (0x404000 + j))
    × ((i : ℕ) → i < 2048 → m (0x80404000 + 4 * i) ≡ 0)
    × IsKernelDir linked_at 0x80200000 m
unfolding page_alloc report alloc_loop last_of
page_alloc_kmap_linear_lem_example =
    page_alloc_kmap_linear_lem linked_at 0 linked_at-IsLayout 1 1028 four_free
      (page_alloc 1 four_free).1 no_words four_free-IsValid refl no_words-IsKernelDir (omega arith)
      (inr (omega arith)) (inl (omega arith))
