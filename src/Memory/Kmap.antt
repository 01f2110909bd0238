-- ===== src/Memory/Kmap.antt =====
-- memory.c: `page_alloc_kmap_linear`, over the page allocator and the page tables.
use Prim.Native.Nat.{bit_or}
use xis.Prelude.{
  ℕ, zero, suc, ◌+◌, ◌-◌, ◌*◌, ◌/◌, ◌%◌, ◌^◌, ◌≤◌, ◌<◌, ◌≡◌, ◌≢◌, ◌⊎◌, inl, inr, refl, ap, sym, ◌∙◌,
  Bool, true, false, ◌&&◌, Option, none, some, leb, ltb, ◌==◌, if◌then◌else◌, arith, ne→==, ==_refl,
}
use xis.Prelude.Maps.{update}
use xis.Memory.{Buddy, page_alloc}
use xis.Memory.Invariant.{IsValid}
use xis.Memory.Alloc.{Allocated}
use xis.Memory.Contract.{page_alloc-Allocated}
use xis.Memory.Init.{map_linear, clear_words, shared_flags}
use xis.Memory.Init.Clear.{clear_words-outside, clear_words_lem}
use xis.Page32.{Words, Layout, kernel_virt_addr, page_size, page_mask}
use xis.Page32.Walk.{walk, IsLayout, IsKernelDir, directory_word, table_word}
use xis.Page32.Slot.{table_of, walk_lem}
use xis.Page32.Map.{mapped, map_kernel_lem}
mod Tests

-- The pages from frame `p` on, mapped and cleared.
abbrev kmap : Layout → ℕ → ℕ → ℕ → Words → Option (ℕ × Words)
kmap y cpu size addr m = elim (map_linear y cpu addr size m) [
  | none ↦ none
  | some m' ↦ some (addr, clear_words (size / 4) addr m')
]

-- The address of the pages, or NULL as none; the allocator and the memory.
pub page_alloc_kmap_linear : Layout → ℕ → ℕ → Buddy → Words → Option (Option ℕ × Buddy × Words)
page_alloc_kmap_linear y cpu order b m =
    let (page, b') = page_alloc order b in
    elim page [
      | none ↦ some (none, b', m)
      | some p ↦
          elim (kmap y cpu (page_size * 2 ^ order) ((p * page_size + kernel_virt_addr) % 2 ^ 32)
            m) [ none ↦ none | some r ↦ some (some r.0, b', r.1) ]
    ]

-- A byte of the block, in the map that is made for it.
in_block :
    (p q j : ℕ) (read : ℕ → Option ℕ)
    → (p + q) * page_size + kernel_virt_addr + 8192 ≤ 2 ^ 32
    → j < page_size * q
    → let addr = p * page_size + kernel_virt_addr in
      mapped
        ((addr + page_size * q + 4095) / 4096 - addr / 4096)
        (page_mask addr)
        (page_mask ((addr + 2 ^ 32 - kernel_virt_addr) % 2 ^ 32))
        read
        (addr + j)
      ≡ some (p * page_size + j)
in_block p q j read fit l =
    let addr = p * page_size + kernel_virt_addr in
    let v = page_mask addr in
    let n = (addr + page_size * q + 4095) / 4096 - addr / 4096 in
    let inside : (leb v (addr + j) && ltb (addr + j) (v + n * 4096)) ≡ true = ground arith in
    let value : page_mask ((addr + 2 ^ 32 - kernel_virt_addr) % 2 ^ 32) + (addr + j - v)
        ≡ p * page_size + j =
      omega arith in
    ap
      (λ c.
        if c
        then some (page_mask ((addr + 2 ^ 32 - kernel_virt_addr) % 2 ^ 32) + (addr + j - v))
        else read (addr + j))
      inside
    ∙ ap some value

module _ (y : Layout) (cpu : ℕ) (lay : IsLayout y y.master_kernel_pg_dir) where
  abbrev shared : ℕ
  shared = y.master_kernel_pg_dir

  -- Words that are apart from the directory and from the tables do not matter to the processor.
  module _ (p n : ℕ) (dir : (p + 4 * n ≤ shared) ⊎ (shared + 4096 ≤ p))
      (tables : (p + 4 * n ≤ y.kernel_pg_table_0) ⊎ (y.kernel_pg_table_0 + 2097152 ≤ p)) (m : Words)
      (k : IsKernelDir y shared m) where
    abbrev cleared : Words
    cleared = clear_words n p m

    same_directory :
        (i : ℕ) → i < 512 → cleared (directory_word shared i) ≡ m (directory_word shared i)
    same_directory i a = clear_words-outside n p m (directory_word shared i) (omega arith)

    same_table : (i j : ℕ) → i < 512 → j < 1024 → cleared (table_word y i j) ≡ m (table_word y i j)
    same_table i j a b = clear_words-outside n p m (table_word y i j) (omega arith)

    clear_words-IsKernelDir : IsKernelDir y shared cleared
    clear_words-IsKernelDir = record {
      linked = λ i a. rw (same_directory i a) (k.linked i a);
      clean = λ i j a b z. rw (same_table i j a b) (k.clean i j a b (sym (same_directory i a) ∙ z));
    }

    walk-clear_words :
        (u : ℕ) → kernel_virt_addr ≤ u → u < 2 ^ 32 → walk cleared shared u ≡ walk m shared u
    walk-clear_words u a b =
        rw
          (
            walk_lem y shared lay cleared u clear_words-IsKernelDir a b,
            walk_lem y shared lay m u k a b,
            same_table (table_of u) (u / 4096 % 1024) (omega arith) (omega arith),
          )
          refl

  -- The linear address of a frame.
  abbrev pub address : ℕ → ℕ
  address p = p * page_size + kernel_virt_addr

  abbrev returned : Buddy → Option (ℕ × Words) → Option (Option ℕ × Buddy × Words)
  returned b' none = none
  returned b' (some r) = some (some r.0, b', r.1)

  abbrev cleared_at : ℕ → ℕ → Option Words → Option (ℕ × Words)
  cleared_at size addr none = none
  cleared_at size addr (some m') = some (addr, clear_words (size / 4) addr m')

  abbrev after : ℕ → Words → Option ℕ × Buddy → Option (Option ℕ × Buddy × Words)
  after order m t = elim t.0 [
    | none ↦ some (none, t.1, m)
    | some p ↦
        returned t.1
          (kmap y cpu (page_size * 2 ^ order) ((p * page_size + kernel_virt_addr) % 2 ^ 32) m)
  ]

  -- For a valid allocator and a directory of the kernel, with the frames below the end of the
  -- linear memory and apart from the directory and the tables: an allocation that finds frames
  -- returns their linear address; the block is allocated, every byte of it is mapped to its frame,
  -- its words are 0, and the directory is one of the kernel.
  pub page_alloc_kmap_linear_lem :
      (order p : ℕ) (b b' : Buddy) (m : Words)
      → IsValid b
      → page_alloc order b ≡ (some p, b')
      → IsKernelDir y shared m
      → (p + 2 ^ order) * page_size + kernel_virt_addr + 8192 ≤ 2 ^ 32
      → ((address p + page_size * 2 ^ order ≤ shared) ⊎ (shared + 4096 ≤ address p))
      → ((address p + page_size * 2 ^ order ≤ y.kernel_pg_table_0)
          ⊎ (y.kernel_pg_table_0 + 2097152 ≤ address p))
      → (m' : Words) × (page_alloc_kmap_linear y cpu order b m ≡ some (some (address p), b', m'))
        × Allocated order b p b'
        × ((j : ℕ)
            → j < page_size * 2 ^ order
            → walk m' shared (address p + j) ≡ some (p * page_size + j))
        × ((i : ℕ) → i < page_size * 2 ^ order / 4 → m' (address p + 4 * i) ≡ 0)
        × IsKernelDir y shared m'
  unfolding page_alloc_kmap_linear
  page_alloc_kmap_linear_lem order p b b' m v e k fit dir tables =
      let q = 2 ^ order in
      let addr = p * page_size + kernel_virt_addr in
      let size = page_size * q in
      let (m1, ran, k1, reads) =
        map_kernel_lem y cpu 3 shared_flags lay (omega arith) addr
          ((addr + 2 ^ 32 - kernel_virt_addr) % 2 ^ 32) size m k refl (omega arith) (omega arith)
          (omega arith) in
      let small : addr % 2 ^ 32 ≡ addr = omega arith in
      (
        clear_words (size / 4) addr m1,
        ap (after order m) e
            ∙ ap (λ t. returned b' (kmap y cpu size t m)) small
            ∙ ap (λ t. returned b' (cleared_at size addr t)) ran,
        page_alloc-Allocated order b v p b' e,
        λ j l.
            walk-clear_words addr (size / 4) (omega (arith, dir)) (omega (arith, tables)) m1 k1
              (addr + j) (omega arith) (omega arith)
            ∙ reads (addr + j) (omega arith) (omega arith)
            ∙ in_block p q j (walk m shared) fit l,
        λ i l. clear_words_lem (size / 4) addr i m1 l,
        clear_words-IsKernelDir addr (size / 4) (omega (arith, dir)) (omega (arith, tables)) m1 k1,
      )
