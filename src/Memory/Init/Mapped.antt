-- ===== src/Memory/Init/Mapped.antt =====
-- memory.c, `mem_init` as a whole: it returns, and with it the allocator is ready.
use xis.Prelude.{
  ℕ, zero, suc, ◌+◌, ◌-◌, ◌*◌, ◌%◌, ◌^◌, ◌≤◌, ◌<◌, ◌≡◌, ◌↔◌, inl, inr, refl, ap, ◌∙◌, true, false,
  Option, some, List, ◌∷◌, ltb, ◌==◌, if◌then◌else◌, arith, Bool-cases,
}
use xis.Memory.{Buddy}
use xis.Memory.Invariant.{IsValid, IsFree}
use xis.Page32.{Words, Layout, kernel_virt_addr, page_size}
use xis.Page32.Walk.{IsLayout, IsKernelDir}
use xis.Page32.Map.{map_kernel_lem, map_kernel_below}
use xis.Memory.Init.{
  E820Map, Sizes, sizes, shared_flags, ◌>>=◌, map_linear, map_ap, map_pages, last_kernel, mem_init,
  set_up_pages, clear_words, max_supported_memory, page_of, e820_loop, zero_kpage, describe,
}
use xis.Memory.Init.Map.{usable, IsSorted}
use xis.Memory.Init.System.{system}
use xis.Memory.Init.Inside.{e820_loop-inside, describe-inside}
use xis.Memory.Init.Usable.{set_up_pages_lem}

module _ (y : Layout) (cpu : ℕ) (lay : IsLayout y y.master_kernel_pg_dir) where
  abbrev Ready : Option Words → Type 0
  Ready r = (m' : Words) × (r ≡ some m') × IsKernelDir y y.master_kernel_pg_dir m'

  map_linear_lem :
      (v n : ℕ) (m : Words)
      → IsKernelDir y y.master_kernel_pg_dir m
      → kernel_virt_addr ≤ v
      → v + n + 8192 ≤ 2 ^ 32
      → Ready (map_linear y cpu v n m)
  map_linear_lem v n m k a b =
      let (m', ran, k', reads) =
        map_kernel_lem y cpu 3 shared_flags lay (omega arith) v
          ((v + 2 ^ 32 - kernel_virt_addr) % 2 ^ 32) n m k refl a b (omega arith) in
      (m', ran, k')

  -- Below the kernel's addresses nothing is mapped.
  map_ap_lem :
      (n addr : ℕ) (m : Words) → addr + n * 4096 ≤ kernel_virt_addr → map_ap n y cpu addr m ≡ some m
  unfolding map_ap
  map_ap_lem zero addr m h = refl
  map_ap_lem (suc n) addr m h =
      let below =
        map_kernel_below y cpu addr ((addr + 2 ^ 32 - kernel_virt_addr) % 2 ^ 32) page_size 3
          shared_flags m (omega arith) in
      ap (λ t. t >>= map_ap n y cpu (addr + page_size)) below
      ∙ map_ap_lem n (addr + 4096) m (omega arith)

  Ready-bind :
      (r : Option Words) (f : Words → Option Words)
      → Ready r
      → ((m : Words) → IsKernelDir y y.master_kernel_pg_dir m → Ready (f m))
      → Ready (r >>= f)
  Ready-bind r f (m, e, k) g = let (m', e', k') = g m k in (m', ap (λ t. t >>= f) e ∙ e', k')

  module _ (s : Sizes) (init_ap_size : ℕ) (small_ap : init_ap_size + 0x8c00 ≤ kernel_virt_addr)
      (tables_high : kernel_virt_addr ≤ s.end_kernel_mapped_memory)
      (tables_fit : s.end_kernel_mapped_memory + s.nr_pgtbls * page_size + 8192 ≤ 2 ^ 32)
      (pages_high : kernel_virt_addr ≤ s.kpages)
      (pages_fit : s.kpages + s.kpages_memory + 8192 ≤ 2 ^ 32) where
    map_pages_lem :
        (m : Words)
        → IsKernelDir y y.master_kernel_pg_dir m
        → Ready (map_pages y cpu s init_ap_size m)
    unfolding map_pages
    map_pages_lem m k = Ready-bind _ _ tables λ m1 k1.
        Ready-bind _ _
          (map_linear_lem s.kpages (s.kpages_memory % 2 ^ 32) m1 k1 pages_high (omega arith))
          λ m2 k2.
            Ready-bind _ _
              (map_linear_lem (kernel_virt_addr + 0x2000) page_size m2 k2 (omega arith)
                (omega arith))
              λ m3 k3. (m3, map_ap_lem _ 0x7000 m3 (omega arith), k3)
      where
        tables : Ready (
            if s.nr_pgtbls == 0
            then some m
            else map_linear y cpu s.end_kernel_mapped_memory (s.nr_pgtbls * page_size % 2 ^ 32) m)
        tables = elim (Bool-cases (s.nr_pgtbls == 0)) [
          | inl e ↦ rw e (m, refl, k)
          | inr e ↦ rw e (
              map_linear_lem s.end_kernel_mapped_memory (s.nr_pgtbls * page_size % 2 ^ 32) m k
                tables_high (omega arith))
        ]

  module _ (sizeof_kpage mapped init_ap_size : ℕ) (e : E820Map) (l : List E820Map) where
    abbrev pub size : Sizes
    size = sizes sizeof_kpage mapped e l

    -- The address that the memory map ends at.
    abbrev pub map_end : ℕ
    map_end = (e820_loop (e ∷ l) size.nr_kpages (last_kernel size) (page_of e) (λ _. zero_kpage)).1

    -- For a memory map from address 0 on that has a page, whose entries stand in order, share no
    -- page and lie within the `nr_kpages` frames that have descriptors, which are at least 1 MB and
    -- reach over the code for the other processors, with the page tables and the descriptors at kernel
    -- addresses 8 KB or more below 4 GB, code for the other processors that ends below the
    -- kernel's addresses, and a shared directory of the kernel apart from the tables: `mem_init`
    -- returns 0, the allocator is valid, and its free frames are exactly those of usable memory
    -- behind the kernel's data that are not kept for the kernel and the BIOS; the map ends within
    -- the `nr_kpages` frames, and no descriptor behind them is marked.
    pub mem_init_lem :
        (b : Buddy) (m : Words)
        → init_ap_size + 0x8c00 ≤ kernel_virt_addr
        → kernel_virt_addr ≤ size.end_kernel_mapped_memory
        → size.end_kernel_mapped_memory + size.nr_pgtbls * page_size + 8192 ≤ 2 ^ 32
        → kernel_virt_addr ≤ size.kpages
        → size.kpages + size.kpages_memory + 8192 ≤ 2 ^ 32
        → IsSorted size.nr_kpages e l
        → 0x100 ≤ size.nr_kpages
        → init_ap_size + 0x8c00 ≤ size.nr_kpages * 4096
        → e.base < 4096
        → 4096 ≤ map_end
        → IsKernelDir y y.master_kernel_pg_dir m
        → (b' : Buddy) × (m' : Words) × (mem_init y cpu sizeof_kpage mapped init_ap_size e l b m
            ≡ some (0, b', m'))
          × IsValid b'
          × ((f : ℕ)
              → IsFree b' f ↔ (
                  (f * 4096 < map_end)
                  × (usable (e ∷ l) f ≡ true)
                  × (last_kernel size < f * 4096)
                  × (system init_ap_size f ≡ false)))
          × (map_end ≤ size.nr_kpages * 4096)
          × ((f : ℕ)
              → size.nr_kpages ≤ f
              → (describe init_ap_size size.nr_kpages (last_kernel size) e l).0 f ≡ zero_kpage)
    unfolding mem_init
    mem_init_lem b m small high fit pages_high pages_fit sorted big ap_fits low some_pages k =
        let (m1, ran, k1) =
          map_pages_lem size init_ap_size small high fit pages_high pages_fit m k in
        let last = last_kernel size in
        let after = set_up_pages y.kernel_pg_table_0 init_ap_size size.nr_kpages last e l b m1 in
        let (valid, frames) =
          set_up_pages_lem y.kernel_pg_table_0 init_ap_size size.nr_kpages last e l sorted low b m1
            some_pages in
        let room : ltb max_supported_memory ((size.kpages + size.kpages_memory) % 2 ^ 64) ≡ false =
          ground arith in
        (
          after.0,
          clear_words 512 y.master_kernel_pg_dir after.1,
          rw (room, ran) refl,
          valid,
          frames,
          e820_loop-inside e l size.nr_kpages last (page_of e) (λ _. zero_kpage) sorted
              (omega arith),
          λ f behind.
              describe-inside init_ap_size size.nr_kpages last f e l sorted big ap_fits behind,
        )
