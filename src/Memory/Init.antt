-- ===== src/Memory/Init.antt =====
-- memory.c, `mem_init`: the page descriptors from the memory map, and the first free blocks.
use Prim.Native.Nat.{bit_or}
use xis.Prelude.Maps.{update}
use xis.Prelude.{
  ℕ, zero, suc, ◌+◌, ◌-◌, ◌*◌, ◌/◌, ◌%◌, ◌^◌, Bool, true, false, not, ◌&&◌, ◌||◌, Option, none,
  some, List, [], ◌∷◌, ltb, leb, ◌==◌, if◌then◌else◌,
}
use xis.Memory.{Kpage, Buddy, kpage_is_free, page_add_to_slot}
use xis.Page32.{
  Words, Layout, MapFlags, kernel_virt_addr, page_size, pgd_size, pte_present, pte_write,
  align_page, align_pgd, map_kernel_with_pagetable,
}
pub mod Frames
pub mod Marks
pub mod Map
pub mod Entries
pub mod System
pub mod Usable
pub mod Inside
pub mod Mapped
pub mod Clear
mod Tests

-- An entry of the memory map of the BIOS.
pub record E820Map : Type 0 where
  pub base : ℕ
  pub length : ℕ
  pub type : ℕ

-- The array of `nr_kpages` descriptors, from the index; the code does not check an index, and what
-- lies behind the array is other memory.
abbrev pub Kpages : Type 0
Kpages = ℕ → Kpage

abbrev pub max_supported_memory : ℕ
max_supported_memory = 2 ^ 32

abbrev pub zero_kpage : Kpage
zero_kpage = record {
  order = 0;
  reserved = false;
  kernel = false;
  free_buddy = false;
  free_sub = false;
  allocated = false;
  cache_metadata = false;
  cache = false;
  refcount = 0;
}

-- `flags |= KPAGE_FLAGS_RESERVED` and `flags |= KPAGE_FLAGS_KERNEL`.
abbrev pub reserve : ℕ → Kpages → Kpages
reserve f k = update k f (record (k f) { reserved = true })

abbrev pub mark_kernel : ℕ → Kpages → Kpages
mark_kernel f k = update k f (record (k f) { kernel = true })

-- `ALIGN_PAGE` and `& PAGE_MASK` on 64 bits.
abbrev pub align_page64 : ℕ → ℕ
align_page64 x = (x + 4095) % 2 ^ 64 / 4096 * 4096

abbrev pub page_of : E820Map → ℕ
page_of e = e.base / 4096 * 4096

-- A frame of an entry of the map; `last` is the physical address of the kernel's end.
pub mark_page : ℕ → ℕ → ℕ → Kpages → Kpages
mark_page type last addr k =
    let f = addr / 4096 in
    let k' = if type == 1 then k else reserve f k in
    if not (k' f).reserved && leb addr last then mark_kernel f k' else k'

pub mark_loop : ℕ → ℕ → ℕ → ℕ → Kpages → Kpages
mark_loop zero type last addr k = k
mark_loop (suc n) type last addr k =
    mark_loop n type last ((addr + page_size) % 2 ^ 64) (mark_page type last addr k)

pub reserve_loop : ℕ → ℕ → Kpages → Kpages
reserve_loop zero f k = k
reserve_loop (suc n) f k = reserve_loop n (f + 1) (reserve f k)

pub kernel_loop : ℕ → ℕ → Kpages → Kpages
kernel_loop zero f k = k
kernel_loop (suc n) f k = kernel_loop n (f + 1) (mark_kernel f k)

abbrev pub entry_pages : E820Map → ℕ
entry_pages e = (align_page64 ((e.base + e.length) % 2 ^ 64) + 2 ^ 64 - page_of e) % 2 ^ 64 / 4096

abbrev pub entry_end : E820Map → ℕ
entry_end e = (page_of e + entry_pages e * page_size) % 2 ^ 64

-- The pages between an entry and the next one.
abbrev pub gap_pages : ℕ → E820Map → ℕ
gap_pages addr next = (page_of next - addr) / 4096

-- The loop over the entries, with the address it has come to.
pub e820_loop : List E820Map → ℕ → ℕ → ℕ → Kpages → Kpages × ℕ
e820_loop [] nr_kpages last addr k = (k, addr)
e820_loop (e ∷ []) nr_kpages last addr k =
    if ltb (addr / 4096) nr_kpages
    then (mark_loop (entry_pages e) e.type last (page_of e) k, entry_end e)
    else (k, addr)
e820_loop (e ∷ next ∷ l) nr_kpages last addr k =
    let marked = mark_loop (entry_pages e) e.type last (page_of e) k in
    let gap = gap_pages (entry_end e) next in
    let rest =
      e820_loop (next ∷ l) nr_kpages last (entry_end e + gap * page_size)
        (reserve_loop gap (entry_end e / 4096) marked) in
    if ltb (addr / 4096) nr_kpages then rest else (k, addr)

-- BASE_WRITE_PAGE, the code for the other processors, and the areas of the BIOS and the display.
pub mark_system : ℕ → Kpages → Kpages
mark_system init_ap_size k =
    let ap_end = align_page ((0x7c00 + init_ap_size) % 2 ^ 32) in
    let ap = kernel_loop ((ap_end - 0x7000) / 4096) 7 (mark_kernel 2 k) in
    let ebda = reserve_loop 32 0x80 (reserve 0 ap) in
    let video_bios = reserve_loop 8 0xc0 (reserve_loop 32 0xa0 ebda) in
    reserve_loop 16 0xf0 (reserve_loop 40 0xc8 video_bios)

-- The last loop, from frame `p` on.
pub free_loop : ℕ → ℕ → ℕ → Buddy → Words → Buddy × Words
free_loop zero table p b m = (b, m)
free_loop (suc n) table p b m =
    let b' = record b { kpages = update b.kpages p (record (b.kpages p) { order = 0 }) } in
    let freed =
      free_loop n table (p + 1) (page_add_to_slot p (some p) b') (update m (table + 4 * p) 0) in
    let kept = free_loop n table (p + 1) b' m in if kpage_is_free (b'.kpages p) then freed else kept

-- `memset(p, 0, 4 * n)`.
pub clear_words : ℕ → ℕ → Words → Words
clear_words zero p m = m
clear_words (suc n) p m = clear_words n (p + 4) (update m p 0)

-- From the `memset` of the `nr_kpages` descriptors on: what they become, and the address that the
-- map ends at.
pub describe : ℕ → ℕ → ℕ → E820Map → List E820Map → Kpages × ℕ
describe init_ap_size nr_kpages last e l =
    let (marked, addr) = e820_loop (e ∷ l) nr_kpages last (page_of e) (λ _. zero_kpage) in
    (mark_system init_ap_size marked, addr)

-- The lists are made empty, and the free frames given to them.
pub set_up_pages : ℕ → ℕ → ℕ → ℕ → E820Map → List E820Map → Buddy → Words → Buddy × Words
set_up_pages table init_ap_size nr_kpages last e l b m =
    let (k, addr) = describe init_ap_size nr_kpages last e l in
    free_loop (addr / 4096) table 0
      (record b {
        kpages = k;
        kpage_last = addr / 4096 - 1;
        free_pages = λ _. [];
        free_pages_count = λ _. 0;
      })
      m

abbrev pub shared_flags : MapFlags
shared_flags = record { user = false; local_cpu = false; pgd_locked = false }

-- `map_kernel_linear_with_pagetable`, with the flags that `mem_init` gives it.
abbrev pub map_linear : Layout → ℕ → ℕ → ℕ → Words → Option Words
map_linear y cpu virt_addr length m =
    map_kernel_with_pagetable y cpu virt_addr ((virt_addr + 2 ^ 32 - kernel_virt_addr) % 2 ^ 32)
      length (bit_or pte_present pte_write) shared_flags m

infixl 5 ◌>>=◌
abbrev ◌>>=◌ : Option Words → (Words → Option Words) → Option Words
none >>= f = none
some m >>= f = f m

-- The pages of the code for the other processors, from `addr` on.
pub map_ap : ℕ → Layout → ℕ → ℕ → Words → Option Words
map_ap zero y cpu addr m = some m
map_ap (suc n) y cpu addr m = do
  m' ← map_linear y cpu addr page_size m
  map_ap n y cpu (addr + page_size) m'

-- The end of the memory that the map names.
pub total_memory : E820Map → List E820Map → ℕ
total_memory e [] = (e.base + e.length) % 2 ^ 64
total_memory e (next ∷ l) = total_memory next l

-- The numbers that `mem_init` computes first.
pub record Sizes : Type 0 where
  pub nr_pgtbls : ℕ
  pub nr_kpages : ℕ
  pub kpages_memory : ℕ
  pub end_kernel_mapped_memory : ℕ
  pub kpages : ℕ

-- `sizeof_kpage` is the size of `struct kpage`, `mapped` the linker's `_end_kernel_mapped_memory`.
pub sizes : ℕ → ℕ → E820Map → List E820Map → Sizes
sizes sizeof_kpage mapped e l =
    let total = total_memory e l in
    let effective = if ltb max_supported_memory total then max_supported_memory else total in
    let pgd_end = (effective + pgd_size - 1) / pgd_size * pgd_size in
    let nr_pgtbls = (pgd_end + 2 ^ 64 - align_pgd mapped) % 2 ^ 64 / pgd_size % 2 ^ 32 in
    let nr_kpages = align_page64 effective / 4096 in
    let end_mapped = (mapped + kernel_virt_addr) % 2 ^ 32 in
    record {
      nr_pgtbls = nr_pgtbls;
      nr_kpages = nr_kpages;
      kpages_memory = nr_kpages * sizeof_kpage % 2 ^ 64;
      end_kernel_mapped_memory = end_mapped;
      kpages = (end_mapped + nr_pgtbls * page_size) % 2 ^ 32;
    }

-- The mappings: the new page tables, the descriptors, the page at BASE_WRITE_PAGE, and the code
-- for the other processors.
pub map_pages : Layout → ℕ → Sizes → ℕ → Words → Option Words
map_pages y cpu s init_ap_size m =
    let ap_pages = (align_page ((0x7c00 + init_ap_size) % 2 ^ 32) - 0x7000) / 4096 in
    let tables =
      if s.nr_pgtbls == 0
      then some m
      else map_linear y cpu s.end_kernel_mapped_memory (s.nr_pgtbls * page_size % 2 ^ 32) m in
    do
      m1 ← tables
      m2 ← map_linear y cpu s.kpages (s.kpages_memory % 2 ^ 32) m1
      m3 ← map_linear y cpu (kernel_virt_addr + 0x2000) page_size m2
      map_ap ap_pages y cpu 0x7000 m3

abbrev pub end_kernel_data : Sizes → ℕ
end_kernel_data s = align_page ((s.kpages + s.kpages_memory) % 2 ^ 32)

-- `VIRT_TO_PHYS_ADDR_LINEAR` of it.
abbrev pub last_kernel : Sizes → ℕ
last_kernel s = (end_kernel_data s + 2 ^ 32 - kernel_virt_addr) % 2 ^ 32

-- The memory map has an entry. The messages are left out; the result is -1 or 0, with the allocator
-- and the tables.
pub mem_init :
    Layout → ℕ → ℕ → ℕ → ℕ → E820Map → List E820Map → Buddy → Words → Option (ℕ × Buddy × Words)
mem_init y cpu sizeof_kpage mapped init_ap_size e l b m =
    let s = sizes sizeof_kpage mapped e l in
    let done : Option (ℕ × Buddy × Words) = elim (map_pages y cpu s init_ap_size m) [
      | none ↦ none
      | some m' ↦
          let (b', m'') =
            set_up_pages y.kernel_pg_table_0 init_ap_size s.nr_kpages (last_kernel s) e l b m' in
          some (0, b', clear_words 512 y.master_kernel_pg_dir m'')
    ] in
    if ltb max_supported_memory ((s.kpages + s.kpages_memory) % 2 ^ 64)
    then some (2 ^ 32 - 1, b, m)
    else done
