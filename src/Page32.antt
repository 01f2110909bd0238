-- ===== src/Page32.antt =====
-- page32.c and page32.h: the page tables of two levels, over a memory of words.
use Prim.Native.Nat.{bit_and, bit_or, bit_xor}
use xis.Prelude.Maps.{update}
use xis.Prelude.{
  ℕ, zero, suc, ◌+◌, ◌-◌, ◌*◌, ◌/◌, ◌%◌, ◌^◌, Bool, ◌&&◌, ◌||◌, Option, none, some, ltb, ◌==◌,
  if◌then◌else◌,
}
pub mod Walk
pub mod Build
pub mod Slot
pub mod Clear
pub mod Map
pub mod Unmap
pub mod Locks
pub mod Share
pub mod User
mod Tests

abbrev pub page_size : ℕ
page_size = 4096

abbrev pub pgd_size : ℕ
pgd_size = 4194304

abbrev pub kernel_virt_addr : ℕ
kernel_virt_addr = 0x80000000

abbrev pub pgd_flag_mask : ℕ
pgd_flag_mask = 0x1fff

abbrev pub pgd_present : ℕ
pgd_present = 1

abbrev pub pgd_write : ℕ
pgd_write = 2

abbrev pub pgd_user : ℕ
pgd_user = 4

abbrev pub pte_present : ℕ
pte_present = 1

abbrev pub pte_write : ℕ
pte_write = 2

abbrev pub pte_user : ℕ
pte_user = 4

-- `x & PAGE_MASK`, `ALIGN_PAGE` and `ALIGN_PGD` on 32 bits.
abbrev pub page_mask : ℕ → ℕ
page_mask x = x / 4096 * 4096

abbrev pub align_page : ℕ → ℕ
align_page x = (x + 4095) % 2 ^ 32 / 4096 * 4096

abbrev pub align_pgd : ℕ → ℕ
align_pgd x = (x + 4194303) % 2 ^ 32 / 4194304 * 4194304

-- The indices of an address into the directory and into a table.
abbrev pub pgd_index : ℕ → ℕ
pgd_index v = v / 4194304 % 1024

abbrev pub pte_index : ℕ → ℕ
pte_index v = v / 4096 % 1024

-- The words of the memory, by their address; a pointer to a word is its address.
abbrev pub Words : Type 0
Words = ℕ → ℕ

-- The addresses that the linker gives.
pub record Layout : Type 0 where
  pub kernel_pg_dir : ℕ
  pub master_kernel_pg_dir : ℕ
  pub kernel_pg_table_0 : ℕ

-- The bits of `map_flags`.
pub record MapFlags : Type 0 where
  pub user : Bool
  pub local_cpu : Bool
  pub pgd_locked : Bool

abbrev pub get_cpu_pgdir : Layout → ℕ → ℕ
get_cpu_pgdir y cpuid = y.kernel_pg_dir + page_size * cpuid

abbrev pub pgdir_of : Layout → ℕ → MapFlags → ℕ
pgdir_of y cpuid flags =
    if flags.user || flags.local_cpu then get_cpu_pgdir y cpuid else y.master_kernel_pg_dir

-- The entry of the directory at `pgd` is made to point to `table`, or given the flags.
pub set_pgd : ℕ → ℕ → ℕ → Words → Words
set_pgd pgd table pgd_flags m =
    if m pgd == 0
    then update m pgd (bit_or ((table + 2 ^ 32 - kernel_virt_addr) % 2 ^ 32) pgd_flags)
    else if bit_xor (bit_and (m pgd) pgd_flag_mask) pgd_flags == 0
    then m
    else update m pgd (bit_or (m pgd) pgd_flags)

-- The variables of the loops of `build_pagetable` and `unmap_pagetable`.
pub record Cursor : Type 0 where
  pub idx : ℕ
  pub pte : ℕ
  pub last_pte : ℕ
  pub pgd : ℕ
  pub start : ℕ
  pub phys_addr : ℕ

-- The end of the table that `pte` points into.
abbrev pub table_end : ℕ → ℕ
table_end pte = (pte + page_size) % 2 ^ 32 / 4096 * 4096

abbrev pub first_cursor : ℕ → (ℕ → ℕ) → ℕ → ℕ → Cursor
first_cursor pgdir pgtable phys_addr start =
    let pte = pgtable 0 + 4 * pte_index start in
    record {
      idx = 0;
      pte = pte;
      last_pte = table_end pte;
      pgd = pgdir + 4 * pgd_index start;
      start = start;
      phys_addr = phys_addr;
    }

-- On to the next table.
abbrev pub next_table : (ℕ → ℕ) → Cursor → Cursor
next_table pgtable c = record c {
  idx = c.idx + 1;
  pte = pgtable (c.idx + 1);
  last_pte = table_end (pgtable (c.idx + 1));
  pgd = c.pgd + 4;
}

-- On to the next page.
abbrev pub next_page : Cursor → Cursor
next_page c = record c {
  pte = c.pte + 4;
  start = (c.start + page_size) % 2 ^ 32;
  phys_addr = (c.phys_addr + page_size) % 2 ^ 32;
}

-- The `while` loop of `build_pagetable`, with the rounds it is given; none when they run out.
pub build_loop : ℕ → (ℕ → ℕ) → ℕ → ℕ → ℕ → Cursor → Words → Option Words
build_loop zero pgtable end pgd_flags pte_flags c m = none
build_loop (suc n) pgtable end pgd_flags pte_flags c m =
    let turn = c.pte == c.last_pte in
    let c' = if turn then next_table pgtable c else c in
    let m' = if turn then set_pgd c'.pgd (pgtable c'.idx) pgd_flags m else m in
    let m'' = update m' c'.pte (bit_or c'.phys_addr pte_flags) in
    let rest = build_loop n pgtable end pgd_flags pte_flags (next_page c') m'' in
    if ltb c.start end then rest else some m

pub build_pagetable : ℕ → Layout → ℕ → (ℕ → ℕ) → ℕ → ℕ → ℕ → ℕ → ℕ → MapFlags → Words → Option Words
build_pagetable rounds y cpuid pgtable phys_addr start length pgd_flags pte_flags flags m =
    let c = first_cursor (pgdir_of y cpuid flags) pgtable phys_addr start in
    let m' = set_pgd c.pgd (pgtable 0) pgd_flags m in
    build_loop rounds pgtable ((start + length) % 2 ^ 32) pgd_flags pte_flags c m'

-- The `while` loop of `unmap_pagetable`; a directory entry that is 0 stands for a whole table.
pub unmap_loop : ℕ → (ℕ → ℕ) → ℕ → Cursor → Words → Option Words
unmap_loop zero pgtable end c m = none
unmap_loop (suc n) pgtable end c m =
    let turn = c.pte == c.last_pte in
    let c' = if turn then next_table pgtable c else c in
    let skip = record c' { pte = c'.last_pte; start = (c.start + pgd_size) % 2 ^ 32 } in
    let skipped = unmap_loop n pgtable end skip m in
    let rest = unmap_loop n pgtable end (next_page c') (update m c'.pte 0) in
    if ltb c.start end then if turn && m c'.pgd == 0 then skipped else rest else some m

pub unmap_pagetable : ℕ → Layout → ℕ → (ℕ → ℕ) → ℕ → ℕ → MapFlags → Words → Option Words
unmap_pagetable rounds y cpuid pgtable start length flags m =
    let c = first_cursor (pgdir_of y cpuid flags) pgtable 0 start in
    let past = record c {
      start = (start + (c.last_pte - c.pte) / 4 * page_size) % 2 ^ 32;
      pte = c.last_pte;
    } in
    unmap_loop rounds pgtable ((start + length) % 2 ^ 32) (if m c.pgd == 0 then past else c) m

-- The address of the entry of a kernel address in the tables that stand one after the other.
abbrev pub kernel_pte : Layout → ℕ → ℕ
kernel_pte y virt_addr =
    y.kernel_pg_table_0
    + (virt_addr + 2 ^ 32 - kernel_virt_addr) % 2 ^ 32 / 4194304 % 1024 * 4096
    + 4 * pte_index virt_addr

-- The `while` loop of `map_kernel_with_pagetable`. Each call of `build_pagetable` is for a page and
-- has two rounds.
pub map_loop : ℕ → Layout → ℕ → ℕ → ℕ → ℕ → ℕ → ℕ → MapFlags → Words → Option Words
map_loop zero y cpu pte virt_addr end phys_addr pte_flags flags m = none
map_loop (suc n) y cpu pte virt_addr end phys_addr pte_flags flags m =
    let rest : Option Words =
      elim (build_pagetable 2 y cpu (λ _. page_mask pte) phys_addr virt_addr page_size
        (bit_or pgd_present pgd_write) (bit_or pte_flags pte_present) flags m) [
          | none ↦ none
          | some m' ↦
              map_loop n y cpu (pte + 4) ((virt_addr + page_size) % 2 ^ 32) end
                ((phys_addr + page_size) % 2 ^ 32) pte_flags flags m'
        ] in
    if virt_addr == end then some m else rest

-- One round for each page of the address space, and one to end.
abbrev pub all_pages : ℕ
all_pages = 1048577

-- `cpu` is `CUR_CPU`.
pub map_kernel_with_pagetable : Layout → ℕ → ℕ → ℕ → ℕ → ℕ → MapFlags → Words → Option Words
map_kernel_with_pagetable y cpu virt_addr phys_addr length pte_flags flags m =
    let first = page_mask virt_addr in
    let mapped =
      map_loop all_pages y cpu (kernel_pte y first) first
        (align_page ((virt_addr + length) % 2 ^ 32)) (page_mask phys_addr) pte_flags flags m in
    if ltb virt_addr kernel_virt_addr || flags.user then some m else mapped

pub unmap_kernel_loop : ℕ → Layout → ℕ → ℕ → ℕ → ℕ → MapFlags → Words → Option Words
unmap_kernel_loop zero y cpu pte virt_addr end flags m = none
unmap_kernel_loop (suc n) y cpu pte virt_addr end flags m =
    let rest : Option Words =
      elim (unmap_pagetable 2 y cpu (λ _. page_mask pte) virt_addr page_size flags m) [
        | none ↦ none
        | some m' ↦
            unmap_kernel_loop n y cpu (pte + 4) ((virt_addr + page_size) % 2 ^ 32) end flags m'
      ] in
    if virt_addr == end then some m else rest

pub unmap_kernel_with_pagetable : Layout → ℕ → ℕ → ℕ → MapFlags → Words → Option Words
unmap_kernel_with_pagetable y cpu virt_addr length flags m =
    let first = page_mask virt_addr in
    let unmapped =
      unmap_kernel_loop all_pages y cpu (kernel_pte y first) first
        (align_page ((virt_addr + length) % 2 ^ 32)) flags m in
    if ltb virt_addr kernel_virt_addr || flags.user then some m else unmapped
