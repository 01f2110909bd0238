-- ===== src/Page32/User.antt =====
-- page32.c: `alloc_user_page` and `page_getpfn`, over the tables and the page allocator.
use Prim.Native.Nat.{bit_and, bit_or}
use xis.Prelude.{
  ℕ, zero, suc, ◌+◌, ◌-◌, ◌*◌, ◌/◌, ◌%◌, ◌^◌, Bool, true, false, not, ◌||◌, Option, none, some,
  List, [], ◌∷◌, ◌++◌, leb, ◌==◌, if◌then◌else◌,
}
use xis.Memory.{Buddy, page_alloc, page_add_to_slot}
use xis.Page32.{
  Words, Layout, MapFlags, kernel_virt_addr, page_size, pgd_size, pgd_present, pgd_write, pgd_user,
  pte_present, pte_write, pte_user, page_mask, align_page, align_pgd, pgd_index, pte_index,
  get_cpu_pgdir, build_pagetable, map_kernel_with_pagetable, unmap_kernel_with_pagetable,
}
pub mod Order
pub mod Rounds
pub mod Errors
mod Tests

-- The codes -1, -2 and -3 of memory.h, as 32 bits.
abbrev pub err_nomem : ℕ
err_nomem = 2 ^ 32 - 1

abbrev pub err_invalid : ℕ
err_invalid = 2 ^ 32 - 2

abbrev pub err_not_supported : ℕ
err_not_supported = 2 ^ 32 - 3

-- `31 - __builtin_clz(n)` and `__builtin_ctz(n)`, for a number of 32 bits that is not 0.
unfoldable pub log2_loop : ℕ → ℕ → ℕ
log2_loop zero n = 0
log2_loop (suc r) n = let rest = log2_loop r (n / 2) in if leb n 1 then 0 else suc rest

unfoldable pub ctz_loop : ℕ → ℕ → ℕ
ctz_loop zero n = 0
ctz_loop (suc r) n = let rest = ctz_loop r (n / 2) in if n % 2 == 1 then 0 else suc rest

unfoldable pub npages_to_order : ℕ → ℕ
npages_to_order npages =
    let order = log2_loop 32 npages in if order == ctz_loop 32 npages then order else suc order

-- What is done to the lock of the processor's own directory.
pub data LockOp : Type 0 where
  lock : LockOp
  unlock : LockOp

-- The memory, the allocator, and the operations on the lock so far.
pub record Machine : Type 0 where
  pub words : Words
  pub buddy : Buddy
  pub locks : List LockOp

abbrev pub do_lock : LockOp → Machine → Machine
do_lock o s = record s { locks = s.locks ++ o ∷ [] }

-- The directory entries that are 0, of so many from the one for `addr` on.
pub count_missing : ℕ → ℕ → ℕ → Words → ℕ
count_missing zero pgdir addr m = 0
count_missing (suc n) pgdir addr m =
    (if m (pgdir + 4 * pgd_index addr) == 0 then 1 else 0)
    + count_missing n pgdir ((addr + pgd_size) % 2 ^ 32) m

abbrev pub local_flags : MapFlags
local_flags = record { user = false; local_cpu = true; pgd_locked = true }

abbrev pub user_flags : MapFlags
user_flags = record { user = true; local_cpu = false; pgd_locked = true }

-- The flags of the directory and of the tables.
abbrev pub user_pgd_flags : ℕ → ℕ
user_pgd_flags pte_flags =
    bit_or (bit_or pgd_present pgd_user) (if bit_and pte_flags pte_write == 0 then 0 else pgd_write)

abbrev pub user_pte_flags : ℕ → ℕ
user_pte_flags pte_flags = bit_or (bit_or pte_present pte_user) pte_flags

infixl 5 ◌>>=◌
abbrev ◌>>=◌ : Option Words → (Words → Option Words) → Option Words
none >>= f = none
some m >>= f = f m

-- A page of user memory: its table is mapped, written, and unmapped again.
pub map_user_page : Layout → ℕ → ℕ → ℕ → ℕ → ℕ → Words → Option Words
map_user_page y cpu table virt_addr phys_addr pte_flags m = do
  m1 ←
      map_kernel_with_pagetable y cpu table ((table + 2 ^ 32 - kernel_virt_addr) % 2 ^ 32) page_size
        pte_write local_flags m
  m2 ←
      build_pagetable 2 y cpu (λ _. table) phys_addr virt_addr page_size (user_pgd_flags pte_flags)
        (user_pte_flags pte_flags) user_flags m1
  unmap_kernel_with_pagetable y cpu table page_size local_flags m2

-- What the last loop comes to: it uses NULL for a table, one of its calls does not end, or the pages
-- are mapped.
pub data Fill : Type 0 where
  no_table : Fill
  not_ended : Fill
  filled : Words → Fill

abbrev pub then_fill : (Words → Fill) → Option Words → Fill
then_fill next none = not_ended
then_fill next (some m) = next m

-- The last loop, with the pages that are left. `page_pgtbl` is the first frame for new tables.
pub fill_loop : ℕ → Layout → ℕ → Option ℕ → ℕ → ℕ → ℕ → ℕ → Words → Fill
fill_loop zero y cpu page_pgtbl pgtbl_idx virt_addr phys_addr pte_flags m = filled m
fill_loop (suc n) y cpu page_pgtbl pgtbl_idx virt_addr phys_addr pte_flags m =
    let e = m (get_cpu_pgdir y cpu + 4 * pgd_index virt_addr) in
    let next = λ (idx table : ℕ).
      then_fill
        (fill_loop n y cpu page_pgtbl idx ((virt_addr + page_size) % 2 ^ 32)
          ((phys_addr + page_size) % 2 ^ 32) pte_flags)
        (map_user_page y cpu table virt_addr phys_addr pte_flags m) in
    let fresh : Fill = elim page_pgtbl [
      | none ↦ no_table
      | some q ↦
          next (pgtbl_idx + 1) ((q * page_size + pgtbl_idx * page_size + kernel_virt_addr) % 2 ^ 32)
    ] in
    let present = next pgtbl_idx ((page_mask e + kernel_virt_addr) % 2 ^ 32) in
    if e == 0 then fresh else present

abbrev pub free_tables : Option ℕ → Buddy → Buddy
free_tables none b = b
free_tables (some q) b = page_add_to_slot q none b

-- What a call comes to: its rounds run out, it uses NULL for a table, a call in it does not end, or
-- it returns a code and leaves a machine.
pub data Run : Type 0 where
  exhausted : Run
  null_table : Run
  unended : Run
  returned : ℕ → Machine → Run

-- What the last loop gave; 0 is returned with the words that it leaves, if it ends.
abbrev pub finish : Machine → Fill → Run
finish s no_table = null_table
finish s not_ended = unended
finish s (filled m) = returned 0 (record s { words = m })

-- From `retry_pgtbl_read` on, with the rounds that are left; `page_buf` is the frame of the memory.
pub retry_loop : ℕ → Layout → ℕ → ℕ → ℕ → ℕ → ℕ → Option ℕ → ℕ → Machine → Run
retry_loop zero y cpu virt_addr length pte_flags page_buf page_pgtbl prev s = exhausted
retry_loop (suc n) y cpu virt_addr length pte_flags page_buf page_pgtbl prev s =
    let pgdir = get_cpu_pgdir y cpu in
    let locked = do_lock lock s in
    let nr = count_missing (align_pgd length / pgd_size) pgdir virt_addr s.words in
    let freed = free_tables page_pgtbl s.buddy in
    let unlocked = record (do_lock unlock locked) { buddy = freed } in
    let (tables, b) = page_alloc (npages_to_order nr) freed in
    let again : Run = elim tables [
      | none ↦
          returned err_nomem
            (record (do_lock unlock unlocked) { buddy = page_add_to_slot page_buf none b })
      | some q ↦
          retry_loop n y cpu virt_addr length pte_flags page_buf (some q) nr
            (record unlocked { buddy = b })
    ] in
    let none_missing = retry_loop n y cpu virt_addr length pte_flags page_buf none 0 unlocked in
    let done = finish (do_lock unlock locked) (
      fill_loop (length / page_size) y cpu page_pgtbl 0 virt_addr (page_buf * page_size % 2 ^ 32)
        pte_flags s.words) in
    if prev == nr then done else if nr == 0 then none_missing else again

-- `rounds` bounds the retries; alone on its directory, the processor needs two.
unfoldable pub alloc_user_page : ℕ → Layout → ℕ → ℕ → ℕ → ℕ → Machine → Run
alloc_user_page rounds y cpu virt_addr length pte_flags s =
    let size = align_page length in
    let (pages, b) = page_alloc (npages_to_order (size / page_size)) s.buddy in
    let got : Run = elim pages [
      | none ↦ returned err_nomem (record s { buddy = b })
      | some p ↦ retry_loop rounds y cpu virt_addr size pte_flags p none 0 (record s { buddy = b })
    ] in
    if virt_addr == 0
    then returned err_not_supported s
    else if not (virt_addr % page_size == 0)
    then returned err_invalid s
    else if leb kernel_virt_addr ((virt_addr + size) % 2 ^ 32)
    then returned err_invalid s
    else got

-- The entry is taken as the table's address with its flags, as the source does.
pub page_getpfn : Layout → ℕ → ℕ → Words → ℕ
page_getpfn y cpu addr m =
    let e = m (get_cpu_pgdir y cpu + 4 * pgd_index addr) in
    page_mask (m ((e + kernel_virt_addr) % 2 ^ 32 + 4 * pte_index addr))
