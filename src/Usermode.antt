-- ===== src/Usermode.antt =====
-- usermode.c: the memory of the user program of a processor.
use xis.Prelude.{
  ℕ, zero, suc, ◌+◌, ◌-◌, ◌*◌, ◌/◌, ◌%◌, ◌^◌, Option, none, some, ltb, ◌==◌, if◌then◌else◌,
}
use xis.Util.{Bytes}
use xis.Memory.Init.{clear_words}
use xis.Page32.{
  Words, Layout, kernel_virt_addr, page_size, page_mask, align_page, pte_write, pgd_index,
  pte_index, get_cpu_pgdir, map_kernel_with_pagetable, unmap_kernel_with_pagetable,
}
use xis.Page32.User.{
  Machine, Run, exhausted, null_table, unended, returned, alloc_user_page, local_flags,
}
use xis.Smp.{copy_bytes}
pub mod Failure
mod Tests

abbrev pub user_mode_virt_stack : ℕ
user_mode_virt_stack = 0x10001000

abbrev pub user_mode_virt_text : ℕ
user_mode_virt_text = 0x10004000

abbrev pub user_mode_stack_size : ℕ
user_mode_stack_size = 8192

-- The tables and the allocator, and the bytes of the pages.
pub record User : Type 0 where
  pub machine : Machine
  pub bytes : Bytes

abbrev pub linear : ℕ → ℕ
linear entry = (page_mask entry + kernel_virt_addr) % 2 ^ 32

-- A page of the text is mapped, filled and unmapped; none if a mapping does not end.
pub load_page : Layout → ℕ → ℕ → ℕ → ℕ → User → Option User
load_page y cpu addr s chunk u =
    elim (map_kernel_with_pagetable y cpu addr ((addr + 2 ^ 32 - kernel_virt_addr) % 2 ^ 32)
      page_size pte_write local_flags u.machine.words) [
        | none ↦ none
        | some m ↦ elim (unmap_kernel_with_pagetable y cpu addr page_size local_flags m) [
          | none ↦ none
          | some m' ↦ some (record {
            machine = record u.machine { words = m' };
            bytes = copy_bytes chunk addr s u.bytes;
          })
        ]
      ]

-- The `while` loop, with the pages that are left.
pub text_loop : ℕ → Layout → ℕ → ℕ → ℕ → ℕ → ℕ → User → Option User
text_loop zero y cpu pgd pte s length u = some u
text_loop (suc n) y cpu pgd pte s length u =
    let chunk = if ltb page_size length then page_size else length in
    elim (load_page y cpu (linear (u.machine.words pte)) s chunk u) [
      | none ↦ none
      | some u' ↦
          let next = pte + 4 in
          let turn = next == align_page next in
          let pgd' = if turn then pgd + 4 else pgd in
          let pte' = if turn then linear (u'.machine.words pgd') else next in
          text_loop n y cpu pgd' pte' (s + chunk) (length - chunk) u'
    ]

-- `init_um` is the address of the program and `init_um_size` its size.
pub load_usermode_text : Layout → ℕ → ℕ → ℕ → User → Option User
load_usermode_text y cpu init_um init_um_size u =
    let pgd = get_cpu_pgdir y cpu + 4 * pgd_index user_mode_virt_text in
    let pte = linear (u.machine.words pgd) + 4 * pte_index user_mode_virt_text in
    text_loop ((init_um_size + 4095) / 4096) y cpu pgd pte init_um init_um_size u

-- What `alloc_user_page` gave, with its code; 0 goes on, and if it does not return the result is
-- none.
abbrev pub then_if_done : (User → Option (ℕ × User)) → Bytes → Run → Option (ℕ × User)
then_if_done next bytes exhausted = none
then_if_done next bytes null_table = none
then_if_done next bytes unended = none
then_if_done next bytes (returned code s) =
    let u : User = record { machine = s; bytes = bytes } in
    let rest = next u in if code == 0 then rest else some (code, u)

-- The code of the call that failed, or 0. `page_free_user`, which is called when the text fails,
-- does nothing. The messages are left out.
pub initialize_usermode : Layout → ℕ → ℕ → ℕ → User → Option (ℕ × User)
initialize_usermode y cpu init_um init_um_size u =
    let words = clear_words 512 (get_cpu_pgdir y cpu) u.machine.words in
    let start = record u.machine { words = words } in
    let text = λ (v : User).
      then_if_done
        (λ w. elim (load_usermode_text y cpu init_um init_um_size w) [
          | none ↦ none
          | some w' ↦ some (0, w')
        ])
        v.bytes
        (alloc_user_page 2 y cpu user_mode_virt_text (align_page init_um_size) 0 v.machine) in
    then_if_done text u.bytes
      (alloc_user_page 2 y cpu user_mode_virt_stack user_mode_stack_size pte_write start)
