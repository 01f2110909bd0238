-- ===== src/Usermode/Failure.antt =====
-- usermode.c: `initialize_usermode` when there is no memory for the stack.
use xis.Prelude.{ℕ, ◌+◌, ◌*◌, ◌≤◌, ◌<◌, ◌≡◌, ◌≢◌, ◌⊎◌, refl, ap, ◌∙◌, some, arith, ne→==}
use xis.Memory.Init.{clear_words}
use xis.Memory.Init.Clear.{clear_words-outside, clear_words_lem}
use xis.Memory.Invariant.{IsValid}
use xis.Page32.{Words, Layout, get_cpu_pgdir, pte_write}
use xis.Page32.User.{Machine, returned, alloc_user_page}
use xis.Page32.User.Errors.{SameFrames, alloc_user_page-error}
use xis.Usermode.{User, initialize_usermode, user_mode_virt_stack, user_mode_stack_size}

-- The machine with the user's half of the directory cleared.
abbrev pub cleared : Layout → ℕ → Machine → Machine
cleared y cpu s = record s { words = clear_words 512 (get_cpu_pgdir y cpu) s.words }

-- From a valid allocator, when the allocation of the stack returns an error: the function returns its
-- code; the 512 entries of the processor's directory for user addresses are 0, and all other words
-- and the bytes of the pages are as they were; the allocator is valid, and the same frames are free.
pub initialize_usermode-error :
    (y : Layout) (cpu init_um init_um_size code : ℕ) (u : User) (s : Machine)
    → IsValid u.machine.buddy
    → alloc_user_page 2 y cpu user_mode_virt_stack user_mode_stack_size pte_write
        (cleared y cpu u.machine)
      ≡ returned code s
    → code ≢ 0
    → (u' : User) × (initialize_usermode y cpu init_um init_um_size u ≡ some (code, u'))
      × ((i : ℕ) → i < 512 → u'.machine.words (get_cpu_pgdir y cpu + 4 * i) ≡ 0)
      × ((a : ℕ)
          → (a < get_cpu_pgdir y cpu) ⊎ (get_cpu_pgdir y cpu + 2048 ≤ a)
          → u'.machine.words a ≡ u.machine.words a)
      × (u'.bytes ≡ u.bytes)
      × SameFrames u.machine.buddy u'.machine.buddy
unfolding initialize_usermode
initialize_usermode-error y cpu init_um init_um_size code u s v e n =
    let pgdir = get_cpu_pgdir y cpu in
    let (words, frames) =
      alloc_user_page-error y cpu user_mode_virt_stack user_mode_stack_size pte_write
        (cleared y cpu u.machine) 0 code s v e n in
    let word = λ (a : ℕ). ap (λ (f : Words). f a) words in
    (
      record { machine = s; bytes = u.bytes },
      rw (e, ne→== code 0 n) refl,
      λ i h. word (pgdir + 4 * i) ∙ clear_words_lem 512 pgdir i u.machine.words h,
      λ a o. word a ∙ clear_words-outside 512 pgdir u.machine.words a (omega arith),
      refl,
      frames,
    )
