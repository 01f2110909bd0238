-- ===== src/Usermode/Tests.antt =====
-- The theorem on usermode.c where there is one free frame, and the stack needs two.
use xis.Prelude.{
  ℕ, ◌+◌, ◌*◌, ◌≤◌, ◌<◌, ◌≡◌, ◌⊎◌, ◌==◌, Bool, refl, false, some, [], ◌∷◌, if◌then◌else◌, arith,
}
use xis.Memory.{Kpage, Buddy, page_alloc, report, alloc_loop, last_of}
use xis.Memory.Invariant.{IsValid}
use xis.Page32.{Layout}
use xis.Page32.User.{Machine, err_nomem, alloc_user_page, npages_to_order, log2_loop, ctz_loop}
use xis.Page32.User.Errors.{SameFrames}
use xis.Usermode.{User, initialize_usermode}
use xis.Usermode.Failure.{cleared, initialize_usermode-error}

-- The tables in the order of kernel32.ld.
abbrev linked_at : Layout
linked_at = record {
  master_kernel_pg_dir = 0x80200000;
  kernel_pg_dir = 0x80201000;
  kernel_pg_table_0 = 0x80221000;
}

-- Eight frames, of which frame 4 is free.
abbrev page : Bool → Kpage
page free = record {
  order = 0;
  reserved = false;
  kernel = false;
  free_buddy = free;
  free_sub = false;
  allocated = false;
  cache_metadata = false;
  cache = false;
  refcount = 0;
}

abbrev one_free : Buddy
one_free = record {
  kpages = λ p. page (p == 4);
  kpage_last = 7;
  free_pages = λ o. if o == 0 then 4 ∷ [] else [];
  free_pages_count = λ o. if o == 0 then 1 else 0;
  screen = record { mem = λ _. 0; ptr = 0 };
}

one_free-IsValid : IsValid one_free
one_free-IsValid = record {
  bounded = λ p h. omega arith;
  aligned = λ p h. (p, omega arith);
  inside = λ p h. ground arith;
  apart = λ p q hp hq n. ground arith;
  listed = λ p o. ground arith;
  distinct = λ o. ground arith;
  counted = λ o. ground arith;
}

abbrev start : User
start = record { machine = record { words = λ _. 7; buddy = one_free; locks = [] }; bytes = λ _. 0 }

abbrev failed : Machine
failed = record (cleared linked_at 0 start.machine) { buddy = (page_alloc 1 one_free).1 }

initialize_usermode-error_example :
    (u : User) × (initialize_usermode linked_at 0 0x80100000 100 start ≡ some (err_nomem, u))
    × ((i : ℕ) → i < 512 → u.machine.words (0x80201000 + 4 * i) ≡ 0)
    × ((a : ℕ) → (a < 0x80201000) ⊎ (0x80201000 + 2048 ≤ a) → u.machine.words a ≡ 7)
    × (u.bytes ≡ start.bytes)
    × SameFrames one_free u.machine.buddy
unfolding alloc_user_page npages_to_order log2_loop ctz_loop page_alloc report alloc_loop last_of
initialize_usermode-error_example =
    initialize_usermode-error linked_at 0 0x80100000 100 err_nomem start failed one_free-IsValid
      refl (λ e. absurd (omega (arith, e)))
