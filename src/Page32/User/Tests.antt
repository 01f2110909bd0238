-- ===== src/Page32/User/Tests.antt =====
-- The theorems on `alloc_user_page` at concrete tables and frames.

use xis.Prelude.{
  ◌*◌, ◌^◌, ◌≤◌, ◌<◌, ◌≡◌, ◌≢◌, refl, Bool, false, [], ◌∷◌, ◌==◌, if◌then◌else◌, arith,
}
use xis.Memory.{
  Kpage, Buddy, page_alloc, report, alloc_loop, last_of, take_block, split_loop, page_add_to_slot,
  add_loop, insert_block, remove,
}
use xis.Memory.Invariant.{IsValid}
use xis.Page32.{Words, Layout}
use xis.Page32.User.{
  Machine, exhausted, npages_to_order, alloc_user_page, err_nomem, retry_loop, count_missing,
  log2_loop, ctz_loop,
}
use xis.Page32.User.Order.{npages_to_order_lem}
use xis.Page32.User.Rounds.{machine_of}
use xis.Page32.User.Errors.{SameFrames, alloc_user_page-rounds, alloc_user_page-error}

-- The tables in the order of kernel32.ld.
abbrev linked_at : Layout
linked_at = record {
  master_kernel_pg_dir = 0x80200000;
  kernel_pg_dir = 0x80201000;
  kernel_pg_table_0 = 0x80221000;
}

abbrev no_words : Words
no_words _ = 0

npages_to_order_lem_example : (5 ≤ 2 ^ npages_to_order 5) × (2 ^ npages_to_order 5 < 2 * 5)
npages_to_order_lem_example = npages_to_order_lem 5 (omega arith) (omega arith)

-- Eight frames, of which frame 4 is free.
abbrev page : Bool → Kpage
page free = record {
  order = 0;
  reserved = false;
  kernel = false;
  free_buddy = free;
  free_sub = false;
  allocated = false;
  cache_metadata = false;
  cache = false;
  refcount = 0;
}

abbrev one_free : Buddy
one_free = record {
  kpages = λ p. page (p == 4);
  kpage_last = 7;
  free_pages = λ o. if o == 0 then 4 ∷ [] else [];
  free_pages_count = λ o. if o == 0 then 1 else 0;
  screen = record { mem = λ _. 0; ptr = 0 };
}

one_free-IsValid : IsValid one_free
one_free-IsValid = record {
  bounded = λ p h. omega arith;
  aligned = λ p h. (p, omega arith);
  inside = λ p h. ground arith;
  apart = λ p q hp hq n. ground arith;
  listed = λ p o. ground arith;
  distinct = λ o. ground arith;
  counted = λ o. ground arith;
}

abbrev start : Machine
start = record { words = no_words; buddy = one_free; locks = [] }

-- The only free frame is for the memory, so that there is none for its table.
abbrev failed : Machine
failed = machine_of start (alloc_user_page 2 linked_at 0 0x1000 4096 0 start)

alloc_user_page-error_example : (failed.words ≡ no_words) × SameFrames one_free failed.buddy
unfolding alloc_user_page retry_loop count_missing npages_to_order log2_loop ctz_loop page_alloc
    report alloc_loop last_of take_block split_loop page_add_to_slot add_loop insert_block remove
alloc_user_page-error_example =
    alloc_user_page-error linked_at 0 0x1000 4096 0 start 0 err_nomem failed one_free-IsValid refl
      (λ e. absurd (omega (arith, e)))

alloc_user_page-rounds_example :
    (alloc_user_page 9 linked_at 0 0x1000 4096 0 start ≢ exhausted)
    × (alloc_user_page 9 linked_at 0 0x1000 4096 0 start
        ≡ alloc_user_page 2 linked_at 0 0x1000 4096 0 start)
alloc_user_page-rounds_example = alloc_user_page-rounds linked_at 0 0x1000 4096 0 start 7
