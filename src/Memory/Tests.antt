-- ===== src/Memory/Tests.antt =====
-- memory.c, buddy allocator: runs at fixed inputs, and the theorems at a concrete memory.
use xis.Prelude.{
  ℕ, ◌<◌, ◌≡◌, ◌↔◌, refl, Bool, true, false, none, some, [], ◌∷◌, ◌==◌, if◌then◌else◌, arith,
}
use xis.Memory.{
  Kpage, Buddy, page_add_to_slot, add_loop, merge, insert_block, remove, page_alloc, report,
  alloc_loop, last_of, take_block, split_loop, split_half,
}
use xis.Memory.Invariant.{Head, order_of, IsValid, IsFree, Loose}
use xis.Memory.Add.{Joined, page_add_to_slot-Joined}
use xis.Memory.Alloc.{Allocated}
use xis.Memory.Contract.{page_alloc-Allocated, page_alloc-none, IsFree-alloc}

-- Eight frames: 4 to 7 are a free block, 0 to 3 are in use as one block.
abbrev page : ℕ → Bool → Kpage
page o free = record {
  order = o;
  reserved = false;
  kernel = false;
  free_buddy = free;
  free_sub = false;
  allocated = false;
  cache_metadata = false;
  cache = false;
  refcount = 0;
}

abbrev half_free : Buddy
half_free = record {
  kpages = λ p. if p == 4 then page 2 true else if p == 0 then page 2 false else page 0 false;
  kpage_last = 7;
  free_pages = λ o. if o == 2 then 4 ∷ [] else [];
  free_pages_count = λ o. if o == 2 then 1 else 0;
  screen = record { mem = λ _. 0; ptr = 0 };
}

half_free-IsValid : IsValid half_free
half_free-IsValid = record {
  bounded = λ p h. ground arith;
  aligned = λ p h. (1, ground arith);
  inside = λ p h. ground arith;
  apart = λ p q hp hq n. ground arith;
  listed = λ p o. ground arith;
  distinct = λ o. ground arith;
  counted = λ o. ground arith;
}

low_half : Loose half_free 0 2
low_half = record {
  small = omega arith;
  at_multiple = (0, refl);
  in_memory = omega arith;
  clear = λ q h. ground arith;
}

-- The two halves merge into one block of order 3.
merges : (page_add_to_slot 0 none half_free).free_pages 3 ≡ 0 ∷ []
unfolding page_add_to_slot add_loop merge insert_block remove
merges = refl

-- Frame 4 is handed out; 5 and the pair 6, 7 stay free.
splits :
    ((page_alloc 0 half_free).0 ≡ some 4)
    × ((page_alloc 0 half_free).1.free_pages 0 ≡ 5 ∷ [])
    × ((page_alloc 0 half_free).1.free_pages 1 ≡ 6 ∷ [])
unfolding page_alloc report alloc_loop last_of take_block split_loop split_half page_add_to_slot
    add_loop merge insert_block remove
splits = (refl, refl, refl)

page_add_to_slot-Joined_example : Joined half_free 0 2 (page_add_to_slot 0 none half_free)
page_add_to_slot-Joined_example =
    page_add_to_slot-Joined 0 none half_free half_free-IsValid low_half

page_alloc-Allocated_example : Allocated 0 half_free 4 (page_alloc 0 half_free).1
unfolding page_alloc report alloc_loop last_of
page_alloc-Allocated_example =
    page_alloc-Allocated 0 half_free half_free-IsValid 4 (page_alloc 0 half_free).1 refl

page_alloc-none_example :
    ((page_alloc 3 half_free).0 ≡ none) ↔ ((q : ℕ) → Head half_free q → order_of half_free q < 3)
page_alloc-none_example = page_alloc-none 3 half_free half_free-IsValid

IsFree-alloc_example :
    let b = page_add_to_slot 4 none (page_alloc 0 half_free).1 in
    IsValid b × ((f : ℕ) → IsFree b f ↔ IsFree half_free f)
unfolding page_alloc report alloc_loop last_of
IsFree-alloc_example = IsFree-alloc 0 half_free half_free-IsValid 4 (page_alloc 0 half_free).1 refl
