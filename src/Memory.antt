-- ===== src/Memory.antt =====
-- memory.c and memory.h: the page descriptors and the buddy allocator of physical pages.
use Prim.Native.Nat.{bit_xor}
use xis.Prelude.Maps.{update}
use xis.Prelude.{
  ℕ, zero, suc, ◌+◌, ◌-◌, ◌/◌, ◌^◌, ◌%◌, Bool, true, false, not, ◌&&◌, ◌||◌, Option, none, some,
  List, [], ◌∷◌, ◌++◌, ltb, leb, ◌==◌, if◌then◌else◌,
}
use xis.Prelude.Text.{codes}
use xis.Vga.{Vga, print_vga}
pub mod Blocks
pub mod Invariant
pub mod Insert
pub mod Merge
pub mod Add
pub mod Take
pub mod Mark
pub mod Split
pub mod Alloc
pub mod Contract
pub mod Init
pub mod Kmap
pub mod Bitmap
pub mod Cache
mod Tests

-- `struct kpage`: the bits of `flags` as fields. The lock, `virt_addr` and the members of the union
-- other than `free_page` are left out; the place of `free_page` in a list is the list's entry.
pub record Kpage : Type 0 where
  pub order : ℕ
  pub reserved : Bool
  pub kernel : Bool
  pub free_buddy : Bool
  pub free_sub : Bool
  pub allocated : Bool
  pub cache_metadata : Bool
  pub cache : Bool
  pub refcount : ℕ

-- The globals of the allocator. A page is named by its index in `kpages`, its frame number; the
-- list `free_pages[o]` is the sequence of its entries from the head's `next` on. The counters
-- are `int`s; that they may overflow after 2 ^ 31 blocks is left out.
pub record Buddy : Type 0 where
  pub kpages : ℕ → Kpage
  pub kpage_last : ℕ
  pub free_pages : ℕ → List ℕ
  pub free_pages_count : ℕ → ℕ
  pub screen : Vga

abbrev pub max_alloc_order : ℕ
max_alloc_order = 17

-- `list_remove_entry`: out of the list that holds the entry.
unfoldable pub remove : ℕ → List ℕ → List ℕ
remove p [] = []
remove p (q ∷ l) = if p == q then remove p l else q ∷ remove p l

abbrev pub list_remove_entry : ℕ → Buddy → Buddy
list_remove_entry p b = record b { free_pages = λ o. remove p (b.free_pages o) }

-- `kpage_is_free`, of memory.h: none of the five bits is set.
pub kpage_is_free : Kpage → Bool
kpage_is_free k = not (k.reserved || k.kernel || k.free_buddy || k.free_sub || k.allocated)

abbrev pub buddy_of : ℕ → ℕ → ℕ
buddy_of pfn order = bit_xor pfn (2 ^ order)

-- The condition of the merge; the first line is `!done`.
abbrev pub can_merge : Buddy → ℕ → ℕ → ℕ → Bool
can_merge b order p end_pfn =
    not (ltb p (buddy_of p order) && (order == max_alloc_order || ltb end_pfn (buddy_of p order)))
    && ltb order max_alloc_order
    && leb (buddy_of p order) end_pfn
    && (b.kpages (buddy_of p order)).order == order
    && (b.kpages (buddy_of p order)).free_buddy

abbrev pub first_of : ℕ → ℕ → ℕ
first_of p other = if ltb p other then p else other

abbrev pub second_of : ℕ → ℕ → ℕ
second_of p other = if ltb p other then other else p

-- The body of the merge: the flags of both pages, and the buddy leaves its list.
pub merge : Buddy → ℕ → ℕ → Buddy
merge b order p =
    let other = buddy_of p order in
    let first = first_of p other in
    let second = second_of p other in
    let pages = update b.kpages first (record (b.kpages first) { free_buddy = false }) in
    list_remove_entry other (record b {
      kpages = update pages second (record (pages second) { free_buddy = false; free_sub = true });
      free_pages_count = update b.free_pages_count order (b.free_pages_count order - 1);
    })

-- The `else` branch: the page becomes the head of a free block, at the tail of its list.
unfoldable pub insert_block : Buddy → ℕ → ℕ → Buddy
insert_block b order p = record b {
  kpages =
      update b.kpages p
        (record (b.kpages p) { order = order; free_buddy = true; free_sub = false });
  free_pages = update b.free_pages order (b.free_pages order ++ (p ∷ []));
  free_pages_count = update b.free_pages_count order (b.free_pages_count order + 1);
}

-- The `while`, with the orders that are left up to MAX_ALLOC_ORDER.
unfoldable pub add_loop : ℕ → ℕ → ℕ → ℕ → Buddy → Buddy
add_loop zero order p end_pfn b = b
add_loop (suc n) order p end_pfn b =
    let merged = add_loop n (order + 1) (first_of p (buddy_of p order)) end_pfn (merge b order p) in
    if can_merge b order p end_pfn then merged else insert_block b order p

-- `end_kpage` is `none` for NULL.
abbrev pub end_of : Option ℕ → Buddy → ℕ
end_of none b = b.kpage_last
end_of (some e) b = e

unfoldable pub page_add_to_slot : ℕ → Option ℕ → Buddy → Buddy
page_add_to_slot p end_kpage b =
    add_loop (suc max_alloc_order - (b.kpages p).order) (b.kpages p).order p (end_of end_kpage b) b

unfoldable pub last_of : ℕ → List ℕ → ℕ
last_of d [] = d
last_of d (p ∷ l) = last_of p l

-- The first branch of `page_alloc`: the entry in front of the list's head, its last one.
unfoldable pub take_block : ℕ → ℕ → Buddy → Buddy
take_block order p b =
    let out = list_remove_entry p b in
    record out {
      kpages = update b.kpages p (record (b.kpages p) {
        free_buddy = false;
        allocated = true;
        order = order;
        refcount = ((b.kpages p).refcount + 1) % 2 ^ 32;
      });
    }

-- One half is given back, at `alloc_order` less one.
pub split_half : ℕ → ℕ → Buddy → Buddy
split_half half pfn b =
    let buddy = buddy_of pfn half in
    page_add_to_slot buddy none (record b {
      kpages = update b.kpages buddy (record (b.kpages buddy) { order = half; free_sub = false });
    })

-- `while (alloc_order > order)`, with the difference of the two.
unfoldable pub split_loop : ℕ → ℕ → ℕ → Buddy → Buddy
split_loop zero order pfn b = b
split_loop (suc d) order pfn b = split_loop d order pfn (split_half (order + d) pfn b)

-- The outer `while`, with the orders that are left; `alloc_order` is the one that is tried.
unfoldable pub alloc_loop : ℕ → ℕ → ℕ → Buddy → Option ℕ × Buddy
alloc_loop zero alloc_order order b = (none, b)
alloc_loop (suc n) alloc_order order b = elim (b.free_pages alloc_order) [
  | [] ↦ alloc_loop n (alloc_order + 1) order b
  | q ∷ l ↦ (
    some (last_of q l),
    split_loop (alloc_order - order) order (last_of q l) (take_block order (last_of q l) b),
  )
]

-- The message of a failed allocation.
unfoldable pub report : Option ℕ × Buddy → Option ℕ × Buddy
report (some p, b) = (some p, b)
report (none, b) = (none, record b { screen = print_vga (codes "alloc failed\n") b.screen })

unfoldable pub page_alloc : ℕ → Buddy → Option ℕ × Buddy
page_alloc order b = report (alloc_loop (suc max_alloc_order - order) order order b)

-- The address is shifted as it is: nothing is subtracted from it.
pub page_free_linear : ℕ → Buddy → Buddy
page_free_linear addr b = page_add_to_slot (addr / 4096) none b
