-- ===== src/Memory/Cache.antt =====
-- memory.c: the sizes of the object caches, and the block of a large object.
use xis.Prelude.{
  ℕ, zero, suc, ◌+◌, ◌-◌, ◌*◌, ◌/◌, ◌%◌, ◌^◌, Bool, ◌&&◌, Option, none, some, List, [], ◌∷◌, ltb,
  leb, if◌then◌else◌,
}
pub mod Sizes
mod Tests

abbrev pub cache_min_chunk_size : ℕ
cache_min_chunk_size = 4

abbrev pub cache_max_num : ℕ
cache_max_num = 10

-- The fields of `struct mem_cache` that `mem_cache_init` sets; the lists are empty.
pub record MemCache : Type 0 where
  pub size : ℕ
  pub bitmap_size : ℕ

abbrev pub mem_cache_init_internal : ℕ → MemCache
mem_cache_init_internal size = record {
  size = size;
  bitmap_size = if ltb (4096 / size * 8) 4 then 4 else 4096 / size * 8;
}

-- The caches from the one of size `i` on.
pub caches_loop : ℕ → ℕ → List MemCache
caches_loop zero i = []
caches_loop (suc n) i =
    let rest = caches_loop n (i * 2) in if ltb i 4096 then mem_cache_init_internal i ∷ rest else []

pub mem_cache_init : List MemCache
mem_cache_init = caches_loop cache_max_num cache_min_chunk_size

-- `mem_cache_add_slot`: the descriptors of 12 bytes and a bitmap that are put on a page, from the
-- offset `desc` on. The page has no more than 1024.
pub slots_loop : ℕ → ℕ → ℕ → ℕ
slots_loop zero desc bitmap_size = 0
slots_loop (suc n) desc bitmap_size =
    let rest = slots_loop n (desc + bitmap_size) bitmap_size in
    if leb (desc + (12 + bitmap_size)) 4096 then suc rest else 0

pub slot_count : ℕ → ℕ
slot_count bitmap_size = slots_loop 1024 4 bitmap_size

-- `mem_cache_allocate`: the number of the cache, by halves; a size has 32 bits.
pub class_loop : ℕ → ℕ → ℕ → ℕ
class_loop zero i idx = idx
class_loop (suc n) i idx =
    let rest = class_loop n (i / 2) (idx + 1) in if ltb cache_min_chunk_size i then rest else idx

pub size_class : ℕ → ℕ
size_class size = class_loop 32 size 0

-- `ALIGN_LONG` of a size.
abbrev pub align_long : ℕ → ℕ
align_long size = (size + 3) % 2 ^ 32 / 4 * 4

-- The 32 bits of `size + PAGE_SIZE - 1`, shifted as an `int`, compared with 4096: a negative number
-- stays negative.
abbrev pub too_many : ℕ → Bool
too_many size = let sum = (size + 4095) % 2 ^ 32 in ltb sum (2 ^ 31) && ltb 4096 (sum / 4096)

-- The `for` loop that looks for the order of a large object; none when the rounds run out.
pub order_loop : ℕ → ℕ → ℕ → Option ℕ
order_loop zero size order = none
order_loop (suc n) size order =
    let rest = order_loop n size (order + 1) in if too_many size then rest else some order

pub large_order : ℕ → ℕ → Option ℕ
large_order rounds size = order_loop rounds size 1
