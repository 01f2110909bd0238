-- ===== src/Memory/Cache/Tests.antt =====
-- The object caches at concrete sizes.
use xis.Prelude.{◌*◌, ◌^◌, ◌<◌, ◌≡◌, refl, arith}
use xis.Memory.Cache.{class_loop, size_class, slot_count, mem_cache_init_internal}
use xis.Memory.Cache.Sizes.{slot_count_lem}

-- An object of 36 bytes is looked for in the cache whose objects have 32.
too_small : (size_class 36 ≡ 3) × (4 * 2 ^ 3 < 36)
unfolding size_class class_loop
too_small = (refl, omega arith)

-- The caches of the sizes 4 and 8 never get a descriptor.
no_slots :
    (slot_count (mem_cache_init_internal 4).bitmap_size ≡ 0)
    × (slot_count (mem_cache_init_internal 8).bitmap_size ≡ 0)
no_slots = (slot_count_lem 8192 (omega arith), slot_count_lem 4096 (omega arith))
