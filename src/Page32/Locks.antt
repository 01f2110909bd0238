-- ===== src/Page32/Locks.antt =====
-- page32.c: which lock `LOCK_PGD` takes for an address.
use xis.Prelude.{
  ℕ, ◌-◌, ◌/◌, ◌%◌, ◌^◌, ◌≤◌, ◌<◌, ◌≡◌, ◌↔◌, false, not, ◌&&◌, ◌||◌, leb, if◌then◌else◌, arith,
}
use xis.Page32.{MapFlags, kernel_virt_addr, page_size, pgd_index}

-- An element of `lock_pgd_kernel` or of `lock_pgd_user`.
pub data PgdLock : Type 0 where
  kernel : ℕ → PgdLock
  user : ℕ → PgdLock

-- The number of elements of `lock_pgd_kernel`.
abbrev pub kernel_locks : ℕ
kernel_locks = (page_size - kernel_virt_addr / 2 ^ 20) / 4

pub pgd_lock : ℕ → ℕ → MapFlags → PgdLock
pgd_lock cpuid addr flags =
    if not (flags.user || flags.local_cpu) && leb kernel_virt_addr addr
    then kernel ((addr - kernel_virt_addr) / 4194304 % 1024)
    else user cpuid

-- For two kernel addresses in the shared directory, the lock is one of the array, and it is the
-- same lock exactly when the addresses have the same entry of the directory.
pub pgd_lock_shared :
    (cpuid cpuid' a b : ℕ) (flags : MapFlags)
    → (flags.user || flags.local_cpu) ≡ false
    → kernel_virt_addr ≤ a
    → a < 2 ^ 32
    → kernel_virt_addr ≤ b
    → b < 2 ^ 32
    → (pgd_lock cpuid a flags ≡ kernel (pgd_index a - 512))
      × (pgd_index a - 512 < kernel_locks)
      × ((pgd_lock cpuid a flags ≡ pgd_lock cpuid' b flags) ↔ (pgd_index a ≡ pgd_index b))
unfolding pgd_lock
pgd_lock_shared cpuid cpuid' a b flags f p q r s = (ground arith, omega arith, ground arith)
