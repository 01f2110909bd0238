-- ===== src/Setup32/Paging.antt =====
-- setup32.c: the page faults of `trap_handler`, and the directory that `setup32` gives a processor.
use xis.Prelude.Maps.{update}
use xis.Prelude.{ℕ, zero, suc, ◌+◌, ◌*◌, Bool, not, ◌&&◌, leb, ◌==◌, if◌then◌else◌}
use xis.Page32.{Words, Layout, kernel_virt_addr, get_cpu_pgdir, pgd_index}
pub mod Repair
pub mod Copy
mod Tests

-- The handler returns, or it stops the processor.
pub data After : Type 0 where
  resumed : Words → After
  halted : Words → After

-- `eip` and `trap_nr` are fields of the frame, `cr2` is read from the register. The messages are
-- left out.
pub trap_handler : Layout → ℕ → ℕ → ℕ → ℕ → Words → After
trap_handler y cpu trap_nr eip cr2 m =
    let pgd_entry = pgd_index cr2 in
    let local_pgd = get_cpu_pgdir y cpu + 4 * pgd_entry in
    let master_pgd = y.master_kernel_pg_dir + 4 * pgd_entry in
    if trap_nr == 14 && leb kernel_virt_addr eip && m local_pgd == 0 && not (m master_pgd == 0)
    then resumed (update m local_pgd (m master_pgd))
    else halted m

-- `memcpy` of so many words.
pub copy_words : ℕ → ℕ → ℕ → Words → Words
copy_words zero dest src m = m
copy_words (suc n) dest src m = copy_words n (dest + 4) (src + 4) (update m dest (m src))

-- The directory that `setup32` leaves to the processor: 4096 bytes.
abbrev pub setup32_pgdir : Layout → ℕ → Words → Words
setup32_pgdir y cpu m = copy_words 1024 (get_cpu_pgdir y cpu) y.master_kernel_pg_dir m
