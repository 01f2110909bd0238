-- ===== src/Lock.antt =====
-- lock.c and lock.h: the spin lock, instruction by instruction, on any number of processors.
use xis.Prelude.{ℕ, zero, suc, List, [], ◌∷◌, ◌==◌, if◌then◌else◌}
use xis.Prelude.Maps.{update}
pub mod Exclusion
mod Tests

-- Where a processor is, with its register `eax`: not in the lock's code, in front of the `xchgl`,
-- in front of the `testl` behind it, or between `spinlock_lock` and `spinlock_unlock`.
pub data Cpu : Type 0 where
  outside : Cpu
  exchange : ℕ → Cpu
  check : ℕ → Cpu
  critical : Cpu

-- The value of the lock and the place behind the next instruction; the exchange is one step, since
-- it has the `lock` prefix. From `outside` it is the `movl $1` of `spinlock_lock`, and from
-- `critical` the `movl $0` of `spinlock_unlock`.
pub step_cpu : ℕ → Cpu → ℕ × Cpu
step_cpu val outside = (val, exchange 1)
step_cpu val (exchange eax) = (eax, check val)
step_cpu val (check eax) = (val, if eax == 0 then critical else exchange eax)
step_cpu val critical = (0, outside)

-- `struct _spinlock` and the processors.
pub record Machine : Type 0 where
  pub val : ℕ
  pub cpus : ℕ → Cpu

pub step : ℕ → Machine → Machine
step i m =
    let (val, cpu) = step_cpu m.val (m.cpus i) in record { val = val; cpus = update m.cpus i cpu }

-- The processors take their steps in the order of the list.
pub run : List ℕ → Machine → Machine
run [] m = m
run (i ∷ l) m = run l (step i m)

-- Behind `INIT_SPIN_LOCK`.
pub init_spin_lock : Machine
init_spin_lock = record { val = 0; cpus = λ _. outside }
