-- ===== src/Lock/Tests.antt =====
-- The theorems on lock.c at two processors that contend for the lock.
use xis.Prelude.{ℕ, ◌≡◌, ◌⊎◌, ◌≢◌, refl, true, arith, List, [], ◌∷◌}
use xis.Lock.{critical, step, step_cpu, run, init_spin_lock}
use xis.Lock.Exclusion.{holds, exclusion, no_deadlock}

-- Processor 0 enters while processor 1 spins.
abbrev contended : List ℕ
contended = 0 ∷ 1 ∷ 0 ∷ 1 ∷ 0 ∷ 1 ∷ []

exclusion_example : (run contended init_spin_lock).cpus 1 ≢ critical
unfolding run step step_cpu init_spin_lock
exclusion_example = exclusion contended 0 1 (λ e. absurd (omega (arith, e))) refl

no_deadlock_example :
    let m = run contended init_spin_lock in
    ((run (1 ∷ 1 ∷ []) m).cpus 1 ≡ critical) ⊎ ((j : ℕ) × (holds (m.cpus j) ≡ true))
unfolding run step step_cpu init_spin_lock
no_deadlock_example = no_deadlock contended 1 1 refl
