-- ===== src/Lock/Exclusion.antt =====
-- lock.c: at most one processor is between the lock and the unlock, in every interleaving.
use xis.Prelude.{
  ℕ, ◌≤◌, ◌≡◌, ◌≢◌, refl, ap, Bool, true, false, arith, List, [], ◌∷◌, ◌==◌, ◌||◌, Bool-cases, ◌⊎◌,
  inl, inr, ==→eq, ==_refl,
}
use xis.Prelude.Maps.{update}
use xis.Lock.{Cpu, outside, exchange, check, critical, step_cpu, Machine, step, run, init_spin_lock}

-- The lock is taken by the exchange that finds 0, before the test.
pub holds : Cpu → Bool
holds outside = false
holds (exchange eax) = false
holds (check eax) = eax == 0
holds critical = true

-- What the register holds at each place.
pub tame : Cpu → Bool
tame outside = true
tame (exchange eax) = eax == 1
tame (check eax) = eax == 0 || eax == 1
tame critical = true

abbrev pub IsFair : Machine → Type 0
IsFair m =
    (m.val ≤ 1)
    × ((i : ℕ) → tame (m.cpus i) ≡ true)
    × ((i : ℕ) → holds (m.cpus i) ≡ true → m.val ≡ 1)
    × ((i j : ℕ) → holds (m.cpus i) ≡ true → holds (m.cpus j) ≡ true → i ≡ j)
    × (m.val ≡ 1 → (i : ℕ) × (holds (m.cpus i) ≡ true))

-- A step of processor `i` that is at `x`.
step_at-IsFair :
    (i : ℕ) (m : Machine) (x : Cpu)
    → m.cpus i ≡ x
    → IsFair m
    → let (val, cpu) = step_cpu m.val x in IsFair (record { val = val; cpus = update m.cpus i cpu })
unfolding step_cpu holds tame
step_at-IsFair i m outside e (v, t, h, u, w) = (
  v,
  λ j. grind (arith, t j),
  λ j p. grind (arith, h j),
  λ j k p q. grind (arith, u j k),
  λ o. let (j, p) = w o in (j, grind (arith, p)),
)
step_at-IsFair i m (exchange eax) e (v, t, h, u, w) = (
  grind (arith, t i),
  λ j. grind (arith, t j),
  λ j p. grind (arith, t i, h j),
  λ j k p q. grind (arith, h j, h k, u j k),
  λ o. elim (Bool-cases (m.val == 0)) [
    | inl z ↦ (i, grind arith)
    | inr n ↦ let (j, p) = w (ground arith) in (j, grind (arith, p))
  ],
)
step_at-IsFair i m (check eax) e (v, t, h, u, w) = (
  v,
  λ j. grind (arith, t i, t j),
  λ j p. grind (arith, h i, h j),
  λ j k p q. grind (arith, u j k),
  λ o. let (j, p) = w o in (j, grind (arith, p)),
)
step_at-IsFair i m critical e (v, t, h, u, w) = (
  omega arith,
  λ j. grind (arith, t j),
  λ j p. grind (arith, u i j),
  λ j k p q. grind (arith, u j k),
  λ o. absurd (omega arith),
)

step-IsFair : (i : ℕ) (m : Machine) → IsFair m → IsFair (step i m)
unfolding step
step-IsFair i m f = step_at-IsFair i m (m.cpus i) refl f

init-IsFair : IsFair init_spin_lock
unfolding init_spin_lock holds tame
init-IsFair = (
  omega arith,
  λ i. refl,
  λ i p. absurd (grind (arith, p)),
  λ i j p q. absurd (grind (arith, p)),
  λ o. absurd (omega arith),
)

pub run-IsFair : (l : List ℕ) (m : Machine) → IsFair m → IsFair (run l m)
unfolding run
run-IsFair [] m f = f
run-IsFair (i ∷ l) m f = run-IsFair l (step i m) (step-IsFair i m f)

-- From the initialized lock, in every order of the processors' instructions, no two of them are
-- between the lock and the unlock at the same time.
pub exclusion :
    (l : List ℕ) (i j : ℕ)
    → let m = run l init_spin_lock in i ≢ j → m.cpus i ≡ critical → m.cpus j ≢ critical
unfolding holds
exclusion l i j n p q =
    let (v, t, h, u, w) = run-IsFair l init_spin_lock init-IsFair in
    n (u i j (ap holds p) (ap holds q))

free_enters :
    (i eax : ℕ) (m : Machine)
    → m.cpus i ≡ exchange eax
    → m.val ≡ 0
    → (run (i ∷ i ∷ []) m).cpus i ≡ critical
unfolding run step step_cpu
free_enters i eax m p z = rw (==_refl i, p, z) refl

-- The lock is not lost: in every order of the instructions its value is 0, and then the processor
-- that exchanges next is past the test two steps later, or some processor has it.
pub no_deadlock :
    (l : List ℕ) (i eax : ℕ)
    → let m = run l init_spin_lock in
      m.cpus i ≡ exchange eax
      → ((run (i ∷ i ∷ []) m).cpus i ≡ critical) ⊎ ((j : ℕ) × (holds (m.cpus j) ≡ true))
no_deadlock l i eax p =
    let m = run l init_spin_lock in
    let (v, t, h, u, w) = run-IsFair l init_spin_lock init-IsFair in
    elim (Bool-cases (m.val == 0)) [
      | inl z ↦ inl (free_enters i eax m p (==→eq m.val 0 z))
      | inr n ↦ inr (w (ground arith))
    ]
