-- ===== src/Smp/Tables.antt =====
-- smp.c, `initialize_kernel_pg_tables`: the directories that the other processors start with.
use xis.Prelude.Maps.{update}
use xis.Prelude.{
  ℕ, zero, suc, ◌+◌, ◌*◌, ◌/◌, ◌≤◌, ◌<◌, ◌≡◌, ◌⊎◌, refl, ap, ◌∙◌, true, false, ◌==◌, if◌then◌else◌,
  arith, Bool-cases, ne→==, ==→eq, ==→ne, inl, inr,
}
use xis.Page32.{Words, Layout, get_cpu_pgdir}
use xis.Page32.Walk.{IsLayout}
use xis.Setup32.Paging.{copy_words}
use xis.Setup32.Paging.Copy.{copy_words-outside, copy_words_lem}
use xis.Smp.{pg_tables_loop}

-- The directories of the 32 processors, the shared one and the tables stand apart.
pub record AreApart (y : Layout) : Type 0 where
  pub shared : IsLayout y y.master_kernel_pg_dir
  pub local : (i : ℕ) → i < 32 → IsLayout y (get_cpu_pgdir y i)
  pub apart :
      (y.kernel_pg_dir + 32 * 4096 ≤ y.master_kernel_pg_dir)
      ⊎ (y.master_kernel_pg_dir + 4096 ≤ y.kernel_pg_dir)

-- The word `j` of a directory that is filled.
abbrev filled : Layout → Words → ℕ → ℕ
filled y m j =
    if j == 0 then m (y.master_kernel_pg_dir + 2048) else m (y.master_kernel_pg_dir + 4 * j)

-- One directory.
abbrev fill : Layout → ℕ → Words → Words
fill y i m =
    let pgd = get_cpu_pgdir y i in
    let m' = copy_words 1024 pgd y.master_kernel_pg_dir m in
    update m' pgd (m' (pgd + 4 * (0x800 / 4)))

fill-outside :
    (y : Layout) (i a : ℕ) (m : Words)
    → (a < get_cpu_pgdir y i) ⊎ (get_cpu_pgdir y i + 4096 ≤ a)
    → fill y i m a ≡ m a
fill-outside y i a m o =
    rw (ne→== (get_cpu_pgdir y i) a (λ e. omega (arith, e, o)))
      (copy_words-outside 1024 (get_cpu_pgdir y i) y.master_kernel_pg_dir m a (omega arith))

fill_lem :
    (y : Layout) (i j : ℕ) (m : Words)
    → AreApart y
    → i < 32
    → j < 1024
    → fill y i m (get_cpu_pgdir y i + 4 * j) ≡ filled y m j
fill_lem y i j m c h l =
    let pgd = get_cpu_pgdir y i in
    let shared = y.master_kernel_pg_dir in
    let word =
      λ (k : ℕ) (b : k < 1024). copy_words_lem 1024 pgd shared k m (omega (arith, c.apart)) b in
    elim (Bool-cases (j == 0)) [
      | inl e ↦
          let here : (pgd == pgd + 4 * j) ≡ true = ground arith in
          rw (e, here) (word 512 (omega arith))
      | inr e ↦ let there : (pgd == pgd + 4 * j) ≡ false = ground arith in rw (e, there) (word j l)
    ]

-- The directories from that of `i` on, and all other words.
pub tables-outside :
    (n i a : ℕ) (y : Layout) (m : Words)
    → (a < get_cpu_pgdir y i) ⊎ (get_cpu_pgdir y (i + n) ≤ a)
    → pg_tables_loop n y i m a ≡ m a
unfolding pg_tables_loop
tables-outside zero i a y m o = refl
tables-outside (suc n) i a y m o =
    tables-outside n (i + 1) a y (fill y i m) (omega arith) ∙ fill-outside y i a m (omega arith)

pub tables_lem :
    (n i k j : ℕ) (y : Layout) (m : Words)
    → AreApart y
    → i + n ≤ 32
    → i ≤ k
    → k < i + n
    → j < 1024
    → pg_tables_loop n y i m (get_cpu_pgdir y k + 4 * j) ≡ filled y m j
unfolding pg_tables_loop
tables_lem zero i k j y m c h a b l = absurd (omega arith)
tables_lem (suc n) i k j y m c h a b l =
    let m1 = fill y i m in
    let same : filled y m1 j ≡ filled y m j =
      let at = λ (w : ℕ) (p : w < 1024).
        fill-outside y i (y.master_kernel_pg_dir + 4 * w) m (omega (arith, c.apart)) in
      ground (arith, at 512 (omega arith), at j l) in
    elim (Bool-cases (k == i)) [
      | inl e ↦
          let q = ==→eq k i e in
          tables-outside n (i + 1) (get_cpu_pgdir y k + 4 * j) y m1 (omega (arith, q))
          ∙ ap (λ (t : ℕ). m1 (get_cpu_pgdir y t + 4 * j)) q
          ∙ fill_lem y i j m c (omega arith) l
      | inr e ↦
          let q = ==→ne k i e in
          tables_lem n (i + 1) k j y m1 c (omega arith) (omega (arith, q)) (omega arith) l ∙ same
    ]
