-- ===== src/Page32/Clear.antt =====
-- page32.c: one page of the kernel's tables, cleared, as a change of what the processor reads.

use xis.Prelude.Maps.{update}
use xis.Prelude.{
  ℕ, ◌+◌, ◌*◌, ◌/◌, ◌^◌, ◌≤◌, ◌<◌, ◌≡◌, ◌≢◌, inl, inr, refl, sym, ap, ◌∙◌, none, true, ◌==◌, ◌&&◌,
  if◌then◌else◌, arith, Bool-cases, ==→eq, ==→ne,
}
use xis.Page32.{Words, Layout, kernel_virt_addr, pgd_index, pte_index}
use xis.Page32.Walk.{walk, IsLayout, IsKernelDir, directory_word, table_word}
use xis.Page32.Slot.{table_of, words_apart, walk_lem}

-- The entry of the page at `v` cleared, if its directory entry is not 0.
unfoldable pub cleared : Layout → ℕ → ℕ → Words → Words
cleared y pgdir v m =
    if m (pgdir + 4 * pgd_index v) == 0
    then m
    else update m (y.kernel_pg_table_0 + 4096 * table_of v + 4 * pte_index v) 0

module _ (y : Layout) (pgdir : ℕ) (lay : IsLayout y pgdir) (v : ℕ) (low : kernel_virt_addr ≤ v)
    (high : v < 2 ^ 32) (m : Words) where
  cleared-directory :
      (i : ℕ) → i < 512 → cleared y pgdir v m (directory_word pgdir i) ≡ m (directory_word pgdir i)
  unfolding cleared
  cleared-directory i a =
      let n = words_apart y pgdir lay i (table_of v) (pte_index v) a (omega arith) (omega arith) in
      ground (arith, n)

  cleared-table :
      (i j : ℕ)
      → i < 512
      → j < 1024
      → m (pgdir + 4 * pgd_index v) ≢ 0
      → cleared y pgdir v m (table_word y i j)
        ≡ (if i == table_of v && j == pte_index v then 0 else m (table_word y i j))
  unfolding cleared
  cleared-table i j a b n = ground (arith, n)

  cleared_absent : (m (pgdir + 4 * pgd_index v) == 0) ≡ true → cleared y pgdir v m ≡ m
  unfolding cleared
  cleared_absent e = rw e refl

  pub cleared-IsKernelDir : IsKernelDir y pgdir m → IsKernelDir y pgdir (cleared y pgdir v m)
  cleared-IsKernelDir k = record {
    linked = λ i a. rw (cleared-directory i a) (k.linked i a);
    clean = λ i j a b z.
        let old = k.clean i j a b (sym (cleared-directory i a) ∙ z) in
        elim (Bool-cases (m (pgdir + 4 * pgd_index v) == 0)) [
          | inl e ↦ rw (cleared_absent e) old
          | inr e ↦
              rw (cleared-table i j a b (==→ne (m (pgdir + 4 * pgd_index v)) 0 e))
                (ground (arith, old))
        ];
  }

  -- The page of `v` is not read any more, and any other as before.
  pub walk-cleared :
      IsKernelDir y pgdir m
      → (u : ℕ) → kernel_virt_addr ≤ u
      → u < 2 ^ 32
      → walk (cleared y pgdir v m) pgdir u ≡ (if u / 4096 == v / 4096 then none else walk m pgdir u)
  walk-cleared k u a b =
      let i = table_of u in
      let j = pte_index u in
      let index : pgd_index v ≡ 512 + table_of v = omega arith in
      let same : (i == table_of v && j == pte_index v) ≡ (u / 4096 == v / 4096) = ground arith in
      rw
        (
          walk_lem y pgdir lay (cleared y pgdir v m) u (cleared-IsKernelDir k) a b,
          walk_lem y pgdir lay m u k a b,
        )
        (elim (Bool-cases (m (pgdir + 4 * pgd_index v) == 0)) [
          | inl e ↦
              let at_index =
                ap (λ t. m (pgdir + 4 * t)) (sym index) ∙ ==→eq (m (pgdir + 4 * pgd_index v)) 0 e in
              let c = k.clean (table_of v) (pte_index v) (omega arith) (omega arith) at_index in
              rw (cleared_absent e) (elim (Bool-cases (u / 4096 == v / 4096)) [
                | inl q ↦
                    let page = ==→eq (u / 4096) (v / 4096) q in
                    let word =
                      ap m {x = table_word y i j} {y = table_word y (table_of v) (pte_index v)}
                        (omega (arith, page)) in
                    rw q (ground (arith, word, c))
                | inr q ↦ rw q refl
              ])
          | inr e ↦
              rw
                (
                  cleared-table i j (omega arith) (omega arith)
                      (==→ne (m (pgdir + 4 * pgd_index v)) 0 e),
                  same,
                )
                (elim (Bool-cases (u / 4096 == v / 4096)) [ inl e ↦ rw e refl | inr e ↦ rw e refl ])
        ])
