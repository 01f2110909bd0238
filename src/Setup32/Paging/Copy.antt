-- ===== src/Setup32/Paging/Copy.antt =====
-- setup32.c, `setup32`: the copy of the shared directory.
use xis.Prelude.Maps.{update}
use xis.Prelude.{
  ℕ, zero, suc, ◌+◌, ◌*◌, ◌^◌, ◌≤◌, ◌<◌, ◌≡◌, ◌⊎◌, refl, sym, ap, ◌∙◌, arith, ne→==, ==_refl,
}
use xis.Page32.{Words, Layout, kernel_virt_addr, get_cpu_pgdir}
use xis.Page32.Walk.{walk, IsLayout, IsLinked, IsKernelDir, directory_word, table_word}
use xis.Page32.Share.{Shares, Shares-walk}
use xis.Setup32.Paging.{copy_words, setup32_pgdir}

pub copy_words-outside :
    (n dest src : ℕ) (m : Words) (a : ℕ)
    → (a < dest) ⊎ (dest + 4 * n ≤ a)
    → copy_words n dest src m a ≡ m a
unfolding copy_words
copy_words-outside zero dest src m a h = refl
copy_words-outside (suc n) dest src m a h =
    copy_words-outside n (dest + 4) (src + 4) (update m dest (m src)) a (omega arith)
    ∙ rw (ne→== dest a (λ e. omega arith)) refl

-- A copy to a place apart.
pub copy_words_lem :
    (n dest src k : ℕ) (m : Words)
    → (dest + 4 * n ≤ src) ⊎ (src + 4 * n ≤ dest)
    → k < n
    → copy_words n dest src m (dest + 4 * k) ≡ m (src + 4 * k)
unfolding copy_words
copy_words_lem zero dest src k m h l = absurd (omega arith)
copy_words_lem (suc n) dest src zero m h l =
    let here : dest ≡ dest + 4 * 0 = omega arith in
    let there : src ≡ src + 4 * 0 = omega arith in
    let rest = copy_words n (dest + 4) (src + 4) (update m dest (m src)) in
    ap rest (sym here)
    ∙ copy_words-outside n (dest + 4) (src + 4) (update m dest (m src)) dest (omega arith)
    ∙ rw (==_refl dest) (ap m there)
copy_words_lem (suc n) dest src (suc k) m h l =
    let here : dest + 4 + 4 * k ≡ dest + 4 * suc k = omega arith in
    let there : src + 4 + 4 * k ≡ src + 4 * suc k = omega arith in
    let ih =
      copy_words_lem n (dest + 4) (src + 4) k (update m dest (m src)) (omega arith) (omega arith) in
    ap (copy_words n (dest + 4) (src + 4) (update m dest (m src))) (sym here)
    ∙ ih
    ∙ rw (ne→== dest (src + 4 + 4 * k) (λ e. omega arith)) (ap m there)

module _ (y : Layout) (cpu : ℕ) (lay : IsLayout y (get_cpu_pgdir y cpu))
    (lay' : IsLayout y y.master_kernel_pg_dir)
    (apart : (get_cpu_pgdir y cpu + 4096 ≤ y.master_kernel_pg_dir)
      ⊎ (y.master_kernel_pg_dir + 4096 ≤ get_cpu_pgdir y cpu))
    (m : Words) (master : IsKernelDir y y.master_kernel_pg_dir m) where
  abbrev local : ℕ
  local = get_cpu_pgdir y cpu

  abbrev shared : ℕ
  shared = y.master_kernel_pg_dir

  abbrev copied : Words
  copied = setup32_pgdir y cpu m

  copied-Shares : Shares y local shared m copied
  copied-Shares = record {
    entries = λ i a. copy_words_lem 1024 local shared (512 + i) m apart (omega arith);
    kept = λ i a. copy_words-outside 1024 local shared m (directory_word shared i) (omega arith);
    tables = λ i j a b.
        copy_words-outside 1024 local shared m (table_word y i j) (omega (arith, lay.apart));
  }

  -- From a shared directory of the kernel, for a directory of a processor apart from it and from
  -- the tables: after the copy the processor's entries are 0 or point to the kernel's tables, the
  -- shared directory is one of the kernel, and the processor reads every kernel address as the
  -- shared directory did.
  pub setup32-copies :
      IsLinked y local copied
      × IsKernelDir y shared copied
      × ((u : ℕ) → kernel_virt_addr ≤ u → u < 2 ^ 32 → walk copied local u ≡ walk m shared u)
  setup32-copies = Shares-walk y local shared m copied lay lay' master copied-Shares
