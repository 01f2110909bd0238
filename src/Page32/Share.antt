-- ===== src/Page32/Share.antt =====
-- page32.c: a directory with the entries of another one reads the kernel's addresses alike.
use xis.Prelude.{ℕ, ◌^◌, ◌≤◌, ◌<◌, ◌≡◌, refl, sym, ◌∙◌, arith}
use xis.Page32.{Words, Layout, kernel_virt_addr, pte_index}
use xis.Page32.Walk.{walk, IsLayout, IsLinked, IsKernelDir, directory_word, table_word}
use xis.Page32.Slot.{table_of, walk_linked}

-- In `m'` the directory `local` has the entries that `shared` has in `m`, and the tables and `shared`
-- are as in `m`.
pub record Shares (y : Layout) (local shared : ℕ) (m m' : Words) : Type 0 where
  pub entries : (i : ℕ) → i < 512 → m' (directory_word local i) ≡ m (directory_word shared i)
  pub kept : (i : ℕ) → i < 512 → m' (directory_word shared i) ≡ m (directory_word shared i)
  pub tables : (i j : ℕ) → i < 512 → j < 1024 → m' (table_word y i j) ≡ m (table_word y i j)

pub Shares-walk :
    (y : Layout) (local shared : ℕ) (m m' : Words)
    → IsLayout y local
    → IsLayout y shared
    → IsKernelDir y shared m
    → Shares y local shared m m'
    → IsLinked y local m'
      × IsKernelDir y shared m'
      × ((u : ℕ) → kernel_virt_addr ≤ u → u < 2 ^ 32 → walk m' local u ≡ walk m shared u)
Shares-walk y local shared m m' lay lay' master s =
    let linked : IsLinked y local m' = λ i a. rw (s.entries i a) (master.linked i a) in
    (
      linked,
      record {
        linked = λ i a. rw (s.kept i a) (master.linked i a);
        clean = λ i j a b z. rw (s.tables i j a b) (master.clean i j a b (sym (s.kept i a) ∙ z));
      },
      λ u a b.
          rw
            (
              walk_linked y local lay m' u linked a b,
              s.entries (table_of u) (omega arith),
              s.tables (table_of u) (pte_index u) (omega arith) (omega arith),
              walk_linked y shared lay' m u master.linked a b,
            )
            refl,
    )
