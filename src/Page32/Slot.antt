-- ===== src/Page32/Slot.antt =====
-- page32.c: one page of the kernel's tables, mapped, as a change of what the processor reads.

use xis.Prelude.Maps.{update}
use xis.Prelude.BitOr.{bit_or-page, bit_or_odd, bit_or_odd_left}
use xis.Prelude.{
  ℕ, ◌+◌, ◌-◌, ◌*◌, ◌/◌, ◌%◌, ◌^◌, ◌≤◌, ◌<◌, ◌≡◌, ◌≢◌, inl, inr, refl, sym, ap, ◌∙◌, Option, none,
  some, false, ◌==◌, ◌&&◌, if◌then◌else◌, arith, Bool-cases, ne→==, ==→eq, ==→ne,
}
use xis.Page32.{Words, Layout, kernel_virt_addr, pgd_index, pte_index, set_pgd}
use xis.Page32.Walk.{walk, IsLayout, IsLinked, IsKernelDir, directory_word, table_word}

-- The table and the entry of a kernel address.
abbrev pub table_of : ℕ → ℕ
table_of v = (v - kernel_virt_addr) / 4194304

-- What the entry of a page gives.
abbrev pub page_entry : ℕ → ℕ → Option ℕ
page_entry t v = if t % 2 == 0 then none else some (t / 4096 * 4096 + v % 4096)

set_pgd_ne : (g table f : ℕ) (m : Words) (a : ℕ) → a ≢ g → set_pgd g table f m a ≡ m a
unfolding set_pgd
set_pgd_ne g table f m a n = ground arith

-- Under odd flags of twelve bits an entry that was 0 points to the table, and any other keeps its
-- table.
set_pgd_zero :
    (g table f : ℕ) (m : Words)
    → f < 4096
    → f % 2 ≡ 1
    → table % 4096 ≡ 0
    → kernel_virt_addr ≤ table
    → table < 2 ^ 32
    → m g ≡ 0
    → let e = set_pgd g table f m g in (e % 2 ≡ 1) × (e / 4096 * 4096 + kernel_virt_addr ≡ table)
unfolding set_pgd
set_pgd_zero g table f m l o a k b z =
    let w = (table + 2 ^ 32 - kernel_virt_addr) % 2 ^ 32 in
    let p = bit_or-page w f l in let q = bit_or_odd w f o in (ground (arith, q), ground (arith, p))

set_pgd_kept :
    (g table f : ℕ) (m : Words)
    → f < 4096
    → m g % 2 ≡ 1
    → let e = set_pgd g table f m g in (e % 2 ≡ 1) × (e / 4096 ≡ m g / 4096)
unfolding set_pgd
set_pgd_kept g table f m l o =
    let p = bit_or-page (m g) f l in
    let q = bit_or_odd_left (m g) f o in (ground (arith, q), ground (arith, p))

-- The directory with the entry for the table of `v`, and `w` written to the entry of the page at
-- `v`.
unfoldable pub stored : Layout → ℕ → ℕ → ℕ → Words → Words
stored y pgdir v w m =
    let table = y.kernel_pg_table_0 + 4096 * table_of v in
    update (set_pgd (pgdir + 4 * pgd_index v) table 3 m) (table + 4 * pte_index v) w

module _ (y : Layout) (pgdir : ℕ) (lay : IsLayout y pgdir) where
  -- The words of the directory and of the tables are all different.
  pub words_apart :
      (i i' j : ℕ) → i < 512 → i' < 512 → j < 1024 → directory_word pgdir i ≢ table_word y i' j
  words_apart i i' j a b c e = ground arith

  -- In a linked directory the processor reads the table of the address, or faults.
  pub walk_linked :
      (m : Words) (v : ℕ)
      → IsLinked y pgdir m
      → kernel_virt_addr ≤ v
      → v < 2 ^ 32
      → walk m pgdir v ≡ (
          if m (directory_word pgdir (table_of v)) == 0
          then none
          else page_entry (m (table_word y (table_of v) (pte_index v))) v)
  unfolding walk
  walk_linked m v k a b =
      let i = table_of v in
      let index : pgd_index v ≡ 512 + i = omega arith in
      rw index (elim (k i (omega arith)) [
        | inl z ↦ rw z refl
        | inr (o, t) ↦
            let at_table : (m (directory_word pgdir i) / 4096 * 4096 + kernel_virt_addr) % 2 ^ 32
                ≡ y.kernel_pg_table_0 + 4096 * i =
              omega (arith, t) in
            let present : (m (directory_word pgdir i) == 0) ≡ false = ground (arith, o) in
            rw (o, at_table, present) refl
      ])

  pub walk_lem :
      (m : Words) (v : ℕ)
      → IsKernelDir y pgdir m
      → kernel_virt_addr ≤ v
      → v < 2 ^ 32
      → walk m pgdir v ≡ page_entry (m (table_word y (table_of v) (pte_index v))) v
  walk_lem m v k a b =
      let i = table_of v in
      let c = k.clean i (pte_index v) (omega arith) (omega arith) in
      walk_linked m v k.linked a b ∙ elim (Bool-cases (m (directory_word pgdir i) == 0)) [
        | inl e ↦ ground (arith, c (==→eq (m (directory_word pgdir i)) 0 e))
        | inr e ↦ rw e refl
      ]

  module _ (v w : ℕ) (low : kernel_virt_addr ≤ v) (high : v < 2 ^ 32) (m : Words) where
    stored-table :
        (i j : ℕ)
        → i < 512
        → j < 1024
        → stored y pgdir v w m (table_word y i j)
          ≡ (if i == table_of v && j == pte_index v then w else m (table_word y i j))
    unfolding stored
    stored-table i j a b =
        let n = words_apart (table_of v) i j (omega arith) a b in
        let index : directory_word pgdir (table_of v) ≡ pgdir + 4 * pgd_index v = omega arith in
        let kept =
          set_pgd_ne (pgdir + 4 * pgd_index v) (y.kernel_pg_table_0 + 4096 * table_of v) 3 m
            (table_word y i j) (λ e. n (index ∙ sym e)) in
        ground (arith, kept)

    stored-directory :
        (i : ℕ)
        → i < 512
        → stored y pgdir v w m (directory_word pgdir i)
          ≡ set_pgd
              (directory_word pgdir (table_of v))
              (y.kernel_pg_table_0 + 4096 * table_of v)
              3
              m
              (directory_word pgdir i)
    unfolding stored
    stored-directory i a =
        let n = words_apart i (table_of v) (pte_index v) a (omega arith) (omega arith) in
        let index : pgd_index v ≡ 512 + table_of v = omega arith in
        let e =
          ne→== (y.kernel_pg_table_0 + 4096 * table_of v + 4 * pte_index v) (directory_word pgdir i)
            (λ e. n (sym e)) in
        rw (e, index) refl

    -- The entry for the table of `v` is present and points to it.
    stored_self :
        IsKernelDir y pgdir m
        → let e = stored y pgdir v w m (directory_word pgdir (table_of v)) in
          (e % 2 ≡ 1)
          × (e / 4096 * 4096 + kernel_virt_addr ≡ y.kernel_pg_table_0 + 4096 * table_of v)
    stored_self k =
        let i = table_of v in
        let g = directory_word pgdir i in
        let table = y.kernel_pg_table_0 + 4096 * i in
        rw (stored-directory i (omega arith)) (elim (k.linked i (omega arith)) [
          | inl z ↦
              set_pgd_zero g table 3 m (omega arith) refl (omega arith) (omega arith) (omega arith)
                z
          | inr (o, t) ↦ let r = set_pgd_kept g table 3 m (omega arith) o in (r.0, rw (r.1) t)
        ])

    stored_other :
        (i : ℕ)
        → i < 512
        → i ≢ table_of v
        → stored y pgdir v w m (directory_word pgdir i) ≡ m (directory_word pgdir i)
    stored_other i a n =
        stored-directory i a
        ∙ set_pgd_ne (directory_word pgdir (table_of v)) (y.kernel_pg_table_0 + 4096 * table_of v) 3
            m (directory_word pgdir i) (λ e. n (omega (arith, e)))

    pub stored-IsKernelDir : IsKernelDir y pgdir m → IsKernelDir y pgdir (stored y pgdir v w m)
    stored-IsKernelDir k = record {
      linked = λ i a. elim (Bool-cases (i == table_of v)) [
        | inl e ↦ inr (rw (==→eq i (table_of v) e) (stored_self k))
        | inr n ↦ rw (stored_other i a (==→ne i (table_of v) n)) (k.linked i a)
      ];
      clean = λ i j a b z. elim (Bool-cases (i == table_of v)) [
        | inl e ↦
            let odd = (stored_self k).0 in
            let same = ap (directory_word pgdir) (==→eq i (table_of v) e) in
            absurd (omega (arith, odd, ap (stored y pgdir v w m) same, z))
        | inr n ↦
            rw (stored-table i j a b, n)
              (k.clean i j a b (sym (stored_other i a (==→ne i (table_of v) n)) ∙ z))
      ];
    }

    -- What the processor reads for a kernel address: the new entry on the page of `v`, and what it
    -- read before on any other.
    pub walk-stored :
        IsKernelDir y pgdir m
        → (u : ℕ) → kernel_virt_addr ≤ u
        → u < 2 ^ 32
        → walk (stored y pgdir v w m) pgdir u
          ≡ (if u / 4096 == v / 4096 then page_entry w u else walk m pgdir u)
    walk-stored k u a b =
        let same : (table_of u == table_of v && pte_index u == pte_index v)
            ≡ (u / 4096 == v / 4096) =
          ground arith in
        rw
          (
            walk_lem (stored y pgdir v w m) u (stored-IsKernelDir k) a b,
            walk_lem m u k a b,
            stored-table (table_of u) (pte_index u) (omega arith) (omega arith),
            same,
          )
          (elim (Bool-cases (u / 4096 == v / 4096)) [ inl e ↦ rw e refl | inr e ↦ rw e refl ])
