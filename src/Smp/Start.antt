-- ===== src/Smp/Start.antt =====
-- smp.c, `smp_start`: what the other processors find.
use xis.Prelude.Maps.{update}
use xis.Prelude.{
  ℕ, zero, suc, ◌+◌, ◌-◌, ◌*◌, ◌/◌, ◌%◌, ◌^◌, ◌≤◌, ◌<◌, ◌≡◌, ◌⊎◌, refl, ap, ◌∙◌, true, false, ◌==◌,
  if◌then◌else◌, arith, Bool-cases, ne→==, ==→eq, inl, inr, List, [], ◌∷◌, ◌++◌, append_assoc,
}
use xis.Util.{Bytes}
use xis.Page32.{Words, Layout, kernel_virt_addr, pgd_index, pte_index, get_cpu_pgdir}
use xis.Page32.Walk.{walk, IsLinked, IsKernelDir, directory_word, table_word}
use xis.Page32.Share.{Shares, Shares-walk}
use xis.Apic.{Event, store, pit_wait_ms}
use xis.Smp.{initialize_kernel_pg_tables, copy_bytes, ap_parameters, smp_start, Image, Boot}
use xis.Smp.Tables.{AreApart, tables-outside, tables_lem}

copy_bytes-outside :
    (n d s : ℕ) (m : Bytes) (a : ℕ) → (a < d) ⊎ (d + n ≤ a) → copy_bytes n d s m a ≡ m a
unfolding copy_bytes
copy_bytes-outside zero d s m a h = refl
copy_bytes-outside (suc n) d s m a h =
    copy_bytes-outside n (d + 1) (s + 1) (update m d (m s)) a (omega arith)
    ∙ rw (ne→== d a (λ e. omega arith)) refl

copy_bytes_lem :
    (n d s j : ℕ) (m : Bytes)
    → (d + n ≤ s) ⊎ (s + n ≤ d)
    → j < n
    → copy_bytes n d s m (d + j) ≡ m (s + j)
unfolding copy_bytes
copy_bytes_lem zero d s j m h l = absurd (omega arith)
copy_bytes_lem (suc n) d s j m h l =
    let m1 = update m d (m s) in
    elim (Bool-cases (j == 0)) [
      | inl e ↦
          let z = ==→eq j 0 e in
          copy_bytes-outside n (d + 1) (s + 1) m1 (d + j) (inl (omega (arith, z)))
          ∙ (let here : (d == d + j) ≡ true = ground (arith, z) in
              rw here (ap m (omega (arith, z))))
      | inr e ↦
          let there : (d == s + j) ≡ false = ground arith in
          let next : d + j ≡ d + 1 + (j - 1) = ground arith in
          let from : s + 1 + (j - 1) ≡ s + j = ground arith in
          ap (copy_bytes n (d + 1) (s + 1) m1) next
          ∙ copy_bytes_lem n (d + 1) (s + 1) (j - 1) m1 (omega arith) (ground arith)
          ∙ ap m1 from
          ∙ rw there refl
    ]

parameters-outside :
    (y : Layout) (i : Image) (base a : ℕ) (m : Words)
    → kernel_virt_addr + 0x3000 ≤ a
    → ap_parameters y i base m a ≡ m a
unfolding ap_parameters
parameters-outside y i base a m h = ground arith

module _ (y : Layout) (i : Image) (base : ℕ) (c : AreApart y)
    (low : kernel_virt_addr + 0x3000 ≤ y.kernel_pg_dir)
    (low' : kernel_virt_addr + 0x3000 ≤ y.master_kernel_pg_dir)
    (low'' : kernel_virt_addr + 0x3000 ≤ y.kernel_pg_table_0) (m : Words)
    (master : IsKernelDir y y.master_kernel_pg_dir m) (k : ℕ) (other : 0 < k) (few : k < 32) where
  abbrev shared : ℕ
  shared = y.master_kernel_pg_dir

  abbrev local : ℕ
  local = get_cpu_pgdir y k

  abbrev started : Words
  started = ap_parameters y i base (initialize_kernel_pg_tables y m)

  local_word :
      (j : ℕ)
      → j < 1024
      → started (local + 4 * j) ≡ (if j == 0 then m (shared + 2048) else m (shared + 4 * j))
  unfolding initialize_kernel_pg_tables
  local_word j l =
      parameters-outside y i base (local + 4 * j) (initialize_kernel_pg_tables y m) (omega arith)
      ∙ tables_lem 31 1 k j y m c (omega arith) (omega arith) (omega arith) l

  kept_word :
      (a : ℕ)
      → kernel_virt_addr + 0x3000 ≤ a
      → (a < get_cpu_pgdir y 1) ⊎ (get_cpu_pgdir y 32 ≤ a)
      → started a ≡ m a
  unfolding initialize_kernel_pg_tables
  kept_word a h o =
      parameters-outside y i base a (initialize_kernel_pg_tables y m) h
      ∙ tables-outside 31 1 a y m o

  started-Shares : Shares y local shared m started
  started-Shares = record {
    entries = λ e h.
        let there : (512 + e == 0) ≡ false = ground arith in
        local_word (512 + e) (omega arith) ∙ rw there refl;
    kept = λ e h. kept_word (directory_word shared e) (omega arith) (omega (arith, c.apart));
    tables = λ e j h l.
        kept_word (table_word y e j) (omega arith)
          (omega (arith, (c.local 1 (omega arith)).apart, (c.local 31 (omega arith)).apart));
  }

  -- The first 4 MB are read as the kernel's first 4 MB.
  walk_identity :
      (u : ℕ) → u < 4194304 → walk started local u ≡ walk m shared (u + kernel_virt_addr)
  unfolding walk
  walk_identity u h =
      let index : pgd_index u ≡ 0 = omega arith in
      let index' : pgd_index (u + kernel_virt_addr) ≡ 512 = omega arith in
      let slot : pte_index (u + kernel_virt_addr) ≡ pte_index u = omega arith in
      let offset : (u + kernel_virt_addr) % 4096 ≡ u % 4096 = omega arith in
      let entry : started (local + 4 * 0) ≡ m (shared + 2048) = local_word 0 (omega arith) in
      let first : shared + 4 * (512 + 0) ≡ shared + 2048 = omega arith in
      rw (index, index', slot, offset, entry)
        (elim (master.linked 0 (omega arith)) [
          | inl z ↦ rw z refl
          | inr (o, t) ↦
              let table : (m (shared + 2048) / 4096 * 4096 + kernel_virt_addr) % 2 ^ 32
                  ≡ y.kernel_pg_table_0 =
                omega (arith, t, c.shared.tables_fit) in
              let same : started (y.kernel_pg_table_0 + 4 * pte_index u)
                  ≡ m (y.kernel_pg_table_0 + 4 * pte_index u) =
                ap started (omega arith)
                ∙ started-Shares.tables 0 (pte_index u) (omega arith) (omega arith)
                ∙ ap m (omega arith) in
              rw (table, same) refl
        ])

-- What a processor finds of the tables.
pub record FindsTables (y : Layout) (k : ℕ) (m m' : Words) : Type 0 where
  pub linked : IsLinked y (get_cpu_pgdir y k) m'
  pub kernel_dir : IsKernelDir y y.master_kernel_pg_dir m'
  pub reads :
      (u : ℕ)
      → kernel_virt_addr ≤ u
      → u < 2 ^ 32
      → walk m' (get_cpu_pgdir y k) u ≡ walk m y.master_kernel_pg_dir u
  pub identity :
      (u : ℕ)
      → u < 4194304
      → walk m' (get_cpu_pgdir y k) u ≡ walk m y.master_kernel_pg_dir (u + kernel_virt_addr)

-- The words for the code of the other processors.
pub record FindsParameters (y : Layout) (i : Image) (base : ℕ) (m' : Words) : Type 0 where
  pub stack : m' 0x80002080 ≡ i.kernel_stack_0_start
  pub registers : m' 0x80002084 ≡ base
  pub directory : m' 0x8000208c ≡ (y.kernel_pg_dir + 2 ^ 32 - kernel_virt_addr) % 2 ^ 32
  pub finish : m' 0x80002090 ≡ i.finish_smp_initialization

-- The registers written and the waits: INIT, and 10 ms later STARTUP with the page 7 of the code.
abbrev pub signals : ℕ → List Event
signals base =
    store ((base + 0x300) % 2 ^ 32) 0x000c4500
    ∷ store ((base + 0x310) % 2 ^ 32) 0
    ∷ pit_wait_ms 10
    ∷ store ((base + 0x300) % 2 ^ 32) 0x000c4607
    ∷ store ((base + 0x310) % 2 ^ 32) 0
    ∷ pit_wait_ms 200
    ∷ []

parameters_lem :
    (y : Layout) (i : Image) (base : ℕ) (m : Words)
    → FindsParameters y i base (ap_parameters y i base m)
unfolding ap_parameters
parameters_lem y i base m = record {
  stack = refl;
  registers = refl;
  directory = refl;
  finish = refl;
}

-- For directories of the 32 processors, a shared one of the kernel and tables that stand apart and behind the
-- first three pages of the kernel's addresses, and code that lies apart from its copy: without a
-- local APIC `smp_start` does nothing. With one, the code is copied to 0x7c00 and the four words are
-- set; every other processor has a directory that reads the kernel's addresses as the
-- shared one did and the first 4 MB as the kernel's first 4 MB; and the devices see INIT, and 10 ms
-- later STARTUP.
pub smp_start_lem :
    (y : Layout) (i : Image) (base : ℕ) (s : Boot)
    → AreApart y
    → kernel_virt_addr + 0x3000 ≤ y.kernel_pg_dir
    → kernel_virt_addr + 0x3000 ≤ y.master_kernel_pg_dir
    → kernel_virt_addr + 0x3000 ≤ y.kernel_pg_table_0
    → IsKernelDir y y.master_kernel_pg_dir s.words
    → (0x80007c00 + i.init_ap_size ≤ i.init_ap) ⊎ (i.init_ap + i.init_ap_size ≤ 0x80007c00)
    → let s' = smp_start y i true base s in
      (smp_start y i false base s ≡ s)
      × ((j : ℕ) → j < i.init_ap_size → s'.bytes (0x80007c00 + j) ≡ s.bytes (i.init_ap + j))
      × FindsParameters y i base s'.words
      × ((k : ℕ) → 0 < k → k < 32 → FindsTables y k s.words s'.words)
      × (s'.events ≡ s.events ++ signals base)
unfolding smp_start
smp_start_lem y i base s c low low' low'' master apart = (
  refl,
  λ j l. copy_bytes_lem i.init_ap_size 0x80007c00 i.init_ap j s.bytes apart l,
  parameters_lem y i base (initialize_kernel_pg_tables y s.words),
  λ k a b.
      let started = ap_parameters y i base (initialize_kernel_pg_tables y s.words) in
      let (linked, dir, reads) =
        Shares-walk y (get_cpu_pgdir y k) y.master_kernel_pg_dir s.words started (c.local k b)
          c.shared master (started-Shares y i base c low low' low'' s.words master k a b) in
      record {
        linked = linked;
        kernel_dir = dir;
        reads = reads;
        identity = walk_identity y i base c low low' low'' s.words master k a b;
      },
  simp (append_assoc),
)
