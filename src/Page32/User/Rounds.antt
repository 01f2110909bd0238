-- ===== src/Page32/User/Rounds.antt =====
-- page32.c, `alloc_user_page`: what the retries of `retry_pgtbl_read` come to.
use xis.Prelude.{
  ℕ, suc, ◌*◌, ◌/◌, ◌%◌, ◌^◌, ◌≡◌, ◌≢◌, refl, ap, sym, ◌∙◌, Bool, true, false, Option, none, some,
  ◌==◌, if◌then◌else◌, Bool-cases, inl, inr, ne→==, ==→eq, ==→ne, ==_refl,
}
use xis.Vga.{Vga}
use xis.Memory.{Buddy, page_alloc, page_add_to_slot}
use xis.Memory.Invariant.{IsValid}
use xis.Memory.Contract.{page_alloc-kept}
use xis.Page32.{Words, Layout, page_size, pgd_size, align_pgd, get_cpu_pgdir}
use xis.Page32.User.{
  Machine, Run, exhausted, null_table, unended, returned, Fill, no_table, not_ended, filled, finish,
  lock, unlock, do_lock, err_nomem, npages_to_order, count_missing, fill_loop, retry_loop,
}

-- The machine that a call leaves, where it returns.
abbrev pub machine_of : Machine → Run → Machine
machine_of s exhausted = s
machine_of s null_table = s
machine_of s unended = s
machine_of s (returned code s') = s'

abbrev code_of : Run → ℕ
code_of exhausted = 1
code_of null_table = 1
code_of unended = 1
code_of (returned code s) = code

abbrev pub is_exhausted : Run → Bool
is_exhausted exhausted = true
is_exhausted null_table = false
is_exhausted unended = false
is_exhausted (returned code s) = false

module _ (y : Layout) (cpu virt_addr length pte_flags p : ℕ) where
  -- The tables that are missing, by the memory's words.
  abbrev missing : Words → ℕ
  missing m = count_missing (align_pgd length / pgd_size) (get_cpu_pgdir y cpu) virt_addr m

  -- The memory is filled under the lock.
  abbrev mapped : Option ℕ → Machine → Run
  mapped tables s = finish (do_lock unlock (do_lock lock s)) (
      fill_loop (length / page_size) y cpu tables 0 virt_addr (p * page_size % 2 ^ 32) pte_flags
        s.words)

  abbrev round : ℕ → Option ℕ → ℕ → Machine → Run
  round n tables prev s = retry_loop n y cpu virt_addr length pte_flags p tables prev s

  round_last :
      (n prev : ℕ) (tables : Option ℕ) (s : Machine)
      → missing s.words ≡ prev
      → round (suc n) tables prev s ≡ mapped tables s
  unfolding retry_loop
  round_last n prev tables s e =
      let same : (prev == missing s.words) ≡ true = rw e (==_refl prev) in rw same refl

  -- The first round, when tables are missing.
  abbrev looked : Machine → Buddy → Machine
  looked s b = record (do_lock unlock (do_lock lock s)) { buddy = b }

  abbrev tables_of : Words → Buddy → Option ℕ × Buddy
  tables_of m b = page_alloc (npages_to_order (missing m)) b

  abbrev after_tables : ℕ → Machine → Option ℕ × Buddy → Run
  after_tables n s t = elim t.0 [
    | none ↦
        returned err_nomem
          (record (do_lock unlock (looked s s.buddy)) { buddy = page_add_to_slot p none t.1 })
    | some q ↦ round n (some q) (missing s.words) (looked s t.1)
  ]

  round_first :
      (n : ℕ) (s : Machine) (r : Option ℕ) (b : Buddy)
      → missing s.words ≢ 0
      → tables_of s.words s.buddy ≡ (r, b)
      → round (suc n) none 0 s ≡ after_tables n s (r, b)
  unfolding retry_loop
  round_first n s r b m e =
      let some_missing : (0 == missing s.words) ≡ false =
        ne→== 0 (missing s.words) (λ h. m (sym h)) in
      let not_none : (missing s.words == 0) ≡ false = ne→== (missing s.words) 0 m in
      rw (some_missing, not_none) (ap (after_tables n s) e)

  -- What two rounds come to: nothing is missing, or the tables are there by the second, or there is
  -- no memory for them.
  abbrev given : Machine → Option ℕ × Buddy → Run
  given s (none, b) =
      returned err_nomem
        (record (do_lock unlock (looked s s.buddy)) { buddy = page_add_to_slot p none b })
  given s (some q, b) = mapped (some q) (looked s b)

  abbrev pub settled : Machine → Run
  settled s = if missing s.words == 0 then mapped none s else given s (tables_of s.words s.buddy)

  after_tables-given :
      (n : ℕ) (s : Machine) (t : Option ℕ × Buddy) → after_tables (suc n) s t ≡ given s t
  after_tables-given n s (none, b) = refl
  after_tables-given n s (some q, b) = round_last n (missing s.words) (some q) (looked s b) refl

  pub round-settled : (n : ℕ) (s : Machine) → round (suc (suc n)) none 0 s ≡ settled s
  round-settled n s = elim (Bool-cases (missing s.words == 0)) [
    | inl e ↦ rw e (round_last (suc n) 0 none s (==→eq (missing s.words) 0 e))
    | inr e ↦ rw e (
        round_first (suc n) s _ _ (==→ne (missing s.words) 0 e) refl
        ∙ after_tables-given n s (tables_of s.words s.buddy))
  ]

  finish_code : (r : Fill) (s s' : Machine) (code : ℕ) → finish s r ≡ returned code s' → code ≡ 0
  finish_code no_table s s' code e = absurd (cc e)
  finish_code not_ended s s' code e = absurd (cc e)
  finish_code (filled m) s s' code e = sym (ap code_of e)

  finish_ends : (r : Fill) (s : Machine) → is_exhausted (finish s r) ≡ false
  finish_ends no_table s = refl
  finish_ends not_ended s = refl
  finish_ends (filled m) s = refl

  given_ends : (s : Machine) (t : Option ℕ × Buddy) → is_exhausted (given s t) ≡ false
  given_ends s (none, b) = refl
  given_ends s (some q, b) = finish_ends _ (do_lock unlock (do_lock lock (looked s b)))

  pub settled_ends : (s : Machine) → is_exhausted (settled s) ≡ false
  settled_ends s = elim (Bool-cases (missing s.words == 0)) [
    | inl e ↦ rw e (finish_ends _ (do_lock unlock (do_lock lock s)))
    | inr e ↦ rw e (given_ends s (tables_of s.words s.buddy))
  ]

  -- An error gives the memory's block back, on another screen.
  abbrev Returned : Machine → Machine → Type 0
  Returned s s' =
      (s'.words ≡ s.words)
      × ((w : Vga) × (s'.buddy ≡ page_add_to_slot p none (record s.buddy { screen = w })))

  given-error :
      (s s' : Machine) (code : ℕ) (t : Option ℕ × Buddy)
      → IsValid s.buddy
      → tables_of s.words s.buddy ≡ t
      → given s t ≡ returned code s'
      → code ≢ 0
      → Returned s s'
  given-error s s' code (some q, b) v h e n =
      absurd (n (finish_code _ (do_lock unlock (do_lock lock (looked s b))) s' code e))
  given-error s s' code (none, b) v h e n =
      let kept = page_alloc-kept (npages_to_order (missing s.words)) s.buddy v b h in
      let same : record (do_lock unlock (looked s s.buddy)) { buddy = page_add_to_slot p none b }
          ≡ s' =
        ap (machine_of s) e in
      (
        sym (ap (λ (t : Machine). t.words) same),
        (
          kept.0,
          sym (ap (λ (t : Machine). t.buddy) same) ∙ ap (page_add_to_slot p none) (sym kept.1),
        ),
      )

  pub settled-error :
      (s s' : Machine) (code : ℕ)
      → IsValid s.buddy
      → settled s ≡ returned code s'
      → code ≢ 0
      → Returned s s'
  settled-error s s' code v e n = elim (Bool-cases (missing s.words == 0)) [
    | inl none_missing ↦
        absurd (n (finish_code _ (do_lock unlock (do_lock lock s)) s' code (rw none_missing at e)))
    | inr some_missing ↦
        given-error s s' code (tables_of s.words s.buddy) v refl (rw some_missing at e) n
  ]
