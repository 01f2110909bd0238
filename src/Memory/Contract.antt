-- ===== src/Memory/Contract.antt =====
-- memory.c: what `page_alloc` and `page_add_to_slot` promise their callers.
use xis.Prelude.{
  ℕ, suc, ◌+◌, ◌-◌, ◌*◌, ◌^◌, ◌≤◌, ◌<◌, ◌≡◌, ◌⊎◌, inl, inr, ◌↔◌, refl, ap, sym, ◌∙◌, true, Option,
  none, some, List, ◌∷◌, length, arith,
}
use mathlib.Core.Path.{subst₂}
use native.Mathlib.Decide.{dec_lt, dec_le}
use xis.Prelude.Text.{codes}
use xis.Vga.{Vga, print_vga}
use xis.Memory.{
  Buddy, max_alloc_order, page_add_to_slot, take_block, split_loop, last_of, alloc_loop, report,
  page_alloc, page_free_linear,
}
use xis.Memory.Blocks.{InBlock}
use xis.Memory.Invariant.{mem, Head, order_of, IsValid, IsFree, Loose, length-remove}
use xis.Memory.Add.{Joined, page_add_to_slot-Joined, add_loop-allocated}
use xis.Memory.Alloc.{Allocated, Outcome, alloc_loop-Outcome, mem-last_of}

pub IsValid-shown : (b : Buddy) (w : Vga) → IsValid b → IsValid (record b { screen = w })
IsValid-shown b w v = record {
  bounded = v.bounded;
  aligned = v.aligned;
  inside = v.inside;
  apart = v.apart;
  listed = v.listed;
  distinct = v.distinct;
  counted = v.counted;
}

Loose-shown : (b : Buddy) (w : Vga) (p o : ℕ) → Loose b p o → Loose (record b { screen = w }) p o
Loose-shown b w p o l = record {
  small = l.small;
  at_multiple = l.at_multiple;
  in_memory = l.in_memory;
  clear = l.clear;
}

In-cases : (p o f : ℕ) → InBlock p o f ⊎ (¬ InBlock p o f)
In-cases p o f = elim (dec_le p f) [
  | yes a ↦ elim (dec_lt f (p + 2 ^ o)) [ yes c ↦ inl (a, c) | no c ↦ inr (λ i. c i.1) ]
  | no a ↦ inr (λ i. a i.0)
]

report-Allocated :
    (n a order : ℕ) (b : Buddy) (r : Option ℕ × Buddy) (p : ℕ) (b' : Buddy)
    → Outcome n a order b r
    → report r ≡ (some p, b')
    → Allocated order b p b'
unfolding report
report-Allocated n a order b (some q, c) p b' h e =
    let same : q ≡ p = ground arith in
    subst₂ (λ x y. Allocated order b x y) same (ap (λ t. t.1) e) h
report-Allocated n a order b (none, c) p b' h e = absurd (cc (ap (λ (t : Option ℕ × Buddy). t.0) e))

report-none :
    (n a order : ℕ) (b : Buddy) (r : Option ℕ × Buddy)
    → Outcome n a order b r
    → IsValid b
    → (report r).0 ≡ none
    → (q : ℕ) → Head b q
    → a ≤ order_of b q
    → order_of b q < a + n
    → ⊥
unfolding report
report-none n a order b (some p, c) h v e q hq lo hi = absurd (cc e)
report-none n a order b (none, c) h v e q hq lo hi =
    ground (arith, h.1 (order_of b q) lo hi, v.listed q (order_of b q))

report-kept :
    (n a order : ℕ) (b : Buddy) (r : Option ℕ × Buddy) (b' : Buddy)
    → Outcome n a order b r
    → report r ≡ (none, b')
    → (w : Vga) × (record b { screen = w } ≡ b')
unfolding report
report-kept n a order b (some p, c) b' h e = absurd (cc (ap (λ (t : Option ℕ × Buddy). t.0) e))
report-kept n a order b (none, c) b' h e =
    let w = print_vga (codes "alloc failed\n") c.screen in
    (w, ap (λ (t : Buddy). record t { screen = w }) (sym h.0) ∙ ap (λ t. t.1) e)

report_some :
    (n a order : ℕ) (b : Buddy) (r : Option ℕ × Buddy)
    → Outcome n a order b r
    → ((q : ℕ) → Head b q → order_of b q < order)
    → (report r).0 ≡ none
unfolding report
report_some n a order b (some p, c) h few = absurd (omega (arith, few p h.source.0, h.source.1))
report_some n a order b (none, c) h few = refl

module _ (order : ℕ) (b : Buddy) (v : IsValid b) where
  searched :
      Outcome
        (suc max_alloc_order - order)
        order
        order
        b
        (alloc_loop (suc max_alloc_order - order) order order b)
  searched = alloc_loop-Outcome (suc max_alloc_order - order) order order b (omega arith) v

  -- An allocation that succeeds hands out the aligned block of `2 ^ order` frames from the returned
  -- one on: all of it was free, none of it is free any more, no other frame changes hands, the
  -- invariant holds, and the page descriptor has the requested order and the allocation mark.
  pub page_alloc-Allocated :
      (p : ℕ) (b' : Buddy) → page_alloc order b ≡ (some p, b') → Allocated order b p b'
  unfolding page_alloc
  page_alloc-Allocated p b' e = report-Allocated _ order order b _ p b' searched e

  -- The allocation fails exactly when no free block has the requested order or a larger one.
  pub page_alloc-none :
      ((page_alloc order b).0 ≡ none) ↔ ((q : ℕ) → Head b q → order_of b q < order)
  unfolding page_alloc
  page_alloc-none = (
    λ e q h. elim (dec_lt (order_of b q) order) [
      | yes lt ↦ lt
      | no ge ↦ absurd (
          report-none _ order order b _ searched v e q h (omega arith)
            (omega (arith, v.bounded q h)))
    ],
    λ few. report_some _ order order b _ searched few,
  )

  -- An allocation that fails changes nothing but the screen.
  pub page_alloc-kept :
      (b' : Buddy) → page_alloc order b ≡ (none, b') → (w : Vga) × (record b { screen = w } ≡ b')
  unfolding page_alloc
  page_alloc-kept b' e = report-kept _ order order b _ b' searched e

  -- An allocated block that is given back, whatever the screen shows by then.
  pub IsFree-return :
      (p : ℕ) (b' : Buddy) (w : Vga)
      → page_alloc order b ≡ (some p, b')
      → let after = page_add_to_slot p none (record b' { screen = w }) in
        IsValid after × ((f : ℕ) → IsFree after f ↔ IsFree b f)
  IsFree-return p b' w e = (joined.valid, λ f. (there f, back f))
    where
      done : Allocated order b p b'
      done = page_alloc-Allocated p b' e

      shown : Buddy
      shown = record b' { screen = w }

      joined : Joined shown p order (page_add_to_slot p none shown)
      joined = rw (done.marks.0) at (
          page_add_to_slot-Joined p none shown (IsValid-shown b' w done.valid)
            (rw (done.marks.0) (Loose-shown b' w p order done.block)))

      there : (f : ℕ) → IsFree (page_add_to_slot p none shown) f → IsFree b f
      there f h = elim ((joined.frames f).0 h) [
        | inl x ↦ ((done.frames f).0 x).0
        | inr i ↦ done.was_free f i
      ]

      back : (f : ℕ) → IsFree b f → IsFree (page_add_to_slot p none shown) f
      back f h = elim (In-cases p order f) [
        | inl i ↦ (joined.frames f).1 (inr i)
        | inr n ↦ (joined.frames f).1 (inl ((done.frames f).1 (h, n)))
      ]

  -- From a valid state: `page_add_to_slot` of the page that `page_alloc` returned leaves a valid
  -- state, in which exactly the frames from before the allocation are free.
  pub IsFree-alloc :
      (p : ℕ) (b' : Buddy)
      → page_alloc order b ≡ (some p, b')
      → IsValid (page_add_to_slot p none b')
        × ((f : ℕ) → IsFree (page_add_to_slot p none b') f ↔ IsFree b f)
  IsFree-alloc p b' e = IsFree-return p b' b'.screen e

-- For the linear address of frame `p`, which has KERNEL_VIRT_ADDR added, `page_free_linear` frees the
-- descriptor `2 ^ 19` behind that of the frame.
pub page_free_linear-far :
    (p : ℕ) (b : Buddy)
    → page_free_linear (p * 4096 + 0x80000000) b ≡ page_add_to_slot (p + 2 ^ 19) none b
unfolding page_free_linear
page_free_linear-far p b = ap (λ q. page_add_to_slot q none b) (omega arith)

-- `page_add_to_slot` leaves the mark KPAGE_FLAGS_ALLOCATED of every page as it is, that of the page
-- it frees included.
pub free-allocated :
    (p q : ℕ) (b : Buddy)
    → ((page_add_to_slot p none b).kpages q).allocated ≡ (b.kpages q).allocated
unfolding page_add_to_slot
free-allocated p q b =
    add_loop-allocated (suc max_alloc_order - order_of b p) (order_of b p) p b.kpage_last b q

loop_exact :
    (n order q : ℕ) (l : List ℕ) (b : Buddy)
    → b.free_pages order ≡ q ∷ l
    → alloc_loop (suc n) order order b ≡ (some (last_of q l), take_block order (last_of q l) b)
unfolding alloc_loop split_loop
loop_exact n order q l b e =
    let none_left : order - order ≡ 0 = omega arith in rw (e, alloc_loop) (rw none_left)

alloc_exact :
    (order q : ℕ) (l : List ℕ) (b : Buddy)
    → order ≤ max_alloc_order
    → b.free_pages order ≡ q ∷ l
    → page_alloc order b ≡ (some (last_of q l), take_block order (last_of q l) b)
unfolding page_alloc report
alloc_exact order q l b le e =
    let some_left : suc max_alloc_order - order ≡ suc (max_alloc_order - order) = omega arith in
    rw (some_left, loop_exact (max_alloc_order - order) order q l b e)

take_counts :
    (order p : ℕ) (b : Buddy)
    → IsValid b
    → mem p (b.free_pages order) ≡ true
    → let b' = take_block order p b in
      (b'.free_pages_count order ≡ b.free_pages_count order)
      × (length (b'.free_pages order) + 1 ≡ length (b.free_pages order))
unfolding take_block
take_counts order p b v m = (refl, length-remove p (b.free_pages order) (v.distinct order) m)

-- `page_alloc` takes an entry out of the list of the requested order, where there is one, and does
-- not count down `free_pages_count`.
pub alloc-count :
    (order q : ℕ) (l : List ℕ) (b : Buddy)
    → IsValid b
    → order ≤ max_alloc_order
    → b.free_pages order ≡ q ∷ l
    → let b' = (page_alloc order b).1 in
      (b'.free_pages_count order ≡ b.free_pages_count order)
      × (length (b'.free_pages order) + 1 ≡ length (b.free_pages order))
alloc-count order q l b v le e =
    rw (alloc_exact order q l b le e) (take_counts order (last_of q l) b v (rw e (mem-last_of q l)))
