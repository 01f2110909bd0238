-- ===== src/Memory/Alloc.antt =====
-- memory.c, `page_alloc`: which frames change hands.
use xis.Prelude.{
  ℕ, zero, suc, ◌+◌, ◌-◌, ◌≤◌, ◌<◌, ◌≡◌, ◌⊎◌, inl, inr, ◌↔◌, refl, ◌∙◌, true, Option, none, some,
  List, [], ◌∷◌, arith, ==_refl,
}
use native.Mathlib.Decide.{dec_lt}
use xis.Memory.{Buddy, take_block, split_loop, last_of, alloc_loop}
use xis.Memory.Blocks.{InBlock}
use xis.Memory.Invariant.{mem, Head, order_of, IsValid, IsFree, Loose}
use xis.Memory.Take.{take_marks, take-IsValid, take-Loose, IsFree-take}
use xis.Memory.Split.{Carved, pow_le, split_loop-Carved}

-- The block of `2 ^ order` frames from `p` on has been handed out: it is the lower end of a free
-- block, it is free no more,
-- no other frame has changed, and its descriptor says so.
pub record Allocated (order : ℕ) (b : Buddy) (p : ℕ) (b' : Buddy) : Type 0 where
  pub valid : IsValid b'
  pub source : Head b p × (order ≤ order_of b p)
  pub was_free : (f : ℕ) → InBlock p order f → IsFree b f
  pub frames : (f : ℕ) → IsFree b' f ↔ (IsFree b f × (¬ InBlock p order f))
  pub block : Loose b' p order
  pub marks : (order_of b' p ≡ order) × ((b'.kpages p).allocated ≡ true)

pub mem-last_of : (q : ℕ) (l : List ℕ) → mem (last_of q l) (q ∷ l) ≡ true
unfolding last_of
mem-last_of q [] = rw ==_refl
mem-last_of q (x ∷ l) = ground (arith, mem-last_of x l)

-- No frame of a loose block is free.
Loose-not-IsFree : (b : Buddy) (p o f : ℕ) → Loose b p o → InBlock p o f → ¬ IsFree b f
Loose-not-IsFree b p o f l i (q, h, j) = omega (arith, l.clear q h)

module _ (order p : ℕ) (b : Buddy) (v : IsValid b) (h : Head b p) (d : ℕ)
    (e : order + d ≡ order_of b p) where
  abbrev out : Buddy
  out = split_loop d order p (take_block order p b)

  carved : Carved (take_block order p b) p order d out
  carved =
      split_loop-Carved d order p (take_block order p b) (take-IsValid order p b v h)
        (rw e (take-Loose order p b v h))

  to_old : (f : ℕ) → IsFree out f → IsFree b f
  to_old f g = elim ((carved.frames f).0 g) [
    | inl x ↦ (IsFree-take order p b v h f).1 (inl x)
    | inr r ↦ (IsFree-take order p b v h f).1 (inr (rw (← e) (ground arith)))
  ]

  from_old : (f : ℕ) → IsFree b f → ¬ InBlock p order f → IsFree out f
  from_old f g n = elim ((IsFree-take order p b v h f).0 g) [
    | inl x ↦ (carved.frames f).1 (inl x)
    | inr i ↦ let j : InBlock p (order + d) f = rw e i in (carved.frames f).1 (inr (ground arith))
  ]

  take-Allocated : Allocated order b p out
  take-Allocated = record {
    valid = carved.valid;
    source = (h, omega (arith, e));
    was_free = λ f i. (p, h, rw (← e) (i.0, omega (arith, i, pow_le order d)));
    frames = λ f. (
      λ g. (to_old f g, λ i. Loose-not-IsFree out p order f carved.lower i g),
      λ g. from_old f g.0 g.1,
    );
    block = carved.lower;
    marks = (
      carved.marks.0 ∙ (take_marks order p b v h).0,
      carved.marks.1 ∙ (take_marks order p b v h).1,
    );
  }

-- What a search of the orders from `a` on, `n` of them, may end in.
abbrev pub Outcome : ℕ → ℕ → ℕ → Buddy → Option ℕ × Buddy → Type 0
Outcome n a order b (some p, b') = Allocated order b p b'
Outcome n a order b (none, b') = (b' ≡ b) × ((k : ℕ) → a ≤ k → k < a + n → b.free_pages k ≡ [])

pub List-cases : (l : List ℕ) → (l ≡ []) ⊎ ((q : ℕ) × (r : List ℕ) × (l ≡ q ∷ r))
List-cases [] = inl refl
List-cases (q ∷ r) = inr (q, r, refl)

-- The entry that is taken is the head of a free block of the order of its list.
listed-Head :
    (b : Buddy) (a q : ℕ) (r : List ℕ)
    → IsValid b
    → b.free_pages a ≡ q ∷ r
    → Head b (last_of q r) × (order_of b (last_of q r) ≡ a)
listed-Head b a q r v e = ground (arith, v.listed (last_of q r) a, there)
  where
    there : mem (last_of q r) (b.free_pages a) ≡ true
    there = rw e (mem-last_of q r)

empty_step :
    (n a order : ℕ) (b : Buddy) (r : Option ℕ × Buddy)
    → b.free_pages a ≡ []
    → Outcome n (a + 1) order b r
    → Outcome (suc n) a order b r
empty_step n a order b (some p, b') e h = h
empty_step n a order b (none, b') e h = (
  h.0,
  λ k lo hi. elim (dec_lt a k) [
    | yes more ↦ h.1 k (omega arith) (omega arith)
    | no same ↦ let here : k ≡ a = omega arith in rw here e
  ],
)

pub alloc_loop-Outcome :
    (n a order : ℕ) (b : Buddy)
    → order ≤ a
    → IsValid b
    → Outcome n a order b (alloc_loop n a order b)
unfolding alloc_loop
alloc_loop-Outcome zero a order b le v = (refl, λ k lo hi. absurd (omega arith))
alloc_loop-Outcome (suc n) a order b le v = elim (List-cases (b.free_pages a)) [
  | inl e ↦
      let ih = alloc_loop-Outcome n (a + 1) order b (omega arith) v in
      rw (e, alloc_loop) (empty_step n a order b (alloc_loop n (a + 1) order b) e ih)
  | inr (q, r, e) ↦
      let found = listed-Head b a q r v e in
      rw (e, alloc_loop)
        (take-Allocated order (last_of q r) b v found.0 (a - order) (omega (arith, found.1)))
]
