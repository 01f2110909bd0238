-- ===== src/Memory/Split.antt =====
-- memory.c, `page_alloc`: the upper halves of the block that was taken are given back.
use xis.Prelude.{
  ℕ, zero, suc, ◌+◌, ◌-◌, ◌^◌, ◌≤◌, ◌<◌, ◌≡◌, ◌⊎◌, inl, inr, ◌↔◌, refl, ◌∙◌, ap, false, none, arith,
}
use native.Mathlib.Nat.{pow-suc, add-zero}
use native.Mathlib.Decide.{dec_lt}
use xis.Memory.{Buddy, max_alloc_order, buddy_of, page_add_to_slot, split_half, split_loop}
use xis.Memory.Blocks.{InBlock, Apart, pow_pos, lower_half, overlap}
use xis.Memory.Invariant.{Head, order_of, IsValid, IsFree, Loose}
use xis.Memory.Insert.{loose_not_head}
use xis.Memory.Mark.{mark, unmarked, mark-IsValid, IsFree-mark}
use xis.Memory.Add.{
  Joined, page_add_to_slot-Joined, add_loop-order, add_loop-allocated, add_loop-last,
}

-- What one round of the split leaves: the lower half, and the upper half among the free frames.
pub record Halved (b : Buddy) (p o : ℕ) (b' : Buddy) : Type 0 where
  pub valid : IsValid b'
  pub lower : Loose b' p o
  pub frames : (f : ℕ) → IsFree b' f ↔ (IsFree b f ⊎ InBlock (p + 2 ^ o) o f)
  pub marks : (order_of b' p ≡ order_of b p) × ((b'.kpages p).allocated ≡ (b.kpages p).allocated)
  pub last : b'.kpage_last ≡ b.kpage_last

module _ (o p : ℕ) (b : Buddy) (v : IsValid b) (l : Loose b p (suc o)) where
  buddy-upper : buddy_of p o ≡ p + 2 ^ o
  buddy-upper = (lower_half p o l.at_multiple).0

  -- The upper half overlaps no free block either.
  upper-clear : (r : ℕ) → Head b r → Apart (p + 2 ^ o) o r (order_of b r)
  upper-clear r h = ground (arith, l.clear r h, pow-suc 2 o, pow_pos o)

  upper-Loose : Loose b (p + 2 ^ o) o
  upper-Loose = record {
    small = omega (arith, l.small);
    at_multiple = (lower_half p o l.at_multiple).2;
    in_memory = omega (arith, l.in_memory, pow-suc 2 o);
    clear = upper-clear;
  }

  upper_not_head : (b.kpages (p + 2 ^ o)).free_buddy ≡ false
  upper_not_head = loose_not_head b (p + 2 ^ o) o v upper-Loose

  abbrev marked : Buddy
  marked = mark b (p + 2 ^ o) o false

  abbrev halved : Buddy
  halved = page_add_to_slot (p + 2 ^ o) none marked

  split_half_lem : split_half o p b ≡ halved
  unfolding split_half
  split_half_lem = ap (λ t. page_add_to_slot t none (mark b t o false)) buddy-upper

  marked-order : order_of marked (p + 2 ^ o) ≡ o
  marked-order = ground arith

  marked-Loose : Loose marked (p + 2 ^ o) o
  marked-Loose = record {
    small = omega (arith, l.small);
    at_multiple = upper-Loose.at_multiple;
    in_memory = upper-Loose.in_memory;
    clear = λ r h.
        let u = unmarked b (p + 2 ^ o) o false upper_not_head r h in rw (u.1) (upper-clear r u.0);
  }

  half-Joined : Joined marked (p + 2 ^ o) o halved
  half-Joined = rw marked-order at (
      page_add_to_slot-Joined (p + 2 ^ o) none marked
        (mark-IsValid b (p + 2 ^ o) o false upper_not_head v) (rw marked-order marked-Loose))

  half_frames : (f : ℕ) → IsFree halved f ↔ (IsFree b f ⊎ InBlock (p + 2 ^ o) o f)
  half_frames f = (
    λ h. elim ((half-Joined.frames f).0 h) [
      | inl old ↦ inl ((IsFree-mark b (p + 2 ^ o) o false upper_not_head f).0 old)
      | inr new ↦ inr new
    ],
    elim [
      | inl old ↦
          (half-Joined.frames f).1
            (inl ((IsFree-mark b (p + 2 ^ o) o false upper_not_head f).1 old))
      | inr new ↦ (half-Joined.frames f).1 (inr new)
    ],
  )

  half_last : halved.kpage_last ≡ b.kpage_last
  unfolding page_add_to_slot
  half_last = add_loop-last _ _ (p + 2 ^ o) _ marked

  -- No frame of the lower half is free, hence no free block overlaps it.
  lower_not-IsFree : (f : ℕ) → InBlock p o f → ¬ IsFree halved f
  lower_not-IsFree f i h = elim ((half_frames f).0 h) [
    | inl (r, hr, ir) ↦ omega (arith, l.clear r hr, pow-suc 2 o)
    | inr new ↦ omega arith
  ]

  lower-Loose : Loose halved p o
  lower-Loose = record {
    small = omega (arith, l.small);
    at_multiple = (lower_half p o l.at_multiple).1;
    in_memory = rw half_last (omega (arith, l.in_memory, pow-suc 2 o));
    clear = λ r h. elim (overlap p o r (order_of halved r)) [
      | inl a ↦ a
      | inr (f, mine, yours) ↦ absurd (lower_not-IsFree f mine (r, h, yours))
    ];
  }

  half_marks :
      (order_of halved p ≡ order_of b p) × ((halved.kpages p).allocated ≡ (b.kpages p).allocated)
  unfolding page_add_to_slot
  half_marks = (
    ground (
      arith,
      add_loop-order (suc max_alloc_order - order_of marked (p + 2 ^ o))
          (order_of marked (p + 2 ^ o)) (p + 2 ^ o) b.kpage_last marked p,
      loose_not_head halved p o half-Joined.valid lower-Loose,
      pow_pos o,
    ),
    ground (
      arith,
      add_loop-allocated (suc max_alloc_order - order_of marked (p + 2 ^ o))
          (order_of marked (p + 2 ^ o)) (p + 2 ^ o) b.kpage_last marked p,
      pow_pos o,
    ),
  )

  pub split_half-Halved : Halved b p o (split_half o p b)
  split_half-Halved = rw split_half_lem (record {
    valid = half-Joined.valid;
    lower = lower-Loose;
    frames = half_frames;
    marks = half_marks;
    last = half_last;
  })

-- What the whole loop leaves: the block of order `o` is out, the rest of the block of order `o + d`
-- is free.
pub record Carved (b : Buddy) (p o d : ℕ) (b' : Buddy) : Type 0 where
  pub valid : IsValid b'
  pub lower : Loose b' p o
  pub frames : (f : ℕ) → IsFree b' f ↔ (IsFree b f ⊎ ((p + 2 ^ o ≤ f) × (f < p + 2 ^ (o + d))))
  pub marks : (order_of b' p ≡ order_of b p) × ((b'.kpages p).allocated ≡ (b.kpages p).allocated)
  pub last : b'.kpage_last ≡ b.kpage_last

pub pow_le : (o d : ℕ) → 2 ^ o ≤ 2 ^ (o + d)
pow_le o zero = rw add-zero (omega arith)
pow_le o (suc d) =
    let e : o + suc d ≡ suc (o + d) = omega arith in
    rw e (omega (arith, pow_le o d, pow-suc 2 (o + d)))

-- The two parts that the rounds free make up one range.
join_ranges :
    (p o d f : ℕ)
    → (InBlock (p + 2 ^ (o + d)) (o + d) f ⊎ ((p + 2 ^ o ≤ f) × (f < p + 2 ^ (o + d))))
      ↔ ((p + 2 ^ o ≤ f) × (f < p + 2 ^ suc (o + d)))
join_ranges p o d f = (
  λ h. ground (arith, h, pow_le o d, pow-suc 2 (o + d)),
  λ h. ground (arith, h, pow_le o d, pow-suc 2 (o + d), dec_lt f (p + 2 ^ (o + d))),
)

empty_range : (p o f : ℕ) → ¬ ((p + 2 ^ o ≤ f) × (f < p + 2 ^ (o + 0)))
empty_range p o f = rw add-zero (λ r. omega arith)

-- One round, and the rounds behind it.
Halved-Carved :
    {b b' b'' : Buddy} (d o p : ℕ)
    → Halved b p (o + d) b'
    → Carved b' p o d b''
    → Carved b p o (suc d) b''
Halved-Carved {b} {b'} {b''} d o p half rest = record {
  valid = rest.valid;
  lower = rest.lower;
  frames = λ f. rw next (there f, back f);
  marks = (rest.marks.0 ∙ half.marks.0, rest.marks.1 ∙ half.marks.1);
  last = rest.last ∙ half.last;
}
  where
    next : o + suc d ≡ suc (o + d)
    next = omega arith

    there : (f : ℕ) → IsFree b'' f → IsFree b f ⊎ ((p + 2 ^ o ≤ f) × (f < p + 2 ^ suc (o + d)))
    there f h = elim ((rest.frames f).0 h) [
      | inl h' ↦ elim ((half.frames f).0 h') [
        | inl old ↦ inl old
        | inr i ↦ inr ((join_ranges p o d f).0 (inl i))
      ]
      | inr r ↦ inr ((join_ranges p o d f).0 (inr r))
    ]

    back : (f : ℕ) → IsFree b f ⊎ ((p + 2 ^ o ≤ f) × (f < p + 2 ^ suc (o + d))) → IsFree b'' f
    back f (inl old) = (rest.frames f).1 (inl ((half.frames f).1 (inl old)))
    back f (inr r) = elim ((join_ranges p o d f).1 r) [
      | inl i ↦ (rest.frames f).1 (inl ((half.frames f).1 (inr i)))
      | inr r' ↦ (rest.frames f).1 (inr r')
    ]

pub split_loop-Carved :
    (d o p : ℕ) (b : Buddy) → IsValid b → Loose b p (o + d) → Carved b p o d (split_loop d o p b)
unfolding split_loop
split_loop-Carved zero o p b v l = record {
  valid = v;
  lower = rw add-zero at l;
  frames = λ f. (λ h. inl h, elim [ inl h ↦ h | inr r ↦ absurd (empty_range p o f r) ]);
  marks = (refl, refl);
  last = refl;
}
split_loop-Carved (suc d) o p b v l =
    let next : o + suc d ≡ suc (o + d) = omega arith in
    let half = split_half-Halved (o + d) p b v (rw next at l) in
    Halved-Carved d o p half
      (split_loop-Carved d o p (split_half (o + d) p b) half.valid half.lower)
