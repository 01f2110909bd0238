-- ===== src/Memory/Invariant.antt =====
-- memory.c, buddy allocator: the invariant, and the frames that a state has free.
use xis.Prelude.{
  ℕ, suc, ◌+◌, ◌^◌, ◌≤◌, ◌≡◌, ◌≢◌, refl, Bool, true, false, ◌&&◌, List, [], ◌∷◌, ◌++◌, ◌==◌,
  if◌then◌else◌, length, arith,
}
use xis.Memory.{Buddy, max_alloc_order, remove}
use xis.Memory.Blocks.{InBlock, Apart, IsAligned}

abbrev pub mem : ℕ → List ℕ → Bool
mem p [] = false
mem p (q ∷ l) = if q == p then true else mem p l

abbrev pub Distinct : List ℕ → Type 0
Distinct [] = Unit
Distinct (q ∷ l) = (mem q l ≡ false) × Distinct l

-- Frame `p` is the first of a free block.
abbrev pub Head : Buddy → ℕ → Type 0
Head b p = (b.kpages p).free_buddy ≡ true

abbrev pub order_of : Buddy → ℕ → ℕ
order_of b p = (b.kpages p).order

-- The free blocks are aligned, lie in the memory and do not overlap; the lists hold exactly the
-- heads, by order and once each; the counters do not fall behind the lists.
pub record IsValid (b : Buddy) : Type 0 where
  pub bounded : (p : ℕ) → Head b p → order_of b p ≤ max_alloc_order
  pub aligned : (p : ℕ) → Head b p → IsAligned p (order_of b p)
  pub inside : (p : ℕ) → Head b p → p + 2 ^ order_of b p ≤ suc b.kpage_last
  pub apart : (p q : ℕ) → Head b p → Head b q → p ≢ q → Apart p (order_of b p) q (order_of b q)
  pub listed : (p o : ℕ) → mem p (b.free_pages o) ≡ ((b.kpages p).free_buddy && order_of b p == o)
  pub distinct : (o : ℕ) → Distinct (b.free_pages o)
  pub counted : (o : ℕ) → length (b.free_pages o) ≤ b.free_pages_count o

-- Frame `f` lies in a free block.
abbrev pub IsFree : Buddy → ℕ → Type 0
IsFree b f = (q : ℕ) × Head b q × InBlock q (order_of b q) f

-- A block that is not free and overlaps no free block.
pub record Loose (b : Buddy) (p o : ℕ) : Type 0 where
  pub small : o ≤ max_alloc_order
  pub at_multiple : IsAligned p o
  pub in_memory : p + 2 ^ o ≤ suc b.kpage_last
  pub clear : (q : ℕ) → Head b q → Apart p o q (order_of b q)

pub mem-remove : (p q : ℕ) (l : List ℕ) → mem q (remove p l) ≡ (if p == q then false else mem q l)
unfolding remove
mem-remove p q [] = ground arith
mem-remove p q (x ∷ l) = ground (arith, mem-remove p q l)

pub mem-append : (q p : ℕ) (l : List ℕ) → mem q (l ++ (p ∷ [])) ≡ (if p == q then true else mem q l)
mem-append q p [] = refl
mem-append q p (x ∷ l) = ground (arith, mem-append q p l)

pub remove-Distinct : (p : ℕ) (l : List ℕ) → Distinct l → Distinct (remove p l)
unfolding remove
remove-Distinct p [] d = tt
remove-Distinct p (x ∷ l) d = ground (arith, remove-Distinct p l, mem-remove p x l)

pub append-Distinct : (p : ℕ) (l : List ℕ) → mem p l ≡ false → Distinct l → Distinct (l ++ (p ∷ []))
append-Distinct p [] n d = ground arith
append-Distinct p (x ∷ l) n d = ground (arith, append-Distinct p l, mem-append x p l)

pub remove_absent : (p : ℕ) (l : List ℕ) → mem p l ≡ false → remove p l ≡ l
unfolding remove
remove_absent p [] n = refl
remove_absent p (x ∷ l) n = ground (arith, remove_absent p l)

-- An entry that is there once makes the list one shorter.
pub length-remove :
    (p : ℕ) (l : List ℕ) → Distinct l → mem p l ≡ true → length (remove p l) + 1 ≡ length l
unfolding remove
length-remove p [] d m = cc
length-remove p (x ∷ l) d m = ground (arith, length-remove p l, remove_absent p l)
