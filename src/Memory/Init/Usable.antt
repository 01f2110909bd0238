-- ===== src/Memory/Init/Usable.antt =====
-- memory.c, `mem_init`: which frames are free behind it, by the memory map.

use xis.Prelude.{
  ℕ, ◌-◌, ◌*◌, ◌/◌, ◌%◌, ◌≤◌, ◌<◌, ◌≡◌, ◌↔◌, inl, inr, refl, ap, sym, ◌∙◌, Bool, true, false, not,
  ◌&&◌, List, [], ◌∷◌, ltb, leb, if◌then◌else◌, arith, Bool-cases,
}
use xis.Memory.{Kpage, Buddy, kpage_is_free}
use xis.Memory.Invariant.{IsValid, IsFree}
use xis.Page32.{Words}
use xis.Memory.Init.{
  E820Map, Kpages, zero_kpage, page_of, e820_loop, mark_system, describe, set_up_pages,
}
use xis.Memory.Init.Frames.{Given, free_loop_lem}
use xis.Memory.Init.Marks.{}
use xis.Memory.Init.Map.{usable, IsSorted, described}
use xis.Memory.Init.Entries.{Described, e820_loop_lem}
use xis.Memory.Init.System.{system, mark_system-Marked}

spare_parts :
    (a b c : Bool) → (not a && (b && not c)) ≡ true → (a ≡ false) × ((b ≡ true) × (c ≡ false))
spare_parts true b c e = absurd (cc e)
spare_parts false false c e = absurd (cc e)
spare_parts false true true e = absurd (cc e)
spare_parts false true false e = (refl, (refl, refl))

described_free :
    (e : E820Map) (l : List E820Map) (last g : ℕ)
    → kpage_is_free (described e l last g zero_kpage)
      ≡ (usable (e ∷ l) g && not (leb (g * 4096) last))
unfolding kpage_is_free
described_free e l last g = elim (Bool-cases (usable (e ∷ l) g)) [
  | inl u ↦ elim (Bool-cases (leb (g * 4096) last)) [
    | inl d ↦ rw (u, d) refl
    | inr d ↦ rw (u, d) refl
  ]
  | inr u ↦ rw u refl
]

module _ (table init_ap_size nr last : ℕ) (e : E820Map) (l : List E820Map)
    (sorted : IsSorted nr e l) (low : e.base < 4096) where
  abbrev looped : Kpages × ℕ
  looped = e820_loop (e ∷ l) nr last (page_of e) (λ _. zero_kpage)

  abbrev pages : Kpages
  pages = mark_system init_ap_size looped.0

  -- The address that the map ends at.
  abbrev map_end : ℕ
  map_end = looped.1

  loop-Described : Described e l last (λ _. zero_kpage) looped
  loop-Described = e820_loop_lem nr last e l (λ _. zero_kpage) sorted (λ g h. (refl, refl))

  looped_frame :
      (g : ℕ)
      → looped.0 g
        ≡ (if ltb (g * 4096) map_end then described e l last g zero_kpage else zero_kpage)
  looped_frame g =
      let from_zero : leb (page_of e) (g * 4096) ≡ true = ground arith in
      loop-Described.frames g ∙ rw from_zero refl

  none_listed : (g : ℕ) → (pages g).free_buddy ≡ false
  none_listed g =
      (mark_system-Marked init_ap_size g looped.0).1
      ∙ ap (λ (t : Kpage). t.free_buddy) (looped_frame g)
      ∙ unlisted (ltb (g * 4096) map_end)
    where
      unlisted :
          (c : Bool)
          → (if c then described e l last g zero_kpage else zero_kpage).free_buddy ≡ false
      unlisted true = refl
      unlisted false = refl

  -- The frames that `mem_init` leaves to the allocator.
  abbrev spare : ℕ → Bool
  spare f = not (system init_ap_size f) && (usable (e ∷ l) f && not (leb (f * 4096) last))

  pages_free : (g : ℕ) → ltb (g * 4096) map_end ≡ true → kpage_is_free (pages g) ≡ spare g
  pages_free g h =
      (mark_system-Marked init_ap_size g looped.0).0
      ∙ ap (λ t. not (system init_ap_size g) && kpage_is_free t) (looped_frame g)
      ∙ rw h (ap (λ t. not (system init_ap_size g) && t) (described_free e l last g))

  aligned : map_end % 4096 ≡ 0
  aligned = loop-Described.end_aligned

  abbrev empty : Buddy → Buddy
  empty b = record b {
    kpages = pages;
    kpage_last = map_end / 4096 - 1;
    free_pages = λ _. [];
    free_pages_count = λ _. 0;
  }

  no_head : (q : ℕ) → ¬ ((pages q).free_buddy ≡ true)
  no_head q h = cc (h, none_listed q)

  start : (b : Buddy) → Given pages (map_end / 4096 - 1) 0 (empty b)
  start b = record {
    valid = record {
      bounded = λ q h. absurd (no_head q h);
      aligned = λ q h. absurd (no_head q h);
      inside = λ q h. absurd (no_head q h);
      apart = λ q r h h' n. absurd (no_head q h);
      listed = λ q o. rw (none_listed q) refl;
      distinct = λ o. tt;
      counted = λ o. omega arith;
    };
    frames = λ f. (λ (q, h, i). absurd (no_head q h), λ h. absurd (omega (arith, h.0)));
    ahead = λ q h. refl;
    end = refl;
  }

  abbrev Spare : ℕ → Type 0
  Spare f =
      (f * 4096 < map_end)
      × (usable (e ∷ l) f ≡ true)
      × (last < f * 4096)
      × (system init_ap_size f ≡ false)

  to_Spare : (f : ℕ) → f * 4096 < map_end → kpage_is_free (pages f) ≡ true → Spare f
  to_Spare f below free =
      let (kept, (used, high)) = spare_parts _ _ _ (sym (pages_free f (ground arith)) ∙ free) in
      (below, used, ground (arith, high), kept)

  from_Spare : (f : ℕ) → Spare f → kpage_is_free (pages f) ≡ true
  from_Spare f h =
      let (below, used, high, kept) = h in
      let above : leb (f * 4096) last ≡ false = ground arith in
      pages_free f (ground arith) ∙ rw (kept, used, above) refl

  -- For a memory map from address 0 on whose entries stand in order and share no page: `mem_init`
  -- leaves the allocator valid, and its free frames are exactly those of usable memory behind the
  -- kernel's data that are not kept for the kernel and the BIOS.
  pub set_up_pages_lem :
      (b : Buddy) (m : Words)
      → 4096 ≤ map_end
      → let after = (set_up_pages table init_ap_size nr last e l b m).0 in
        IsValid after
        × ((f : ℕ)
            → IsFree after f ↔ (
                (f * 4096 < map_end)
                × (usable (e ∷ l) f ≡ true)
                × (last < f * 4096)
                × (system init_ap_size f ≡ false)))
  unfolding set_up_pages describe
  set_up_pages_lem b m some_pages =
      let done =
        free_loop_lem pages none_listed (map_end / 4096 - 1) (map_end / 4096) table 0 (empty b) m
          (start b) (omega arith) in
      (
        done.valid,
        λ f. (
          λ h.
              let (below, free) = (done.frames f).0 h in
              to_Spare f (omega (arith, aligned, some_pages, below)) free,
          λ h. (done.frames f).1 (omega (arith, aligned, h.0), from_Spare f h),
        ),
      )
