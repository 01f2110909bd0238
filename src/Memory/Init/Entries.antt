-- ===== src/Memory/Init/Entries.antt =====
-- memory.c, `mem_init`: the descriptors behind the loop over the memory map.
use xis.Prelude.{
  ℕ, ◌+◌, ◌*◌, ◌/◌, ◌%◌, ◌≤◌, ◌≡◌, inl, inr, refl, ap, ◌∙◌, Bool, true, false, not, ◌&&◌, List, [],
  ◌∷◌, ltb, leb, ◌==◌, if◌then◌else◌, arith, Bool-cases,
}
use xis.Memory.{Kpage}
use xis.Memory.Init.{
  E820Map, Kpages, mark_loop, reserve_loop, entry_pages, entry_end, gap_pages, page_of, e820_loop,
}
use xis.Memory.Init.Marks.{marked, apply_range_lem, as_reserved, reserve_loop-apply_range}
use xis.Memory.Init.Map.{
  usable_entry, usable, IsSorted, described, entry_end_lem, marked_lem, usable_before,
}

-- The loop from the entry `e` on, where nothing is marked yet.
pub record Described (e : E820Map) (l : List E820Map) (last : ℕ) (k : Kpages) (r : Kpages × ℕ)
    : Type 0 where
  pub end_aligned : r.1 % 4096 ≡ 0
  pub end_above : page_of e ≤ r.1
  pub frames :
      (g : ℕ)
      → r.0 g ≡ (
          if leb (page_of e) (g * 4096) && ltb (g * 4096) r.1
          then described e l last g (k g)
          else k g)

abbrev pub Clean : ℕ → Kpages → Type 0
Clean addr k = (g : ℕ) → addr ≤ g * 4096 → ((k g).reserved ≡ false) × ((k g).kernel ≡ false)

marked-described :
    (e : E820Map) (l : List E820Map) (last g : ℕ) (p : Kpage)
    → usable l g ≡ false
    → leb (page_of e) (g * 4096) ≡ true
    → ltb (g * 4096) (entry_end e) ≡ true
    → p.reserved ≡ false
    → p.kernel ≡ false
    → marked e.type last g p ≡ described e l last g p
unfolding usable
marked-described e l last g p rest a b c d = elim (Bool-cases (e.type == 1)) [
  | inl t ↦
      let u : usable_entry e g ≡ true = rw (t, a, b) refl in
      elim (Bool-cases (leb (g * 4096) last)) [
        | inl low ↦ rw (u, t, low, c) refl
        | inr high ↦ rw (u, t, high, c, d) refl
      ]
  | inr t ↦ let u : usable_entry e g ≡ false = rw t refl in rw (u, t, rest, d) refl
]

module _ (nr last : ℕ) where
  last_entry :
      (e : E820Map) (k : Kpages)
      → IsSorted nr e []
      → Clean (page_of e) k
      → Described e [] last k (e820_loop (e ∷ []) nr last (page_of e) k)
  unfolding e820_loop usable
  last_entry e k s c =
      let (end, small) = entry_end_lem e s.0 in
      let guard : ltb (page_of e / 4096) nr ≡ true = ground arith in
      rw guard (record {
        end_aligned = omega (arith, end);
        end_above = omega (arith, end);
        frames = λ g.
            marked_lem e last g k s.0
            ∙ (elim (Bool-cases (leb (page_of e) (g * 4096) && ltb (g * 4096) (entry_end e))) [
              | inl here ↦
                  let above = c g (ground arith) in
                  rw here (
                    marked-described e [] last g (k g) refl (ground arith) (ground arith) above.0
                      above.1)
              | inr elsewhere ↦ rw elsewhere refl
            ]);
      })

  module _ (e next : E820Map) (l : List E820Map) (k : Kpages) (s : IsSorted nr e (next ∷ l))
      (c : Clean (page_of e) k) where
    abbrev gap : ℕ
    gap = gap_pages (entry_end e) next

    abbrev before_next : Kpages
    before_next =
        reserve_loop gap (entry_end e / 4096) (mark_loop (entry_pages e) e.type last (page_of e) k)

    abbrev whole : ℕ → Bool
    whole g = leb (page_of e) (g * 4096) && ltb (g * 4096) (page_of next)

    abbrev in_gap : ℕ → Bool
    in_gap g = leb (entry_end e) (g * 4096) && ltb (g * 4096) (page_of next)

    abbrev in_page : ℕ → Bool
    in_page g = leb (page_of e) (g * 4096) && ltb (g * 4096) (entry_end e)

    abbrev both : ℕ → Kpage
    both g =
        let p = if in_page g then marked e.type last g (k g) else k g in
        if in_gap g then as_reserved g p else p

    in_entry :
        (g : ℕ)
        → in_page g ≡ true
        → both g ≡ (if whole g then described e (next ∷ l) last g (k g) else k g)
    in_entry g here =
        let (end, small) = entry_end_lem e s.0.0 in
        let no_gap : in_gap g ≡ false = ground arith in
        let inside : whole g ≡ true = ground (arith, s.1) in
        let clean = c g (ground arith) in
        rw (here, no_gap, inside)
          (marked-described e (next ∷ l) last g (k g)
            (usable_before nr next l g s.2 (ground (arith, s.1))) (ground arith) (ground arith)
            clean.0 clean.1)

    behind_entry :
        (g : ℕ)
        → in_page g ≡ false
        → both g ≡ (if whole g then described e (next ∷ l) last g (k g) else k g)
    unfolding usable
    behind_entry g out =
        let (end, small) = entry_end_lem e s.0.0 in
        elim (Bool-cases (in_gap g)) [
          | inl gap ↦
              let inside : whole g ≡ true = ground (arith, end) in
              let clean = c g (ground (arith, end)) in
              let not_here : usable_entry e g ≡ false = ground arith in
              let later = usable_before nr next l g s.2 (ground arith) in
              rw (gap, out, inside, not_here, later, clean.1) refl
          | inr no_gap ↦
              let outside : whole g ≡ false = ground (arith, end, s.1) in
              rw (no_gap, out, outside) refl
        ]

    before_next_lem :
        (g : ℕ)
        → before_next g ≡ (
            if leb (page_of e) (g * 4096) && ltb (g * 4096) (page_of next)
            then described e (next ∷ l) last g (k g)
            else k g)
    before_next_lem g =
        let (end, small) = entry_end_lem e s.0.0 in
        let entry = mark_loop (entry_pages e) e.type last (page_of e) k in
        let in_gap : (leb (entry_end e / 4096) g && ltb g (entry_end e / 4096 + gap))
            ≡ (leb (entry_end e) (g * 4096) && ltb (g * 4096) (page_of next)) =
          ground (arith, end, s.1) in
        ap (λ (t : Kpages). t g) (reserve_loop-apply_range gap (entry_end e / 4096) entry)
        ∙ apply_range_lem as_reserved gap (entry_end e / 4096) g entry
        ∙ rw (in_gap, marked_lem e last g k s.0.0)
            (elim (Bool-cases (leb (page_of e) (g * 4096) && ltb (g * 4096) (entry_end e))) [
              | inl here ↦ in_entry g here
              | inr not ↦ behind_entry g not
            ])

    next-Clean : Clean (page_of next) before_next
    next-Clean g h =
        let (end, small) = entry_end_lem e s.0.0 in
        let out : (leb (page_of e) (g * 4096) && ltb (g * 4096) (page_of next)) ≡ false =
          ground arith in
        rw (before_next_lem g, out) (c g (omega (arith, s.1, end)))

    gap_end : entry_end e + gap * 4096 ≡ page_of next
    gap_end = let (end, small) = entry_end_lem e s.0.0 in omega (arith, s.1, end)

    -- Frames behind the entry are described by the rest of the map.
    described-next :
        (g : ℕ) (p : Kpage)
        → page_of next ≤ g * 4096
        → described next l last g p ≡ described e (next ∷ l) last g p
    unfolding usable
    described-next g p h =
        let behind : usable_entry e g ≡ false = ground (arith, s.1) in rw behind refl

    step_frame :
        (r : Kpages × ℕ)
        → Described next l last before_next r
        → (g : ℕ)
        → (if leb (page_of next) (g * 4096) && ltb (g * 4096) r.1
            then described next l last g (before_next g)
            else before_next g)
          ≡ (if leb (page_of e) (g * 4096) && ltb (g * 4096) r.1
              then described e (next ∷ l) last g (k g)
              else k g)
    step_frame r d g =
        let (end, small) = entry_end_lem e s.0.0 in
        let above = d.end_above in
        elim (Bool-cases (leb (page_of next) (g * 4096))) [
          | inl next_on ↦
              let out : whole g ≡ false = ground arith in
              let later : leb (page_of e) (g * 4096) ≡ true = ground (arith, end, s.1) in
              rw (next_on, later, before_next_lem g, out)
                (ap (λ t. if ltb (g * 4096) r.1 then t else k g)
                  (described-next g (k g) (ground arith)))
          | inr before ↦
              let same : ltb (g * 4096) r.1 ≡ ltb (g * 4096) (page_of next) = ground arith in
              rw (before, same) (before_next_lem g)
        ]

    step : (r : Kpages × ℕ) → Described next l last before_next r → Described e (next ∷ l) last k r
    step r d = record {
      end_aligned = d.end_aligned;
      end_above = let (end, small) = entry_end_lem e s.0.0 in omega (arith, s.1, end, d.end_above);
      frames = λ g. d.frames g ∙ step_frame r d g;
    }

  pub e820_loop_lem :
      (e : E820Map) (l : List E820Map) (k : Kpages)
      → IsSorted nr e l
      → Clean (page_of e) k
      → Described e l last k (e820_loop (e ∷ l) nr last (page_of e) k)
  unfolding e820_loop
  e820_loop_lem e [] k s c = last_entry e k s c
  e820_loop_lem e (next ∷ l) k s c =
      let guard : ltb (page_of e / 4096) nr ≡ true = ground (arith, s) in
      rw (guard, gap_end e next l k s c)
        (step e next l k s c _
          (e820_loop_lem next l (before_next e next l k s c) s.2 (next-Clean e next l k s c)))
