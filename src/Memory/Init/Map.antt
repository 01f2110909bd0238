-- ===== src/Memory/Init/Map.antt =====
-- memory.c, `mem_init`: the descriptors of the entries of the memory map.
use xis.Prelude.{
  ℕ, ◌+◌, ◌*◌, ◌/◌, ◌^◌, ◌≤◌, ◌<◌, ◌≡◌, refl, ap, ◌∙◌, Bool, false, not, ◌&&◌, ◌||◌, List, [], ◌∷◌,
  ltb, leb, ◌==◌, if◌then◌else◌, arith,
}
use xis.Memory.{Kpage}
use xis.Memory.Init.{E820Map, Kpages, mark_loop, entry_pages, entry_end, page_of}
use xis.Memory.Init.Marks.{marked, apply_range_lem, mark_loop-apply_range}

-- The map has usable memory in frame `f`.
abbrev pub usable_entry : E820Map → ℕ → Bool
usable_entry e f = e.type == 1 && leb (page_of e) (f * 4096) && ltb (f * 4096) (entry_end e)

unfoldable pub usable : List E820Map → ℕ → Bool
usable [] f = false
usable (e ∷ l) f = usable_entry e f || usable l f

-- The entries stand in order, share no page, and start and end within `nr_kpages` frames.
abbrev pub Fits : ℕ → E820Map → Type 0
Fits nr e = (e.base + e.length + 4096 ≤ 2 ^ 64) × (e.base / 4096 < nr) × (entry_end e ≤ nr * 4096)

abbrev pub IsSorted : ℕ → E820Map → List E820Map → Type 0
IsSorted nr e [] = Fits nr e
IsSorted nr e (next ∷ l) = Fits nr e × (entry_end e ≤ page_of next) × IsSorted nr next l

-- What the loop says of a frame of the map.
abbrev pub described : E820Map → List E820Map → ℕ → ℕ → Kpage → Kpage
described e l last f p = record p {
  reserved = not (usable (e ∷ l) f);
  kernel = usable (e ∷ l) f && leb (f * 4096) last;
}

pub entry_end_lem :
    (e : E820Map)
    → e.base + e.length + 4096 ≤ 2 ^ 64
    → (entry_end e ≡ page_of e + entry_pages e * 4096) × (page_of e + entry_pages e * 4096 < 2 ^ 64)
entry_end_lem e a = (omega arith, omega arith)

pub marked_lem :
    (e : E820Map) (last g : ℕ) (k : Kpages)
    → e.base + e.length + 4096 ≤ 2 ^ 64
    → mark_loop (entry_pages e) e.type last (page_of e) k g ≡ (
        if leb (page_of e) (g * 4096) && ltb (g * 4096) (entry_end e)
        then marked e.type last g (k g)
        else k g)
marked_lem e last g k a =
    let (end, small) = entry_end_lem e a in
    let same : (leb (e.base / 4096) g && ltb g (e.base / 4096 + entry_pages e))
        ≡ (leb (page_of e) (g * 4096) && ltb (g * 4096) (entry_end e)) =
      ground (arith, end) in
    ap (λ (t : Kpages). t g)
      (mark_loop-apply_range (entry_pages e) e.type last (e.base / 4096) k (omega (arith, small)))
    ∙ apply_range_lem (marked e.type last) (entry_pages e) (e.base / 4096) g k
    ∙ rw same refl

pub usable_before :
    (nr : ℕ) (e : E820Map) (l : List E820Map) (g : ℕ)
    → IsSorted nr e l
    → g * 4096 < page_of e
    → usable (e ∷ l) g ≡ false
unfolding usable
usable_before nr e [] g s b = ground arith
usable_before nr e (next ∷ l) g s b =
    let (end, small) = entry_end_lem e s.0.0 in
    let rest = usable_before nr next l g s.2 (omega (arith, s.1, end)) in
    let here : usable_entry e g ≡ false = ground arith in rw here rest
