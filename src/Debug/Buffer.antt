-- ===== src/Debug/Buffer.antt =====
-- debug.c: where `printf` writes.
use xis.Prelude.Maps.{update}
use xis.Prelude.{
  ℕ, ◌<◌, ◌≡◌, ◌^◌, refl, ap, ◌∙◌, List, [], ◌∷◌, leb, ◌==◌, arith, Bool-cases, inl, inr, ne→==,
  ==→ne,
}
use xis.Util.{Bytes}
use xis.Debug.{Debug, debug_buffer_size, show, write_to_buf, write_all, printf_text, printf}
use xis.Util.Format.{Scan, format_loop}

-- The write stays in the buffer and on the byte behind it.
record Inside (d : Debug) (s : ℕ × Debug) : Type 0 where
  pub at : s.0 < debug_buffer_size
  pub current : s.1.cur_debug_mem < debug_buffer_size
  pub behind : (a : ℕ) → debug_buffer_size < a → s.1.buffer a ≡ d.buffer a

show_buffer :
    (level : ℕ) (d : Debug)
    → ((show level d).buffer ≡ d.buffer) × ((show level d).cur_debug_mem ≡ d.cur_debug_mem)
show_buffer level d = elim (Bool-cases (leb d.debug_level_for_vga level)) [
  | inl e ↦ rw e (refl, refl)
  | inr e ↦ rw e (refl, refl)
]

write_to_buf-Inside :
    (level ch : ℕ) (d : Debug) (s : ℕ × Debug) → Inside d s → Inside d (write_to_buf level ch s)
unfolding write_to_buf
write_to_buf-Inside level ch d (addr, d1) i = elim (Bool-cases (addr == 4095)) [
  | inl e ↦ rw e (record {
    at = omega arith;
    current = omega arith;
    behind = λ a h.
        let nul = record d1 { buffer = update d1.buffer debug_buffer_size 0 } in
        rw (ne→== 0 a (λ q. omega (arith, q))) (
          ap (λ (t : Bytes). t a) (show_buffer level nul).0
          ∙ rw (ne→== debug_buffer_size a (λ q. omega (arith, q))) (i.behind a h));
  })
  | inr e ↦ rw e (record {
    at = let n = ==→ne addr 4095 e in omega (arith, n, i.at);
    current = i.current;
    behind = λ a h. rw (ne→== addr a (λ q. omega (arith, q, i.at))) (i.behind a h);
  })
]

write_all-Inside :
    (level : ℕ) (l : List ℕ) (d : Debug) (s : ℕ × Debug)
    → Inside d s
    → Inside d (write_all level l s)
unfolding write_all
write_all-Inside level [] d s i = i
write_all-Inside level (ch ∷ l) d s i =
    write_all-Inside level l d (write_to_buf level ch s) (write_to_buf-Inside level ch d s i)

printf_text_bounds :
    (level : ℕ) (fmt : List ℕ) (d : Debug)
    → d.cur_debug_mem < debug_buffer_size
    → ((printf_text level fmt d).cur_debug_mem < debug_buffer_size)
      × ((a : ℕ) → debug_buffer_size < a → (printf_text level fmt d).buffer a ≡ d.buffer a)
unfolding printf_text
printf_text_bounds level fmt d h =
    let start : Inside d (d.cur_debug_mem, d) = record {
      at = h;
      current = h;
      behind = λ a l. refl;
    } in
    let end =
      write_to_buf-Inside level 0 d _ (write_all-Inside level fmt d (d.cur_debug_mem, d) start) in
    (
      end.at,
      λ a l.
          ap (λ (t : Bytes). t a)
            (show_buffer level
              (write_to_buf level 0 (write_all level fmt (d.cur_debug_mem, d))).1).0
          ∙ end.behind a l,
    )

-- With the current place in the buffer, and whatever the format and its arguments are, `printf`
-- leaves it there, and writes no byte further than the first one behind the buffer.
pub printf_bounds :
    (level fmt : ℕ) (s : Scan) (m : Bytes) (d : Debug)
    → d.cur_debug_mem < debug_buffer_size
    → ((printf level fmt s m d).cur_debug_mem < debug_buffer_size)
      × ((a : ℕ) → debug_buffer_size < a → (printf level fmt s m d).buffer a ≡ d.buffer a)
unfolding printf
printf_bounds level fmt s m d h = printf_text_bounds level (format_loop (2 ^ 32) m fmt s) d h
