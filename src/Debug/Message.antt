-- ===== src/Debug/Message.antt =====
-- debug.c: a message that fits into the buffer of `printf`.
use xis.Prelude.Maps.{update}
use xis.Prelude.{
  ℕ, ◌+◌, ◌%◌, ◌^◌, ◌<◌, ◌⊎◌, ◌≡◌, refl, ap, ◌∙◌, List, [], ◌∷◌, ◌++◌, length, leb, if◌then◌else◌,
  arith, Bool-cases, inl, inr, ne→==,
}
use xis.Util.{Bytes}
use xis.Util.Format.{Scan}
use xis.Util.Format.Items.{Item, IsText, Holds, AreItems, format, arguments, expand}
use xis.Util.Format.Texts.{string_at-Holds, expand-IsText}
use xis.Util.Format.Steps.{format_loop_lem}
use xis.Util.Format.Expand.{store_string, store_string_lem}
use xis.Vga.{print_vga}
use xis.Debug.{Debug, write_to_buf, write_all, printf_text, printf}

-- Before the last byte of the buffer a byte is stored.
write_room :
    (level ch addr : ℕ) (d : Debug)
    → addr < 4095
    → ch < 256
    → write_to_buf level ch (addr, d) ≡ (addr + 1, record d { buffer = update d.buffer addr ch })
unfolding write_to_buf
write_room level ch addr d h l =
    let same : ch % 256 ≡ ch = omega arith in rw (ne→== addr 4095 (λ e. omega arith), same) refl

write_text :
    (l : List ℕ) (level addr : ℕ) (d : Debug)
    → IsText l
    → addr + length l < 4095
    → write_to_buf level 0 (write_all level l (addr, d))
      ≡ (addr + length l + 1, record d { buffer = store_string addr l d.buffer })
unfolding write_all store_string
write_text [] level addr d t h =
    write_room level 0 addr d (omega arith) (omega arith)
    ∙ ap (λ n. (n, record d { buffer = update d.buffer addr 0 })) (omega arith)
write_text (c ∷ l) level addr d (pos, small, t) h =
    ap (λ s. write_to_buf level 0 (write_all level l s))
      (write_room level c addr d (omega arith) small)
    ∙ write_text l level (addr + 1) (record d { buffer = update d.buffer addr c }) t (omega arith)
    ∙ ap (λ n. (n, record d { buffer = store_string (addr + 1) l (update d.buffer addr c) }))
        (omega arith)

-- The state after a message that fits.
abbrev pub with_message : ℕ → List ℕ → Debug → Debug
with_message level text d = record d {
  buffer = store_string d.cur_debug_mem text d.buffer;
  cur_debug_mem = d.cur_debug_mem + length text + 1;
  screen = if leb d.debug_level_for_vga level then print_vga text d.screen else d.screen;
}

printf_text_lem :
    (text : List ℕ) (level : ℕ) (d : Debug)
    → IsText text
    → d.cur_debug_mem + length text < 4095
    → printf_text level text d ≡ with_message level text d
unfolding printf_text
printf_text_lem text level d t h =
    let read =
      string_at-Holds 4097 d.cur_debug_mem text (store_string d.cur_debug_mem text d.buffer)
        (omega arith) t (store_string_lem text d.cur_debug_mem d.buffer).0 in
    rw (write_text text level d.cur_debug_mem d t h)
      (elim (Bool-cases (leb d.debug_level_for_vga level)) [
        | inl e ↦ rw (e, read) refl
        | inr e ↦ rw e refl
      ])

-- For fewer than `2 ^ 32` items whose letters are the format, with their arguments and strings in the
-- memory, and room in the buffer for what they stand for: `printf` appends it to the buffer as a
-- string, all other bytes of the buffer as they were, goes on behind the string, and shows it on
-- the screen exactly if the level is high enough.
pub printf_lem :
    (items : List Item) (level fmt : ℕ) (s : Scan) (m : Bytes) (d : Debug)
    → length items < 2 ^ 32
    → AreItems m items
    → Holds m fmt (format items)
    → Holds m s.list (arguments items)
    → d.cur_debug_mem + length (expand items) < 4095
    → let d' = printf level fmt s m d in
      let text = expand items in
      Holds d'.buffer d.cur_debug_mem (text ++ 0 ∷ [])
      × ((a : ℕ)
          → (a < d.cur_debug_mem) ⊎ (d.cur_debug_mem + length text < a)
          → d'.buffer a ≡ d.buffer a)
      × (d'.cur_debug_mem ≡ d.cur_debug_mem + length text + 1)
      × (d'.screen
          ≡ (if leb d.debug_level_for_vga level then print_vga text d.screen else d.screen))
unfolding printf
printf_lem items level fmt s m d h are f a room =
    let (held, kept) = store_string_lem (expand items) d.cur_debug_mem d.buffer in
    rw
      (
        format_loop_lem items (2 ^ 32) fmt s m h are f a,
        printf_text_lem (expand items) level d (expand-IsText items m are) room,
      )
      (held, kept, refl, refl)
