-- ===== src/Util/Format/Steps.antt =====
-- util.c, `sprintf`: the loop over the format, item by item.
use mathlib.Core.Path.{subst}
use xis.Prelude.{
  ℕ, zero, suc, ◌+◌, ◌/◌, ◌%◌, ◌^◌, ◌≤◌, ◌<◌, ◌≡◌, refl, ap, ◌∙◌, true, false, List, [], ◌∷◌, ◌++◌,
  length, arith, ne→==,
}
use xis.Util.{Bytes, itoa_base, ptrtoa, lltoa_base, string_at}
use xis.Util.Format.{
  Scan, array, address, text, store_bytes, sprintf_loop, double_word, convert, directive,
  format_loop, printed,
}
use xis.Util.Format.Items.{
  Item, plain, percent, signed, hexadecimal, unsigned, pointer, long_hexadecimal,
  long_long_hexadecimal, string, letters, pushed, argument, meaning, format, arguments, expand,
  Holds, IsItem, AreItems,
}
use xis.Util.Format.Apart.{IsApart, copy_string_lem}
use xis.Util.Format.Texts.{
  string_at-Holds, hexadecimal_text, unsigned_text, signed_text, pushed_lem, pointer_text,
  long_long_text,
}

-- What one item does to a loop that has rounds left: it writes its meaning, and the rest of the
-- format and of the arguments is ahead. `stores` is for `sprintf`, which writes into the memory.
pub record Step (m : Bytes) (n p : ℕ) (s : Scan) (i : Item) (rest others : List ℕ) : Type 0 where
  pub at : ℕ
  pub scan : Scan
  pub passed : at ≡ p + length (letters i)
  pub taken : scan.list ≡ s.list + length (argument i)
  pub writes : format_loop (suc n) m p s ≡ meaning i ++ format_loop n m at scan
  pub stores :
      (lo hi buf : ℕ)
      → lo ≤ buf
      → buf + length (meaning i) ≤ hi
      → IsApart lo hi i
      → sprintf_loop (suc n) buf p s m
        ≡ sprintf_loop n (buf + length (meaning i)) at scan (store_bytes buf (meaning i) m)
  pub ahead : Holds m at rest
  pub left : Holds m scan.list others

module _ (m : Bytes) (n p : ℕ) (s : Scan) (rest others : List ℕ) where
  -- A directive that prints an argument into the array and ends at `q`.
  array-Step :
      (q size : ℕ) (i : Item) (str : Bytes)
      → q + 1 ≡ p + length (letters i)
      → s.list + size ≡ s.list + length (argument i)
      → m p ≡ b'%'
      → Holds m (q + 1) rest
      → Holds m (s.list + size) others
      → directive m (p + 1) s ≡ (text array str, q, printed size str s)
      → string_at (2 ^ 32) 0 str ≡ meaning i
      → Step m n p s i rest others
  unfolding format_loop sprintf_loop
  array-Step q size i str past took b behind left e t = record {
    at = q + 1;
    scan = printed size str s;
    passed = past;
    taken = took;
    writes = rw (b, e, t) refl;
    stores = λ lo hi buf low high o. rw (b, e, t) refl;
    ahead = behind;
    left = left;
  }

  pub item-Step :
      (i : Item)
      → IsItem m i
      → Holds m p (letters i ++ rest)
      → Holds m s.list (argument i ++ others)
      → Step m n p s i rest others
  unfolding format_loop sprintf_loop directive convert store_bytes
  item-Step (plain c) ((pos, _, _), other) (b, ahead) left = record {
    at = p + 1;
    scan = s;
    passed = refl;
    taken = omega arith;
    writes = rw (b, ne→== c 0 (λ z. omega arith), ne→== c b'%' other) refl;
    stores = λ lo hi buf low high o. rw (b, ne→== c 0 (λ z. omega arith), ne→== c b'%' other) refl;
    ahead = ahead;
    left = left;
  }
  item-Step percent h (b, (l, ahead)) left = record {
    at = p + 1 + 1;
    scan = s;
    passed = omega arith;
    taken = omega arith;
    writes = rw (b, l) refl;
    stores = λ lo hi buf low high o. rw (b, l) refl;
    ahead = ahead;
    left = left;
  }
  item-Step (signed v) h (b, (l, ahead)) left =
      let (val, left') = pushed_lem v s.list others m h left in
      array-Step (p + 1) 4 (signed v) (itoa_base v 0 10 false s.str) (omega arith) (omega arith) b
        ahead left' (rw (l, val) refl) (signed_text v s.str)
  item-Step (hexadecimal v) h (b, (l, ahead)) left =
      let (val, left') = pushed_lem v s.list others m h left in
      array-Step (p + 1) 4 (hexadecimal v) (itoa_base v 0 16 false s.str) (omega arith)
        (omega arith) b ahead left' (rw (l, val) refl) (hexadecimal_text v false s.str)
  item-Step (unsigned v) h (b, (l, ahead)) left =
      let (val, left') = pushed_lem v s.list others m h left in
      array-Step (p + 1) 4 (unsigned v) (itoa_base v 0 10 true s.str) (omega arith) (omega arith) b
        ahead left' (rw (l, val) refl) (unsigned_text v s.str)
  item-Step (pointer v) h (b, (l, ahead)) left =
      let (val, left') = pushed_lem v s.list others m h left in
      array-Step (p + 1) 4 (pointer v) (ptrtoa v 0 s.str) (omega arith) (omega arith) b ahead left'
        (rw (l, val) refl) (pointer_text v s.str h)
  item-Step (long_hexadecimal v) h (b, (l, (x, ahead))) left =
      let (val, left') = pushed_lem v s.list others m h left in
      array-Step (p + 1 + 1) 4 (long_hexadecimal v) (itoa_base v 0 16 false s.str) (omega arith)
        (omega arith) b ahead left' (rw (l, x, val) refl) (hexadecimal_text v false s.str)
  item-Step (long_long_hexadecimal v) h (b, (l, (l', (x, ahead)))) left =
      let (low, mid) =
        pushed_lem (v % 2 ^ 32) s.list (pushed (v / 2 ^ 32) ++ others) m (omega arith) left in
      let (high, left') = pushed_lem (v / 2 ^ 32) (s.list + 4) others m (omega arith) mid in
      let val : double_word m s.list ≡ v = omega (arith, low, high) in
      let x' : m (p + 1 + 2) ≡ b'x' = ap m (omega arith) ∙ x in
      let ahead' =
        subst (λ t. Holds m t rest) {x = p + 1 + 1 + 1 + 1} {y = p + 1 + 2 + 1} (omega arith)
          ahead in
      let left'' =
        subst (λ t. Holds m t others) {x = s.list + 4 + 4} {y = s.list + 8} (omega arith) left' in
      array-Step (p + 1 + 2) 8 (long_long_hexadecimal v) (lltoa_base v 0 16 true s.str)
        (omega arith) (omega arith) b ahead' left'' (rw (l, l', x', val) refl)
        (long_long_text v s.str h)
  item-Step (string a l) (h, k, t, held) (b, (c, ahead)) left =
      let (val, left') = pushed_lem a s.list others m h left in
      record {
        at = p + 1 + 1;
        scan = record { list = s.list + 4; str = s.str; ptr = address a };
        passed = omega arith;
        taken = refl;
        writes = rw (b, c, val, string_at-Holds (2 ^ 32) a l m k t held) refl;
        stores = λ lo hi buf low high o.
            rw (b, c, val, copy_string_lem lo hi (2 ^ 32) a buf l m k low high o t held) refl;
        ahead = ahead;
        left = left';
      }

-- The loop writes what the items stand for.
pub format_loop_lem :
    (items : List Item) (n p : ℕ) (s : Scan) (m : Bytes)
    → length items < n
    → AreItems m items
    → Holds m p (format items)
    → Holds m s.list (arguments items)
    → format_loop n m p s ≡ expand items
unfolding format_loop
format_loop_lem items zero p s m h are f a = absurd (omega arith)
format_loop_lem [] (suc n) p s m h are (f, _) a = rw f refl
format_loop_lem (i ∷ items) (suc n) p s m h (is, are) f a =
    let st = item-Step m n p s (format items) (arguments items) i is f a in
    st.writes
    ∙ ap (λ t. meaning i ++ t)
        (format_loop_lem items n st.at st.scan m (omega arith) are st.ahead st.left)
