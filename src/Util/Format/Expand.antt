-- ===== src/Util/Format/Expand.antt =====
-- util.c: `sprintf` writes what the directives of its format stand for.

use xis.Prelude.{
  ℕ, zero, suc, ◌+◌, ◌^◌, ◌≤◌, ◌<◌, ◌≡◌, ◌⊎◌, refl, ap, ◌∙◌, List, [], ◌∷◌, ◌++◌, length,
  length-append, some, arith, inl,
}
use xis.Prelude.Maps.{update}
use xis.Util.{Bytes}
use xis.Util.Format.{Scan, store_bytes, sprintf_loop, sprintf}
use xis.Util.Format.Items.{
  Item, letters, argument, meaning, format, arguments, expand, Holds, IsText, AreItems,
}
use xis.Util.Format.Texts.{expand-IsText}
use xis.Util.Format.Apart.{Outside, AreApart, Holds-same, AreItems-same, store_bytes-outside}
use xis.Util.Format.Steps.{item-Step}

-- The memory with a string and its NUL at `buf`.
unfoldable pub store_string : ℕ → List ℕ → Bytes → Bytes
store_string buf [] m = update m buf 0
store_string buf (c ∷ l) m = store_string (buf + 1) l (update m buf c)

pub store_string_lem :
    (l : List ℕ) (buf : ℕ) (m : Bytes)
    → Holds (store_string buf l m) buf (l ++ 0 ∷ [])
      × ((a : ℕ) → (a < buf) ⊎ (buf + length l < a) → store_string buf l m a ≡ m a)
unfolding store_string
store_string_lem [] buf m = ((ground arith, tt), λ a o. ground arith)
store_string_lem (c ∷ l) buf m =
    let (held, kept) = store_string_lem l (buf + 1) (update m buf c) in
    (
      (kept buf (inl (omega arith)) ∙ ground arith, held),
      λ a o. kept a (omega arith) ∙ ground arith,
    )

store_string-append :
    (l l' : List ℕ) (buf : ℕ) (m : Bytes)
    → store_string (buf + length l) l' (store_bytes buf l m) ≡ store_string buf (l ++ l') m
unfolding store_string store_bytes
store_string-append [] l' buf m = ap (λ b. store_string b l' m) (omega arith)
store_string-append (c ∷ l) l' buf m =
    ap (λ b. store_string b l' (store_bytes (buf + 1) l (update m buf c))) (omega arith)
    ∙ store_string-append l l' (buf + 1) (update m buf c)

-- The loop writes what the items stand for, between `lo` and `hi`, and reads outside.
sprintf_loop_lem :
    (lo hi : ℕ) (items : List Item) (n buf p : ℕ) (s : Scan) (m : Bytes)
    → length items < n
    → lo ≤ buf
    → buf + length (expand items) ≤ hi
    → AreItems m items
    → AreApart lo hi items
    → Holds m p (format items)
    → Outside lo hi p (length (format items))
    → Holds m s.list (arguments items)
    → Outside lo hi s.list (length (arguments items))
    → sprintf_loop n buf p s m ≡ some (store_string buf (expand items) m)
unfolding sprintf_loop store_string
sprintf_loop_lem lo hi items zero buf p s m h low high are ap_ f fo a ao = absurd (omega arith)
sprintf_loop_lem lo hi [] (suc n) buf p s m h low high are ap_ (f, _) fo a ao = rw f refl
sprintf_loop_lem lo hi (i ∷ items) (suc n) buf p s m h low high (is, are) (clear, others) f fo a
      ao =
    let st = item-Step m n p s (format items) (arguments items) i is f a in
    let out = meaning i in
    let m' = store_bytes buf out m in
    let len = length-append out (expand items) in
    let flen = length-append (letters i) (format items) in
    let alen = length-append (argument i) (arguments items) in
    let same = store_bytes-outside lo hi buf out m low (omega (arith, high, len)) in
    let fo' : Outside lo hi st.at (length (format items)) = omega (arith, fo, flen, st.passed) in
    let ao' : Outside lo hi st.scan.list (length (arguments items)) =
      omega (arith, ao, alen, st.taken) in
    st.stores lo hi buf low (omega (arith, high, len)) clear
    ∙ sprintf_loop_lem lo hi items n (buf + length out) st.at st.scan m' (omega arith) (omega arith)
        (omega (arith, high, len)) (AreItems-same lo hi items m m' same others are) others
        (Holds-same lo hi st.at (format items) m m' same fo' st.ahead) fo'
        (Holds-same lo hi st.scan.list (arguments items) m m' same ao' st.left) ao'
    ∙ ap some (store_string-append out (expand items) buf m)

-- For fewer than `2 ^ 32` items whose letters are the format, whose arguments stand behind it as the
-- caller pushed them, and whose strings stand at their addresses, all of these outside the bytes that
-- the result and its NUL take from `buf` on, and whatever `str` and `ptr` hold: `sprintf` returns; it
-- leaves at `buf` the string that the items stand for, and writes nothing else.
pub sprintf_lem :
    (items : List Item) (buf fmt : ℕ) (s : Scan) (m : Bytes)
    → length items < 2 ^ 32
    → AreItems m items
    → Holds m fmt (format items)
    → Holds m s.list (arguments items)
    → AreApart buf (buf + length (expand items)) items
    → Outside buf (buf + length (expand items)) fmt (length (format items))
    → Outside buf (buf + length (expand items)) s.list (length (arguments items))
    → (m' : Bytes) × (sprintf buf fmt s m ≡ some m')
      × IsText (expand items)
      × Holds m' buf (expand items ++ 0 ∷ [])
      × ((a : ℕ) → (a < buf) ⊎ (buf + length (expand items) < a) → m' a ≡ m a)
unfolding sprintf
sprintf_lem items buf fmt s m h are f a clear fo ao =
    let hi = buf + length (expand items) in
    let (held, kept) = store_string_lem (expand items) buf m in
    (
      store_string buf (expand items) m,
      sprintf_loop_lem buf hi items (2 ^ 32) buf fmt s m h (omega arith) (omega arith) are clear f
          fo a ao,
      expand-IsText items m are,
      held,
      kept,
    )
