-- ===== src/Util/Format/Apart.antt =====
-- util.c, `sprintf`: what it writes is apart from what it still has to read.
use xis.Prelude.{
  ℕ, zero, suc, ◌+◌, ◌≤◌, ◌<◌, ◌≡◌, ◌⊎◌, refl, ap, ◌∙◌, some, List, [], ◌∷◌, ◌++◌, length,
  length-append, arith, ne→==,
}
use xis.Prelude.Maps.{update}
use xis.Util.{Bytes}
use xis.Util.Format.{store_bytes, copy_string}
use xis.Util.Format.Items.{
  Item, plain, percent, signed, hexadecimal, unsigned, pointer, long_hexadecimal,
  long_long_hexadecimal, string, Holds, IsText, IsItem, AreItems,
}

-- So many bytes from `p` on are outside the bytes from `lo` to `hi`.
abbrev pub Outside : ℕ → ℕ → ℕ → ℕ → Type 0
Outside lo hi p n = (p + n ≤ lo) ⊎ (hi < p)

-- The string of an item, with its NUL, is outside.
abbrev pub IsApart : ℕ → ℕ → Item → Type 0
IsApart lo hi (plain c) = Unit
IsApart lo hi percent = Unit
IsApart lo hi (signed v) = Unit
IsApart lo hi (hexadecimal v) = Unit
IsApart lo hi (unsigned v) = Unit
IsApart lo hi (pointer v) = Unit
IsApart lo hi (long_hexadecimal v) = Unit
IsApart lo hi (long_long_hexadecimal v) = Unit
IsApart lo hi (string a l) = Outside lo hi a (length l + 1)

abbrev pub AreApart : ℕ → ℕ → List Item → Type 0
AreApart lo hi [] = Unit
AreApart lo hi (i ∷ items) = IsApart lo hi i × AreApart lo hi items

-- All bytes outside are the same.
abbrev pub SameOutside : ℕ → ℕ → Bytes → Bytes → Type 0
SameOutside lo hi m m' = (a : ℕ) → (a < lo) ⊎ (hi < a) → m' a ≡ m a

pub Holds-same :
    (lo hi p : ℕ) (l : List ℕ) (m m' : Bytes)
    → SameOutside lo hi m m'
    → Outside lo hi p (length l)
    → Holds m p l
    → Holds m' p l
Holds-same lo hi p [] m m' same o h = tt
Holds-same lo hi p (c ∷ l) m m' same o (here, rest) =
    (same p (omega arith) ∙ here, Holds-same lo hi (p + 1) l m m' same (omega arith) rest)

length_end : (l : List ℕ) → length (l ++ 0 ∷ []) ≡ length l + 1
length_end l = length-append l (0 ∷ [])

IsItem-same :
    (lo hi : ℕ) (i : Item) (m m' : Bytes)
    → SameOutside lo hi m m'
    → IsApart lo hi i
    → IsItem m i
    → IsItem m' i
IsItem-same lo hi (plain c) m m' same o h = h
IsItem-same lo hi percent m m' same o h = h
IsItem-same lo hi (signed v) m m' same o h = h
IsItem-same lo hi (hexadecimal v) m m' same o h = h
IsItem-same lo hi (unsigned v) m m' same o h = h
IsItem-same lo hi (pointer v) m m' same o h = h
IsItem-same lo hi (long_hexadecimal v) m m' same o h = h
IsItem-same lo hi (long_long_hexadecimal v) m m' same o h = h
IsItem-same lo hi (string a l) m m' same o (h, k, t, held) =
    (h, k, t, Holds-same lo hi a (l ++ 0 ∷ []) m m' same (omega (arith, o, length_end l)) held)

pub AreItems-same :
    (lo hi : ℕ) (items : List Item) (m m' : Bytes)
    → SameOutside lo hi m m'
    → AreApart lo hi items
    → AreItems m items
    → AreItems m' items
AreItems-same lo hi [] m m' same o h = tt
AreItems-same lo hi (i ∷ items) m m' same (o, others) (is, are) =
    (IsItem-same lo hi i m m' same o is, AreItems-same lo hi items m m' same others are)

pub store_bytes-outside :
    (lo hi buf : ℕ) (l : List ℕ) (m : Bytes)
    → lo ≤ buf
    → buf + length l ≤ hi
    → SameOutside lo hi m (store_bytes buf l m)
unfolding store_bytes
store_bytes-outside lo hi buf [] m low high a o = refl
store_bytes-outside lo hi buf (c ∷ l) m low high a o =
    store_bytes-outside lo hi (buf + 1) l (update m buf c) (omega arith) (omega arith) a o
    ∙ ground arith

-- A string that is apart from where it is copied to is copied whole.
pub copy_string_lem :
    (lo hi n a buf : ℕ) (l : List ℕ) (m : Bytes)
    → length l < n
    → lo ≤ buf
    → buf + length l ≤ hi
    → Outside lo hi a (length l + 1)
    → IsText l
    → Holds m a (l ++ 0 ∷ [])
    → copy_string n a buf m ≡ some (buf + length l, store_bytes buf l m)
unfolding copy_string store_bytes
copy_string_lem lo hi zero a buf l m h low high o t s = absurd (omega arith)
copy_string_lem lo hi (suc n) a buf [] m h low high o t (z, _) =
    rw z (ap (λ b. some (b, m)) (omega arith))
copy_string_lem lo hi (suc n) a buf (c ∷ l) m h low high o (pos, _, t) (here, rest) =
    let m' = update m buf c in
    let held : Holds m' (a + 1) (l ++ 0 ∷ []) =
      Holds-same lo hi (a + 1) (l ++ 0 ∷ []) m m' (λ b out. ground arith)
        (omega (arith, length_end l)) rest in
    rw (here, ne→== c 0 (λ z. omega arith))
      (copy_string_lem lo hi n (a + 1) (buf + 1) l m' (omega arith) (omega arith) (omega arith)
          (omega arith) t held
        ∙ ap (λ b. some (b, store_bytes (buf + 1) l m')) (omega arith))
