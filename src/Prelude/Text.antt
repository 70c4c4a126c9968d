-- ===== src/Prelude/Text.antt =====
-- Python's methods of texts, on bytes, and its conversions between texts and integers.
pub mod Laws
use mathlib.Core.Option
use conpot.Prelude.Tests.{ltb, leb, ◌==◌, if◌then◌else◌, bytes_eq}
use conpot.Prelude.Lists.{length, take}
use conpot.Prelude.Bytes.{Bytes}
use Prim.Native.Nat.{ℕ, zero, suc, ◌+◌, ◌-◌, ◌*◌, ◌/◌, ◌%◌}
use mathlib.Core.Bool.{Bool, true, false, ◌&&◌, ◌||◌}
use mathlib.Core.List.{List, [], ◌∷◌, ◌++◌, map}
use mathlib.Core.Option.{Option, none, some}

-- `c in text` for one byte.
unfoldable pub contains : ℕ → Bytes → Bool
contains c [] = false
contains c (x ∷ xs) = x == c || contains c xs

-- `text.count(c)`
unfoldable pub count : ℕ → Bytes → ℕ
count c [] = 0
count c (x ∷ xs) = (if x == c then 1 else 0) + count c xs

abbrev pub onto_first : ℕ → List Bytes → List Bytes
onto_first x [] = (x ∷ []) ∷ []
onto_first x (word ∷ words) = (x ∷ word) ∷ words

-- `text.split(c)`
unfoldable pub split : ℕ → Bytes → List Bytes
split c [] = [] ∷ []
split c (x ∷ xs) = let words = split c xs in if x == c then [] ∷ words else onto_first x words

-- `c.join(words)`
unfoldable pub join : ℕ → List Bytes → Bytes
join c [] = []
join c (word ∷ []) = word
join c (word ∷ next ∷ words) = word ++ c ∷ join c (next ∷ words)

-- `text.split(c, 1)`: the first word, and what follows the separator if there is one.
unfoldable pub split_once : ℕ → Bytes → Bytes × Option Bytes
split_once c [] = ([], none)
split_once c (x ∷ xs) =
    let (word, rest) = split_once c xs in if x == c then ([], some xs) else (x ∷ word, rest)

-- The parts of `text.partition(c)` before and behind the separator.
unfoldable pub partition : ℕ → Bytes → Bytes × Bytes
unfolding split_once
partition c text =
    let (word, rest) = split_once c text in (word, elim rest [ none ↦ [] | some s ↦ s ])

-- `isspace`: tab, newline, vertical tab, form feed, return and blank.
abbrev pub is_space : ℕ → Bool
is_space c = c == 32 || (leb 9 c && leb c 13)

unfoldable pub strip_left : Bytes → Bytes
strip_left [] = []
strip_left (x ∷ xs) = let rest = strip_left xs in if is_space x then rest else x ∷ xs

-- The bytes up to the last one that is not in the set.
unfoldable pub strip_right : (ℕ → Bool) → Bytes → Bytes
strip_right unwanted [] = []
strip_right unwanted (x ∷ xs) = elim (strip_right unwanted xs) [
  | [] ↦ if unwanted x then [] else x ∷ []
  | y ∷ ys ↦ x ∷ y ∷ ys
]

-- `text.strip()`
unfoldable pub strip : Bytes → Bytes
unfolding strip_left strip_right
strip text = strip_left (strip_right is_space text)

-- `text.upper()`
unfoldable pub upper : Bytes → Bytes
upper = map (λ c. if leb b'a' c && leb c b'z' then c - 32 else c)

-- `text.lower()`
unfoldable pub lower : Bytes → Bytes
lower = map (λ c. if leb b'A' c && leb c b'Z' then c + 32 else c)

-- `text.startswith(prefix)`
unfoldable pub starts_with : Bytes → Bytes → Bool
starts_with text [] = true
starts_with [] (p ∷ prefix) = false
starts_with (x ∷ text) (p ∷ prefix) = x == p && starts_with text prefix

-- Python's integers; `negsuc n` is -(n + 1).
pub data ℤ : Type 0 where
  pos negsuc : ℕ → ℤ

abbrev pub negate : ℕ → ℤ
negate zero = pos 0
negate (suc n) = negsuc n

abbrev pub is_digit : ℕ → Bool
is_digit c = leb b'0' c && leb c b'9'

-- The digits behind the number `n`.
unfoldable pub scan : ℕ → Bytes → Option ℕ
scan n [] = some n
scan n (c ∷ s) = let rest = scan (n * 10 + (c - b'0')) s in if is_digit c then rest else none

unfoldable pub natural : Bytes → Option ℕ
unfolding scan
natural [] = none
natural (c ∷ s) = scan 0 (c ∷ s)

unfoldable pub signed : Bytes → Option ℤ
unfolding natural strip_left
signed [] = none
signed (c ∷ s) =
    if c == b'-'
    then Option.map negate (natural (strip_left s))
    else if c == b'+'
    then Option.map pos (natural (strip_left s))
    else Option.map pos (natural (c ∷ s))

-- `int(text)`; `none` is a ValueError.
unfoldable pub int : Bytes → Option ℤ
unfolding signed strip
int text = signed (strip text)

-- The last digit is put down first. The fuel is more than the number.
unfoldable pub put_digits : ℕ → ℕ → Bytes → Bytes
put_digits zero n out = out
put_digits (suc fuel) n out =
    let rest = put_digits fuel (n / 10) ((b'0' + n % 10) ∷ out) in
    if ltb n 10 then (b'0' + n) ∷ out else rest

-- `str(n)`
unfoldable pub decimal : ℕ → Bytes
unfolding put_digits
decimal n = put_digits (suc n) n []

unfoldable pub str_int : ℤ → Bytes
unfolding decimal
str_int (pos n) = decimal n
str_int (negsuc n) = b'-' ∷ decimal (suc n)

-- `text.ljust(width, fill)`
unfoldable pub ljust : ℕ → ℕ → Bytes → Bytes
ljust zero fill text = text
ljust (suc width) fill [] = fill ∷ ljust width fill []
ljust (suc width) fill (x ∷ text) = x ∷ ljust width fill text

-- Texts one after the other.
unfoldable pub concat : List Bytes → Bytes
concat [] = []
concat (t ∷ ts) = t ++ concat ts
