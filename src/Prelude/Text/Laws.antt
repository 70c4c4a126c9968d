-- ===== src/Prelude/Text/Laws.antt =====
-- What splitting, padding and printing keep.
use conpot.Prelude.Tests.{ltb, ◌==◌, Bool-cases, ==_iff}
use conpot.Prelude.Lists.{length}
use conpot.Prelude.Bytes.{Bytes}
use conpot.Prelude.Text.{
  split, join, onto_first, scan, natural, put_digits, decimal, ljust, is_digit, is_space,
  strip_right, strip_left, strip, signed, int, pos,
}
use mathlib.Core.Option
use Prim.Native.Nat.{ℕ, zero, suc, ◌+◌, ◌/◌, ◌%◌, ◌<◌, max}
use mathlib.Core.Bool.{true}
use mathlib.Core.List.{List, [], ◌∷◌}
use mathlib.Core.Logic.{◌≢◌, inl, inr}
use mathlib.Core.Option.{some}
use mathlib.Core.Path.{◌≡◌, refl, sym, ap, ap₂, ◌∙◌}
use native.Mathlib.Omega.{arith}

onto_first-ne-nil : (x : ℕ) (words : List Bytes) → onto_first x words ≢ []
onto_first-ne-nil x [] h = cc
onto_first-ne-nil x (w ∷ ws) h = cc

split-ne-nil : (c : ℕ) (s : Bytes) → split c s ≢ []
unfolding split
split-ne-nil c [] h = cc
split-ne-nil c (x ∷ xs) h = ground (arith, onto_first-ne-nil x (split c xs))

join-onto_first : (c x : ℕ) (words : List Bytes) → join c (onto_first x words) ≡ x ∷ join c words
unfolding join
join-onto_first c x [] = refl
join-onto_first c x (w ∷ []) = refl
join-onto_first c x (w ∷ v ∷ ws) = refl

join-singleton : (c : ℕ) (word : Bytes) → join c (word ∷ []) ≡ word
unfolding join
join-singleton c word = refl

join-nil : (c : ℕ) (words : List Bytes) → words ≢ [] → join c ([] ∷ words) ≡ c ∷ join c words
unfolding join
join-nil c [] h = absurd (h refl)
join-nil c (w ∷ ws) h = refl

-- Joining the words of a text by their separator gives the text.
pub join-split : (c : ℕ) (s : Bytes) → join c (split c s) ≡ s
unfolding split
join-split c [] = join-singleton c []
join-split c (x ∷ xs) = elim (Bool-cases (x == c)) [
  | inl same ↦ rw same (
      join-nil c (split c xs) (split-ne-nil c xs)
      ∙ ap₂ ◌∷◌ (sym ((==_iff x c).0 same)) (join-split c xs))
  | inr other ↦ rw other (join-onto_first c x (split c xs) ∙ ap (◌∷◌ x) (join-split c xs))
]

scan_last : (n : ℕ) (out : Bytes) → scan (n / 10) ((b'0' + n % 10) ∷ out) ≡ scan n out
unfolding scan
scan_last n out = ground arith

scan_small : (n : ℕ) (out : Bytes) → ltb n 10 ≡ true → scan 0 ((b'0' + n) ∷ out) ≡ scan n out
unfolding scan
scan_small n out small = ground arith

scan-put_digits :
    (fuel n : ℕ) (out : Bytes) → n < fuel → scan 0 (put_digits fuel n out) ≡ scan n out
unfolding put_digits
scan-put_digits zero n out h = absurd (omega arith)
scan-put_digits (suc fuel) n out h = elim (Bool-cases (ltb n 10)) [
  | inl small ↦ rw small (scan_small n out small)
  | inr large ↦
      rw large
        (scan-put_digits fuel (n / 10) ((b'0' + n % 10) ∷ out) (ground arith) ∙ scan_last n out)
]

put_digits-ne-nil : (fuel n : ℕ) (c : ℕ) (out : Bytes) → put_digits fuel n (c ∷ out) ≢ []
unfolding put_digits
put_digits-ne-nil zero n c out h = cc
put_digits-ne-nil (suc fuel) n c out h =
    ground (arith, put_digits-ne-nil fuel (n / 10) (b'0' + n % 10) (c ∷ out))

decimal-ne-nil : (n : ℕ) → decimal n ≢ []
unfolding decimal
decimal-ne-nil n h = ground (arith, put_digits-ne-nil n (n / 10) (b'0' + n % 10) [])

natural-scan : (s : Bytes) → s ≢ [] → natural s ≡ scan 0 s
unfolding natural
natural-scan [] h = absurd (h refl)
natural-scan (c ∷ s) h = refl

-- A printed number is read back.
pub natural-decimal : (n : ℕ) → natural (decimal n) ≡ some n
unfolding decimal scan
natural-decimal n =
    natural-scan (decimal n) (decimal-ne-nil n) ∙ scan-put_digits (suc n) n [] (omega arith)

pub length-ljust :
    (width fill : ℕ) (text : Bytes) → length (ljust width fill text) ≡ max width (length text)
unfolding ljust
length-ljust zero fill text = omega arith
length-ljust (suc width) fill [] = omega (arith, length-ljust width fill [])
length-ljust (suc width) fill (x ∷ text) = omega (arith, length-ljust width fill text)

abbrev pub AllDigits : Bytes → Type 0
AllDigits [] = Unit
AllDigits (c ∷ s) = (is_digit c ≡ true) × AllDigits s

put_digits-AllDigits :
    (fuel n : ℕ) (out : Bytes) → AllDigits out → AllDigits (put_digits fuel n out)
unfolding put_digits
put_digits-AllDigits zero n out h = h
put_digits-AllDigits (suc fuel) n out h = elim (Bool-cases (ltb n 10)) [
  | inl small ↦ rw small (ground arith, h)
  | inr large ↦
      rw large (put_digits-AllDigits fuel (n / 10) ((b'0' + n % 10) ∷ out) (ground arith, h))
]

decimal-AllDigits : (n : ℕ) → AllDigits (decimal n)
unfolding decimal
decimal-AllDigits n = put_digits-AllDigits (suc n) n [] tt

strip_right-digits : (s : Bytes) → AllDigits s → strip_right is_space s ≡ s
unfolding strip_right
strip_right-digits [] h = refl
strip_right-digits (c ∷ []) h = ground arith
strip_right-digits (c ∷ d ∷ s) h = rw (strip_right-digits (d ∷ s) h.1)

strip_left-digits : (s : Bytes) → AllDigits s → strip_left s ≡ s
unfolding strip_left
strip_left-digits [] h = refl
strip_left-digits (c ∷ s) h = ground arith

signed-digits : (s : Bytes) → AllDigits s → s ≢ [] → signed s ≡ Option.map pos (natural s)
unfolding signed
signed-digits [] h ne = absurd (ne refl)
signed-digits (c ∷ s) h ne = ground arith

-- `int(str(n))` is `n`.
pub int-decimal : (n : ℕ) → int (decimal n) ≡ some (pos n)
unfolding int strip
int-decimal n =
    let digits = decimal-AllDigits n in
    rw (strip_right-digits (decimal n) digits) (
      rw (strip_left-digits (decimal n) digits) (
        signed-digits (decimal n) digits (decimal-ne-nil n)
        ∙ ap (Option.map pos) (natural-decimal n)))
