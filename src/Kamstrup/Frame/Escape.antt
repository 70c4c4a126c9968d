-- ===== src/Kamstrup/Frame/Escape.antt =====
-- What escaping does to bytes, for the protocol's readers.
use conpot.Prelude.{
  ℕ, zero, suc, ◌+◌, ◌-◌, ◌<◌, ◌≡◌, refl, Bool, true, ◌&&◌, [], ◌∷◌, ◌++◌, some, true, leb, length,
  length-append, take-append_length, get_elem?, get_elem?-append, arith, ◌==◌, ==_iff,
}
use conpot.Prelude.Bytes.{Bytes, ok, be16}
use conpot.Kamstrup.Frame.{at, last, escape, valid_crc, invert, escape_inner}

-- The inversion is the difference to 255 on every byte below a bound.
inverts_below : ℕ → Bool
inverts_below zero = true
inverts_below (suc bound) = inverts_below bound && invert bound == 255 - bound

inverts_below_lem :
    (bound x : ℕ) → x < bound → inverts_below bound ≡ true → (invert x == 255 - x) ≡ true
unfolding inverts_below
inverts_below_lem zero x lt all = absurd (omega arith)
inverts_below_lem (suc bound) x lt all = ground (arith, inverts_below_lem bound x)

inverts_below_256 : inverts_below 256 ≡ true
unfolding inverts_below
inverts_below_256 = refl

-- On a byte, the inversion is the difference to 255.
pub invert-eq : (x : ℕ) → x < 256 → invert x ≡ 255 - x
invert-eq x h = (==_iff _ _).0 (inverts_below_lem 256 x h inverts_below_256)

pub invert-invert : (x : ℕ) → x < 256 → invert (invert x) ≡ x
invert-invert x h = rw (invert-eq x h) (rw (invert-eq (255 - x) (omega arith)) (omega arith))

length_snoc : (xs : Bytes) (e : ℕ) → length (xs ++ e ∷ []) ≡ length xs + 1
length_snoc xs e = length-append xs (e ∷ [])

last_snoc : (m : ℕ) (xs : Bytes) (e : ℕ) → last m (xs ++ e ∷ []) ≡ e
last_snoc m [] e = refl
last_snoc m (x ∷ xs) e = last_snoc x xs e

-- The first and the last byte are kept, and what stands between them is escaped.
pub escape-ends :
    (m : ℕ) (xs : Bytes) (e : ℕ) → escape (m ∷ (xs ++ e ∷ [])) ≡ ok (m ∷ escape_inner xs ++ e ∷ [])
unfolding escape
escape-ends m xs e =
    let cut : length (xs ++ e ∷ []) - 1 ≡ length xs = omega (arith, length_snoc xs e) in
    rw (cut, take-append_length xs (e ∷ []), last_snoc m xs e)

at-eq-ok : (bytes : Bytes) (i b : ℕ) → get_elem? bytes i ≡ some b → at bytes i ≡ ok b
at-eq-ok bytes i b h = ground arith

-- The checksum test on a message whose last two bytes are split off.
pub valid_crc-append :
    (crc16xmodem : Bytes → ℕ) (xs : Bytes) (hi lo : ℕ)
    → valid_crc crc16xmodem (xs ++ hi ∷ lo ∷ []) ≡ ok (be16 hi lo == crc16xmodem xs)
unfolding valid_crc
valid_crc-append crc16xmodem xs hi lo =
    let n : length (xs ++ hi ∷ lo ∷ []) ≡ length xs + 2 = length-append xs (hi ∷ lo ∷ []) in
    let first : at (xs ++ hi ∷ lo ∷ []) (length xs + 0) ≡ ok hi =
      at-eq-ok (xs ++ hi ∷ lo ∷ []) (length xs + 0) hi (get_elem?-append xs (hi ∷ lo ∷ []) 0) in
    let second : at (xs ++ hi ∷ lo ∷ []) (length xs + 1) ≡ ok lo =
      at-eq-ok (xs ++ hi ∷ lo ∷ []) (length xs + 1) lo (get_elem?-append xs (hi ∷ lo ∷ []) 1) in
    let a : length xs + 2 - 2 ≡ length xs = omega arith in
    let b : length xs + 2 - 1 ≡ length xs + 1 = omega arith in
    let z : length xs + 0 ≡ length xs = omega arith in
    let long : leb 2 (length xs + 2) ≡ true = ground arith in
    let some_byte : leb 1 (length xs + 2) ≡ true = ground arith in
    rw n (
      rw (long, some_byte, a, b) (rw (rw z at first, second, take-append_length xs (hi ∷ lo ∷ []))))
