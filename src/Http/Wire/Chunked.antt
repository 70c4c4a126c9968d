-- ===== src/Http/Wire/Chunked.antt =====
-- What a client reads in a body that is sent in chunks.
use conpot.Prelude.{
  ℕ, zero, suc, ◌+◌, ◌-◌, ◌*◌, ◌/◌, ◌%◌, ◌<◌, ◌≡◌, refl, sym, ap, ◌∙◌, true, false, ◌&&◌, Option,
  none, some, [], ◌∷◌, ◌++◌, length, take, drop, ltb, ltb→lt, leb, ◌==◌, if◌then◌else◌, arith,
  Bool-cases, inl, inr, append_assoc, take-append_length, drop-append_length, length-append,
}
use conpot.Prelude.Bytes.{Bytes}
use conpot.Http.Wire.{crlf, hex_digit, put_hex, hex}

-- The value of a digit, or none.
abbrev digit_value : ℕ → Option ℕ
digit_value c =
    if leb b'0' c && leb c b'9'
    then some (c - b'0')
    else if leb b'A' c && leb c b'F'
    then some (c - b'A' + 10)
    else none

abbrev pub read_end : ℕ → Bytes → Option (ℕ × Bytes)
read_end n (a ∷ b ∷ s) = if a == 13 && b == 10 then some (n, s) else none
read_end n _ = none

-- The number at the start of a line, and what follows the line.
unfoldable pub read_size : ℕ → Bytes → Option (ℕ × Bytes)
read_size n [] = none
read_size n (c ∷ s) = elim (digit_value c) [
  | some d ↦ read_size (n * 16 + d) s
  | none ↦ read_end n (c ∷ s)
]

read_size-digit :
    (n d : ℕ) (s : Bytes) → d < 16 → read_size n (hex_digit d ∷ s) ≡ read_size (n * 16 + d) s
unfolding read_size
read_size-digit n d s h = ground arith

read_size-last : (n : ℕ) (s : Bytes) → read_size (n / 16) (hex_digit (n % 16) ∷ s) ≡ read_size n s
read_size-last n s =
    read_size-digit (n / 16) (n % 16) s (omega arith) ∙ ap (λ (m : ℕ). read_size m s) (split_lem n)
  where
    split_lem : (m : ℕ) → m / 16 * 16 + m % 16 ≡ m
    split_lem m = omega arith

read_size-small : (n : ℕ) (s : Bytes) → n < 16 → read_size 0 (hex_digit n ∷ s) ≡ read_size n s
read_size-small n s h = read_size-digit 0 n s h ∙ ap (λ (m : ℕ). read_size m s) (zero_lem n)
  where
    zero_lem : (m : ℕ) → 0 * 16 + m ≡ m
    zero_lem m = omega arith

read_size-put_hex :
    (fuel n : ℕ) (s : Bytes) → n < fuel → read_size 0 (put_hex fuel n s) ≡ read_size n s
unfolding put_hex
read_size-put_hex zero n s h = absurd (omega arith)
read_size-put_hex (suc fuel) n s h = elim (Bool-cases (ltb n 16)) [
  | inl small ↦ rw small (read_size-small n s (ltb→lt n 16 small))
  | inr large ↦
      rw large (
        read_size-put_hex fuel (n / 16) (hex_digit (n % 16) ∷ s) (ground arith)
        ∙ read_size-last n s)
]

put_hex-append : (fuel n : ℕ) (s t : Bytes) → put_hex fuel n s ++ t ≡ put_hex fuel n (s ++ t)
unfolding put_hex
put_hex-append zero n s t = refl
put_hex-append (suc fuel) n s t = elim (Bool-cases (ltb n 16)) [
  | inl small ↦ rw small refl
  | inr large ↦ rw large (put_hex-append fuel (n / 16) (hex_digit (n % 16) ∷ s) t)
]

-- A size that is written in a line is read back.
read_size-hex : (n : ℕ) (s : Bytes) → read_size 0 (hex n ++ crlf ++ s) ≡ some (n, s)
unfolding hex read_size
read_size-hex n s =
    ap (read_size 0) (append_assoc (hex n) crlf s ∙ put_hex-append (suc n) n [] (crlf ++ s))
    ∙ read_size-put_hex (suc n) n (crlf ++ s) (omega arith)

-- A chunk of `n` bytes, its line end, and what follows.
unfoldable pub read_chunk : ℕ → Bytes → Option (Bytes × Bytes)
read_chunk n s =
    if ltb (length s) n
    then none
    else elim (read_end n (drop n s)) [ none ↦ none | some (m, left) ↦ some (take n s, left) ]

abbrev pub prepend : Bytes → Option (Bytes × Bytes) → Option (Bytes × Bytes)
prepend bytes none = none
prepend bytes (some (payload, left)) = some (bytes ++ payload, left)

-- A reader of chunked bodies: chunks up to one of the size 0; the result is the payload and what
-- follows. The fuel bounds the number of chunks.
unfoldable pub decode : ℕ → Bytes → Option (Bytes × Bytes)
unfolding read_size read_chunk
decode zero s = none
decode (suc fuel) s = elim (read_size 0 s) [
  | none ↦ none
  | some (n, rest) ↦ elim (n == 0) [
    | true ↦ some ([], rest)
    | false ↦ elim (read_chunk n rest) [
      | none ↦ none
      | some (bytes, left) ↦ prepend bytes (decode fuel left)
    ]
  ]
]

-- A chunk as it is written.
abbrev pub chunk_text : ℕ → Bytes → Bytes
chunk_text n bytes = (hex n ++ crlf) ++ (bytes ++ crlf)

read_chunk-append :
    (bytes s : Bytes) → read_chunk (length bytes) (bytes ++ 13 ∷ 10 ∷ s) ≡ some (bytes, s)
unfolding read_chunk
read_chunk-append bytes s =
    let long : ltb (length (bytes ++ 13 ∷ 10 ∷ s)) (length bytes) ≡ false =
      ground (arith, length-append bytes (13 ∷ 10 ∷ s)) in
    rw (long, drop-append_length bytes (13 ∷ 10 ∷ s), take-append_length bytes (13 ∷ 10 ∷ s))

chunk_text-append :
    (n : ℕ) (bytes s : Bytes) → chunk_text n bytes ++ s ≡ hex n ++ crlf ++ (bytes ++ 13 ∷ 10 ∷ s)
chunk_text-append n bytes s = simp (append_assoc)

suc-ne-zero : (n : ℕ) → (suc n == 0) ≡ false
suc-ne-zero n = ground arith

decode-step :
    (fuel n : ℕ) (s rest bytes left : Bytes)
    → read_size 0 s ≡ some (suc n, rest)
    → read_chunk (suc n) rest ≡ some (bytes, left)
    → decode (suc fuel) s ≡ prepend bytes (decode fuel left)
unfolding decode
decode-step fuel n s rest bytes left size taken = rw (size, suc-ne-zero n, taken, decode)

pub decode-chunk :
    (fuel n : ℕ) (bytes s : Bytes)
    → length bytes ≡ suc n
    → decode (suc fuel) (chunk_text (suc n) bytes ++ s) ≡ prepend bytes (decode fuel s)
decode-chunk fuel n bytes s e =
    let size : read_size 0 (chunk_text (suc n) bytes ++ s) ≡ some (suc n, bytes ++ 13 ∷ 10 ∷ s) =
      ap (read_size 0) (chunk_text-append (suc n) bytes s)
      ∙ read_size-hex (suc n) (bytes ++ 13 ∷ 10 ∷ s) in
    let taken : read_chunk (suc n) (bytes ++ 13 ∷ 10 ∷ s) ≡ some (bytes, s) =
      ap (λ (m : ℕ). read_chunk m (bytes ++ 13 ∷ 10 ∷ s)) (sym e) ∙ read_chunk-append bytes s in
    decode-step fuel n (chunk_text (suc n) bytes ++ s) (bytes ++ 13 ∷ 10 ∷ s) bytes s size taken

pub decode-end : (fuel : ℕ) (s : Bytes) → decode (suc fuel) (b'0' ∷ 13 ∷ 10 ∷ s) ≡ some ([], s)
unfolding decode read_size
decode-end fuel s = refl
