-- ===== src/Kamstrup/Messages/Registers.antt =====
-- Register requests: what the message bytes must hold.
use conpot.Prelude.{
  ℕ, zero, suc, ◌*◌, ◌≤◌, ◌<◌, ◌/◌, ◌%◌, ◌≡◌, refl, false, List, [], ◌∷◌, ◌++◌, arith, length,
  length-append, ltb,
}
use conpot.Prelude.Bytes.{Bytes, ok, err, index_error, be16_split}
use conpot.Kamstrup.Messages.{parse_register_bytes, read_registers}

-- Register numbers as a request carries them.
pub register_numbers : List ℕ → Bytes
register_numbers [] = []
register_numbers (r ∷ rs) = r / 256 ∷ r % 256 ∷ register_numbers rs

length-register_numbers : (rs : List ℕ) → length (register_numbers rs) ≡ length rs * 2
unfolding register_numbers
length-register_numbers [] = refl
length-register_numbers (r ∷ rs) = omega (arith, length-register_numbers rs)

read_registers-register_numbers :
    (rs : List ℕ) (rest : Bytes) → read_registers (length rs) (register_numbers rs ++ rest) ≡ ok rs
unfolding read_registers register_numbers
read_registers-register_numbers [] rest = refl
read_registers-register_numbers (r ∷ rs) rest =
    rw (read_registers-register_numbers rs rest) (rw (be16_split r))

read_registers-short :
    (n : ℕ) (message : Bytes) → length message < n * 2 → read_registers n message ≡ err index_error
unfolding read_registers
read_registers-short zero message h = absurd (omega arith)
read_registers-short (suc n) [] h = refl
read_registers-short (suc n) (a ∷ []) h = refl
read_registers-short (suc n) (a ∷ b ∷ message) h = rw (read_registers-short n message (omega arith))

-- A count and that many register numbers are read as these numbers, whatever follows them.
parse_register_bytes-register_numbers :
    (rs : List ℕ) (rest : Bytes)
    → parse_register_bytes (length rs ∷ (register_numbers rs ++ rest)) ≡ ok rs
unfolding parse_register_bytes
parse_register_bytes-register_numbers rs rest =
    rw (enough) (read_registers-register_numbers rs rest)
  where
    enough : ltb (length (register_numbers rs ++ rest) * 2) (length rs) ≡ false
    enough = ground (arith, length-append (register_numbers rs) rest, length-register_numbers rs)

-- The check of the count lets through messages that hold too few bytes: where a message holds at
-- least half as many bytes as the count and less than twice as many, reading runs past its end.
pub parse_register_bytes-short :
    (count : ℕ) (message : Bytes)
    → count ≤ length message * 2
    → length message < count * 2
    → parse_register_bytes (count ∷ message) ≡ err index_error
unfolding parse_register_bytes
parse_register_bytes-short count message enough short =
    let passed : ltb (length message * 2) count ≡ false = ground arith in
    rw passed (read_registers-short count message short)
