-- ===== src/Ipmi/Payload/RoundTrip.antt =====
-- Checksums and padding, and what a packet of version 2.0 is read back as.
use conpot.Prelude.{
  ℕ, zero, suc, ◌+◌, ◌-◌, ◌*◌, ◌%◌, ◌≡◌, refl, ap, ◌∙◌, [], ◌∷◌, ◌++◌, length, take, drop, arith,
  length-append, take-append_length, drop-append_length, append_assoc,
}
use conpot.Prelude.Bytes.{Bytes, ok}
use conpot.Ipmi.State.{FakeSession}
use conpot.Ipmi.Payload.{sum, xor_ff, checksum, last, but_last, padding, count_up, aespad, unpad}
use conpot.Ipmi.Session.{make_ipmi_payload}

sum-append : (xs ys : Bytes) → sum (xs ++ ys) ≡ sum xs + sum ys
sum-append [] ys = omega arith
sum-append (x ∷ xs) ys = omega (arith, sum-append xs ys)

-- A list with its checksum at the end adds up to 0.
sum-checksum : (bs : Bytes) → sum (bs ++ checksum bs ∷ []) % 256 ≡ 0
unfolding checksum
sum-checksum bs = omega (arith, sum-append bs ((xor_ff (sum bs) + 1) % 256 ∷ []))

-- In every message that `make_ipmi_payload` puts together, as it does for the answers to commands, the
-- first three bytes add up to 0 modulo 256, and so do the other ones.
pub make_ipmi_payload-sums :
    (s : FakeSession) (netfn command : ℕ) (body : Bytes)
    → (sum (take 3 (make_ipmi_payload s netfn command body)) % 256 ≡ 0)
      × (sum (drop 3 (make_ipmi_payload s netfn command body)) % 256 ≡ 0)
unfolding make_ipmi_payload
make_ipmi_payload-sums s netfn command body = (
  sum-checksum (s.clientaddr ∷ netfn * 4 ∷ []),
  sum-checksum (s.rqaddr ∷ s.seqlun ∷ command ∷ body),
)

length-count_up : (n padval : ℕ) → length (count_up n padval) ≡ n
length-count_up zero padval = refl
length-count_up (suc n) padval = ap suc (length-count_up n (padval + 1))

-- The end of a list.
pub drop-last : (xs ys : Bytes) → last (length ys) (xs ++ ys) ≡ ys
drop-last xs ys =
    rw (length-append xs ys, sub_lem (length xs) (length ys)) (drop-append_length xs ys)
  where
    sub_lem : (a b : ℕ) → a + b - b ≡ a
    sub_lem a b = omega arith

pub take-but_last : (xs ys : Bytes) → but_last (length ys) (xs ++ ys) ≡ xs
take-but_last xs ys =
    rw (length-append xs ys, sub_lem (length xs) (length ys)) (take-append_length xs ys)
  where
    sub_lem : (a b : ℕ) → a + b - b ≡ a
    sub_lem a b = omega arith

unpad-append :
    (xs ys : Bytes) (pad : ℕ)
    → length (ys ++ pad ∷ []) ≡ pad + 1
    → unpad (xs ++ ys ++ pad ∷ []) ≡ ok xs
unfolding unpad
unpad-append xs ys pad e =
    let end : last 1 (xs ++ ys ++ pad ∷ []) ≡ pad ∷ [] = drop-last (xs ++ ys) (pad ∷ []) in
    let cut : but_last (pad + 1) (xs ++ (ys ++ pad ∷ [])) ≡ xs =
      rw (← e) (take-but_last xs (ys ++ pad ∷ [])) in
    rw end (ap ok (rw (append_assoc xs ys (pad ∷ [])) cut))

-- Whatever is padded for encryption is taken off again after decryption.
pub unpad-aespad : (bs : Bytes) → unpad (aespad bs) ≡ ok bs
unfolding aespad
unpad-aespad bs =
    let pad = padding 16 (length bs + 1) in
    unpad-append bs (count_up pad 1) pad
      (length-append (count_up pad 1) (pad ∷ []) ∙ ap (λ (n : ℕ). n + 1) (length-count_up pad 1))

pub length-aespad : (bs : Bytes) → length (aespad bs) ≡ length bs + padding 16 (length bs + 1) + 1
unfolding aespad
length-aespad bs =
    let pad = padding 16 (length bs + 1) in
    omega (
      arith,
      length-append (bs ++ count_up pad 1) (pad ∷ []),
      length-append bs (count_up pad 1),
      length-count_up pad 1,
    )
