-- ===== src/Modbus/Server/Requests.antt =====
-- The wait for a whole request.
use conpot.Prelude.{
  ℕ, zero, suc, ◌⊎◌, take, drop, length-append, ◌≤◌, ◌<◌, ◌≡◌, refl, ap, ◌∙◌, true, false, inl, inr,
  List, [], ◌∷◌, ◌++◌, arith, append-nil, append_assoc, length, ltb,
}
use conpot.Prelude.Bytes.{Bytes}
use conpot.Prelude.Text.{concat}
use conpot.Modbus.Server.{Peer, recv, filled, fill, rounds, put_back}

ltb-less : (a b : ℕ) → a < b → ltb a b ≡ true
ltb-less a b h = ground arith

ltb-same : (a b : ℕ) → a ≡ b → ltb a b ≡ false
ltb-same a b h = ground arith

less-or-same : (a b : ℕ) → a ≤ b → (a < b) ⊎ (a ≡ b)
less-or-same a b h = ground arith

fill-full :
    (peer : Peer) (fuel wanted : ℕ) (request : Bytes) (pieces : List Bytes)
    → length request ≡ wanted
    → fill peer (suc fuel) wanted request pieces ≡ filled request pieces
unfolding fill
fill-full peer fuel wanted request pieces h = rw (ltb-same (length request) wanted h, fill) refl

fill-step :
    (peer : Peer) (fuel wanted : ℕ) (request piece : Bytes) (pieces : List Bytes)
    → length request < wanted
    → fill peer (suc fuel) wanted request (piece ∷ pieces)
      ≡ fill peer fuel wanted (request ++ take 1 piece) (put_back (drop 1 piece) pieces)
unfolding fill recv
fill-step peer fuel wanted request piece pieces h =
    rw (ltb-less (length request) wanted h, fill) refl

-- What is left when one byte is taken.
put_back-concat :
    (bs : Bytes) (pieces : List Bytes) → concat (put_back bs pieces) ≡ bs ++ concat pieces
unfolding concat
put_back-concat [] pieces = refl
put_back-concat (b ∷ bs) pieces = refl

put_back-rounds :
    (b : ℕ) (bs : Bytes) (pieces : List Bytes)
    → rounds (put_back bs pieces) < rounds ((b ∷ bs) ∷ pieces)
unfolding concat
put_back-rounds b [] pieces = omega arith
put_back-rounds b (x ∷ bs) pieces = omega arith

-- Where the bytes so far are no more than the header announces, and the client sends the others, exactly
-- as many as it announces are read, whatever the pieces are: no byte is lost, and none behind the
-- request is read. More rounds than bytes and pieces are enough.
pub fill-exact :
    (peer : Peer) (fuel wanted : ℕ) (request : Bytes) (pieces : List Bytes)
    → rounds pieces ≤ fuel
    → length request ≤ wanted
    → wanted ≤ length (request ++ concat pieces)
    → (whole : Bytes) × (left : List Bytes) × (fill peer fuel wanted request pieces
        ≡ filled whole left)
      × (length whole ≡ wanted)
      × (whole ++ concat left ≡ request ++ concat pieces)
unfolding concat
fill-exact peer zero wanted request pieces f l h = absurd (omega arith)
fill-exact peer (suc fuel) wanted request [] f l h =
    let full : wanted ≤ length request = rw (append-nil request) at h in
    (request, [], fill-full peer fuel wanted request [] (omega arith), omega arith, refl)
fill-exact peer (suc fuel) wanted request ([] ∷ pieces) f l h =
    elim (less-or-same (length request) wanted l) [
      | inr same ↦
          (request, [] ∷ pieces, fill-full peer fuel wanted request ([] ∷ pieces) same, same, refl)
      | inl less ↦
          let (whole, left, run, exact, joined) =
            fill-exact peer fuel wanted (request ++ []) pieces (omega arith)
              (rw (append-nil request) l) (rw (append-nil request) h) in
          (
            whole,
            left,
            fill-step peer fuel wanted request [] pieces less ∙ run,
            exact,
            joined ∙ append_assoc request [] (concat pieces),
          )
    ]
fill-exact peer (suc fuel) wanted request ((x ∷ xs) ∷ pieces) f l h =
    elim (less-or-same (length request) wanted l) [
      | inr same ↦ (
        request,
        (x ∷ xs) ∷ pieces,
        fill-full peer fuel wanted request ((x ∷ xs) ∷ pieces) same,
        same,
        refl,
      )
      | inl less ↦
          let tail : (request ++ x ∷ []) ++ concat (put_back xs pieces)
              ≡ request ++ x ∷ (xs ++ concat pieces) =
            ap (λ (t : Bytes). (request ++ x ∷ []) ++ t) (put_back-concat xs pieces)
            ∙ append_assoc request (x ∷ []) (xs ++ concat pieces) in
          let smaller = put_back-rounds x xs pieces in
          let (whole, left, run, exact, joined) =
            fill-exact peer fuel wanted (request ++ x ∷ []) (put_back xs pieces)
              (omega (arith, smaller)) (rw (length-append request (x ∷ [])) (omega arith))
              (rw tail h) in
          (
            whole,
            left,
            fill-step peer fuel wanted request (x ∷ xs) pieces less ∙ run,
            exact,
            joined ∙ tail,
          )
    ]
