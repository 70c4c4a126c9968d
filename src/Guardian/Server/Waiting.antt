-- ===== src/Guardian/Server/Waiting.antt =====
-- The wait for a whole response.
use conpot.Prelude.{
  ℕ, zero, suc, ◌≤◌, ◌<◌, ◌≡◌, refl, ◌∙◌, true, false, none, some, Bool-cases, inl, inr, List, [],
  ◌∷◌, ◌++◌, arith, append-nil, append_assoc, length,
}
use conpot.Prelude.Bytes.{Bytes, codes}
use conpot.Prelude.Text.{contains, starts_with, concat}
use conpot.Guardian.Server.{has_zeros, is_complete, gather}

contains-append : (c : ℕ) (s t : Bytes) → contains c (s ++ t) ≡ false → contains c s ≡ false
unfolding contains
contains-append c [] t h = refl
contains-append c (x ∷ s) t h = ground (arith, contains-append c s t)

starts_with-append : (s p t : Bytes) → starts_with (s ++ t) p ≡ false → starts_with s p ≡ false
unfolding starts_with
starts_with-append [] [] t h = h
starts_with-append [] (c ∷ p) t h = refl
starts_with-append (x ∷ s) [] t h = h
starts_with-append (x ∷ s) (c ∷ p) t h = ground (arith, starts_with-append s p t)

has_zeros-append : (s t : Bytes) → has_zeros (s ++ t) ≡ false → has_zeros s ≡ false
unfolding has_zeros
has_zeros-append [] t h = refl
has_zeros-append (x ∷ s) t h =
    ground (arith, has_zeros-append s t, starts_with-append s (codes "0") t)

is_complete-append : (s t : Bytes) → is_complete (s ++ t) ≡ false → is_complete s ≡ false
unfolding is_complete
is_complete-append s t h = ground (arith, contains-append 10 s t, has_zeros-append s t)

-- A client that closes the connection before a line end or two zeros came keeps the server in its
-- loop: whatever the fuel, the wait does not end.
pub gather-waits :
    (fuel : ℕ) (response : Bytes) (pieces : List Bytes)
    → is_complete (response ++ concat pieces) ≡ false
    → gather fuel response pieces ≡ none
unfolding gather concat
gather-waits zero response pieces h = refl
gather-waits (suc fuel) response [] h =
    rw (is_complete-append response [] h)
      (gather-waits fuel (response ++ []) [] (rw (append-nil response) h))
gather-waits (suc fuel) response (p ∷ pieces) h =
    rw (is_complete-append response (p ++ concat pieces) h)
      (gather-waits fuel (response ++ p) pieces (rw (append_assoc response p (concat pieces)) h))

-- Where it ends it took at most the pieces that there were, and it loses no byte; more fuel than pieces
-- is enough.
pub gather-takes :
    (fuel : ℕ) (response : Bytes) (pieces : List Bytes)
    → length pieces < fuel
    → is_complete (response ++ concat pieces) ≡ true
    → (r : Bytes × List Bytes) × (gather fuel response pieces ≡ some r)
      × (r.0 ++ concat r.1 ≡ response ++ concat pieces)
      × (is_complete r.0 ≡ true)
      × (length r.1 ≤ length pieces)
unfolding gather concat
gather-takes zero response pieces lt h = absurd (omega arith)
gather-takes (suc fuel) response [] lt h =
    let c : is_complete response ≡ true = rw (append-nil response) at h in
    ((response, []), rw c, refl, c, omega arith)
gather-takes (suc fuel) response (p ∷ pieces) lt h = elim (Bool-cases (is_complete response)) [
  | inl c ↦ ((response, p ∷ pieces), rw c, refl, c, omega arith)
  | inr more ↦
      let (r, found, joined, c, fewer) =
        gather-takes fuel (response ++ p) pieces (omega arith)
          (rw (append_assoc response p (concat pieces)) h) in
      (r, rw more found, joined ∙ append_assoc response p (concat pieces), c, omega arith)
]
