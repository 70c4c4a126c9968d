-- ===== src/Kamstrup/CommandResponder/Answers.antt =====
-- What the answer to a register request holds.
use conpot.Prelude.{
  ℕ, ◌≡◌, refl, ap, ◌∙◌, inl, inr, false, Option, none, some, List, [], ◌∷◌, ◌==◌, ==_iff, ==_refl,
  if◌then◌else◌, Bool-cases, Option-cases, nat_eq,
}
use conpot.Prelude.Bytes.{Bytes, Result, ok, err, ok-injective, ◌>>=◌}
use conpot.Prelude.Dict.{Dict, get, has, put, get-put, has-get, get-empty}
use conpot.Kamstrup.Messages.{Register, get_registers}
use conpot.Kamstrup.CommandResponder.{Responder, add_registers, configure, known_registers, respond}

-- The first register of the template with a number.
abbrev pub find_register : ℕ → List Register → Option Register
find_register n [] = none
find_register n (r ∷ rs) = if r.name == n then some r else find_register n rs

-- The template's registers with the requested numbers, in the order of the request.
abbrev pub requested : List Register → List ℕ → List Register
requested template [] = []
requested template (n ∷ ns) = elim (find_register n template) [
  | none ↦ requested template ns
  | some r ↦ r ∷ requested template ns
]

-- What a table holds comes first.
or_else : Option Register → Option Register → Option Register
or_else none o = o
or_else (some r) o = some r

get-add_registers :
    (n : ℕ) (template : List Register) (d d' : Dict ℕ Register)
    → add_registers template d ≡ ok d'
    → get n d' ≡ or_else (get n d) (find_register n template)
unfolding add_registers or_else
get-add_registers n [] d d' e = elim (Option-cases (get n d)) [
  | inl missing ↦ rw missing (rw (← ok-injective e) missing)
  | inr (r, found) ↦ rw found (rw (← ok-injective e) found)
]
get-add_registers n (r ∷ rs) d d' e = elim (Bool-cases (has r.name d)) [
  | inl taken ↦ cc (rw taken at e)
  | inr new ↦
      get-add_registers n rs (put r.name r d) d' (rw new at e)
      ∙ rw (get-put r.name n r d) (elim (Bool-cases (r.name == n)) [
        | inl same ↦
            let missing : get n d ≡ none = has_no (r.name) n d ((==_iff r.name n).0 same) new in
            rw (same, missing)
        | inr other ↦ rw other
      ])
]
  where
    has_no : (m k : ℕ) (t : Dict ℕ Register) → m ≡ k → has m t ≡ false → get k t ≡ none
    has_no m k t same no_entry = elim (Option-cases (get k t)) [
      | inl missing ↦ missing
      | inr (s, found) ↦ cc (has-get k s t found, ap (λ (j : ℕ). has j t) same)
    ]

known_registers-requested :
    (template : List Register) (d : Dict ℕ Register) (ns : List ℕ)
    → ((n : ℕ) → get n d ≡ find_register n template)
    → known_registers d ns ≡ requested template ns
unfolding known_registers
known_registers-requested template d [] h = refl
known_registers-requested template d (n ∷ ns) h = elim (Option-cases (find_register n template)) [
  | inl missing ↦
      rw (missing, requested)
        (rw (h n ∙ missing, known_registers) (known_registers-requested template d ns h))
  | inr (r, found) ↦
      rw (found, requested)
        (rw (h n ∙ found, known_registers) (ap (◌∷◌ r) (known_registers-requested template d ns h)))
]

-- A meter that is set up from a template answers a register request at its own address with exactly the
-- registers of the template that have the requested numbers, unchanged and in the order of the request;
-- numbers that the template does not have are left out.
pub respond-requested :
    (a : ℕ) (template : List Register) (c : Responder) (message : Bytes) (ns : List ℕ)
    → configure a template ≡ ok c
    → respond c (get_registers a message ns) ≡ ok (some (requested template ns))
unfolding configure respond or_else
respond-requested a template c message ns h = configured (add_registers template []) refl h
  where
    configured :
        (x : Result (Dict ℕ Register))
        → add_registers template [] ≡ x
        → (x >>= λ registers. ok (record { registers = registers; communication_address = a }))
          ≡ ok c
        → respond c (get_registers a message ns) ≡ ok (some (requested template ns))
    configured (err x) e k = cc
    configured (ok d) e k = rw (← ok-injective k) (
        rw (==_refl a) (
          ap (λ (rs : List Register). ok (some rs))
            (known_registers-requested template d ns
              λ n. get-add_registers n template [] d e ∙ rw (get-empty {V = Register} n))))
