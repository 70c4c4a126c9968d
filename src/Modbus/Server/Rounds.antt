-- ===== src/Modbus/Server/Rounds.antt =====
-- The loop of a connection takes something from it in every round.
use conpot.Prelude.{
  ℕ, zero, suc, ◌+◌, ◌≤◌, ◌<◌, List, [], ◌∷◌, ◌++◌, take, drop, length, bytes_eq, ltb, arith,
  Bool-cases, Option-cases, inl, inr,
}
use conpot.Prelude.Bytes.{Bytes, codes}
use conpot.Prelude.Dict.{Dict}
use conpot.Prelude.Text.{concat, lower, strip}
use conpot.Modbus.SlaveDb.{Outcome, sent, silent}
use conpot.Modbus.SlaveDb
use conpot.Modbus.Server.{
  falls_silent, recv, Filled, filled, late, endless, fill, rounds, put_back, Ended, out_of_fuel,
  waits, new_connection, Connection, respond, dispatch, start, serve, handle, read_length,
}

-- `handle` breaks, times out or raises: the fuel did not run out, and it is not held in a request.
abbrev pub Finishes : Ended → Type 0
Finishes out_of_fuel = ⊥
Finishes waits = ⊥
Finishes _ = Unit

-- The wait for a request ends, and what is left behind the request takes no more rounds than a number.
abbrev Shrinks : ℕ → Filled → Type 0
Shrinks n (filled whole left) = rounds left ≤ n
Shrinks n late = Unit
Shrinks n endless = ⊥

put_back-rounds-drop :
    (n b : ℕ) (bs : Bytes) (pieces : List Bytes)
    → rounds (put_back (drop n bs) pieces) < rounds ((b ∷ bs) ∷ pieces)
unfolding concat
put_back-rounds-drop zero b [] pieces = omega arith
put_back-rounds-drop zero b (x ∷ bs) pieces = omega arith
put_back-rounds-drop (suc n) b [] pieces = omega arith
put_back-rounds-drop (suc n) b (x ∷ bs) pieces =
    let fewer = put_back-rounds-drop n x bs pieces in omega (arith, fewer)

Shrinks-fill :
    (n fuel wanted : ℕ) (request : Bytes) (pieces : List Bytes)
    → rounds pieces ≤ n
    → rounds pieces ≤ fuel
    → Shrinks n (fill falls_silent fuel wanted request pieces)
unfolding fill recv concat
Shrinks-fill n zero wanted request pieces h k = absurd (omega arith)
Shrinks-fill n (suc fuel) wanted request [] h k = elim (Bool-cases (ltb (length request) wanted)) [
  | inl less ↦ rw (less, fill) tt
  | inr enough ↦ rw (enough, fill) h
]
Shrinks-fill n (suc fuel) wanted request ([] ∷ pieces) h k =
    elim (Bool-cases (ltb (length request) wanted)) [
      | inl less ↦
          rw (less, fill)
            (Shrinks-fill n fuel wanted (request ++ []) pieces (omega arith) (omega arith))
      | inr enough ↦ rw (enough, fill) h
    ]
Shrinks-fill n (suc fuel) wanted request ((x ∷ xs) ∷ pieces) h k =
    elim (Bool-cases (ltb (length request) wanted)) [
      | inl less ↦
          let fewer = put_back-rounds-drop 0 x xs pieces in
          rw (less, fill)
            (Shrinks-fill n fuel wanted (request ++ x ∷ []) (put_back xs pieces)
              (omega (arith, fewer)) (omega (arith, fewer)))
      | inr enough ↦ rw (enough, fill) h
    ]

module _ {S : Type 0} (handle_request : Bytes → Dict ℕ S → Outcome × Dict ℕ S) where
  respond-Finishes :
      (next : Connection S → Ended × Connection S) (request : Bytes) (outcome : Outcome)
      (c : Connection S)
      → ((c' : Connection S) → Finishes (next c').0)
      → Finishes (respond handle_request next request outcome c).0
  unfolding respond
  respond-Finishes next request (sent []) c h = tt
  respond-Finishes next request (sent (b ∷ bs)) c h = h _
  respond-Finishes next request silent c h = tt
  respond-Finishes next request (SlaveDb.uncaught e) c h = tt
  respond-Finishes next request SlaveDb.type_error c h = tt
  respond-Finishes next request SlaveDb.struct_error c h = tt
  respond-Finishes next request SlaveDb.attribute_error c h = tt

  dispatch-Finishes :
      (next : List Bytes → Connection S → Ended × Connection S) (n : ℕ) (f : Filled)
      (c : Connection S)
      → Shrinks n f
      → ((left : List Bytes) (c' : Connection S) → rounds left ≤ n → Finishes (next left c').0)
      → Finishes (dispatch handle_request next f c).0
  unfolding dispatch
  dispatch-Finishes next n endless c s h = absurd s
  dispatch-Finishes next n late c s h = tt
  dispatch-Finishes next n (filled request left) c s h =
      respond-Finishes (next left) request _ _ λ c'. h left c' s

  start-Finishes :
      (next : List Bytes → Connection S → Ended × Connection S) (n : ℕ) (request : Bytes)
      (left : List Bytes) (c : Connection S)
      → rounds left ≤ n
      → ((left' : List Bytes) (c' : Connection S) → rounds left' ≤ n → Finishes (next left' c').0)
      → Finishes (start handle_request next falls_silent request left c).0
  unfolding start
  start-Finishes next n [] left c s h = tt
  start-Finishes next n (b ∷ bs) left c s h =
      elim (Bool-cases (bytes_eq (lower (strip (b ∷ bs))) (codes "quit."))) [
        | inl quit ↦ rw quit tt
        | inr go ↦ rw go (elim (Option-cases (read_length (b ∷ bs))) [
          | inl short ↦ rw short tt
          | inr (m, long) ↦ rw long (
              dispatch-Finishes next n _ c
                (Shrinks-fill n (rounds left) (m + 6) (b ∷ bs) left s (omega arith)) h)
        ])
      ]

  serve-Finishes :
      (fuel : ℕ) (pieces : List Bytes) (c : Connection S)
      → rounds pieces ≤ fuel
      → Finishes (serve handle_request fuel falls_silent pieces c).0
  unfolding serve recv concat start
  serve-Finishes zero pieces c h = absurd (omega arith)
  serve-Finishes (suc fuel) [] c h = tt
  serve-Finishes (suc fuel) ([] ∷ pieces) c h = tt
  serve-Finishes (suc fuel) ((x ∷ xs) ∷ pieces) c h =
      let fewer = put_back-rounds-drop 6 x xs pieces in
      start-Finishes (serve handle_request fuel falls_silent) fuel (x ∷ take 6 xs)
        (put_back (drop 6 xs) pieces) c (omega (arith, fewer))
        λ left c' s. serve-Finishes fuel left c' s

  -- Whatever the databank does and whatever a client sends, in whatever pieces, that does not close the
  -- connection but falls silent: the loop of its connection ends, by a break, by the timeout or by an
  -- exception. Neither the loop nor the wait for a whole request runs on, and no more rounds are made
  -- than there are bytes and pieces.
  pub handle-Finishes :
      (pieces : List Bytes) (slaves : Dict ℕ S)
      → Finishes (handle handle_request falls_silent pieces slaves).0
  unfolding handle
  handle-Finishes pieces slaves =
      serve-Finishes (rounds pieces) pieces
        (record { slaves = slaves; sent = []; events = new_connection ∷ [] }) (omega arith)
