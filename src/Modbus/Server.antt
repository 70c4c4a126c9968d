-- ===== src/Modbus/Server.antt =====
-- modbus_server.py: a connection, over the pieces that the socket delivers. What the client does behind
-- them is a parameter; the delay before a silent end and the log file are left out.
pub mod Requests
pub mod Rounds
use conpot.Prelude.{
  ℕ, zero, suc, ◌+◌, Bool, true, false, Option, none, some, List, [], ◌∷◌, ◌++◌, length, take, drop,
  ltb, bytes_eq, if◌then◌else◌,
}
use conpot.Prelude.Bytes.{Bytes, codes, be16}
use conpot.Prelude.Dict.{Dict}
use conpot.Prelude.Text.{strip, lower, concat}
use conpot.Modbus.SlaveDb.{Outcome, sent, silent}

-- The client closes the connection, or sends nothing until the timeout.
pub data Peer : Type 0 where
  closes falls_silent : Peer

-- `session.add_event`; the request and the response stand for the log data.
pub data Event : Type 0 where
  new_connection connection_lost connection_quit connection_terminated : Event
  traffic : Bytes → Outcome → Event

pub record Connection (S : Type 0) : Type 0 where
  pub slaves : Dict ℕ S
  pub sent : List Bytes
  pub events : List Event

-- How `handle` ends: it breaks, it returns from the timeout, an exception leaves it, or it reads the
-- empty text for ever.
pub data Ended : Type 0 where
  broke timed_out struct_error waits out_of_fuel : Ended
  raised : Outcome → Ended

abbrev pub put_back : Bytes → List Bytes → List Bytes
put_back [] pieces = pieces
put_back (b ∷ bs) pieces = (b ∷ bs) ∷ pieces

abbrev at_end : Peer → Option (Bytes × List Bytes)
at_end closes = some ([], [])
at_end falls_silent = none

-- What `recv(n)` gives: at most one piece; `none` is the timeout.
unfoldable pub recv : Peer → ℕ → List Bytes → Option (Bytes × List Bytes)
recv peer n [] = at_end peer
recv peer n (p ∷ pieces) = some (take n p, put_back (drop n p) pieces)

-- How `while len(request) < (length + 6)` ends.
pub data Filled : Type 0 where
  filled : Bytes → List Bytes → Filled
  late endless : Filled

unfoldable pub fill : Peer → ℕ → ℕ → Bytes → List Bytes → Filled
unfolding recv
fill peer zero wanted request pieces = endless
fill peer (suc fuel) wanted request pieces = elim (ltb (length request) wanted) [
  | false ↦ filled request pieces
  | true ↦ elim (recv peer 1 pieces) [
    | none ↦ late
    | some (new_byte, left) ↦ fill peer fuel wanted (request ++ new_byte) left
  ]
]

-- More than the rounds that take something.
abbrev pub rounds : List Bytes → ℕ
rounds pieces = suc (length (concat pieces) + length pieces)

-- `struct.unpack(">HHH", request[:6])`, as far as it is used.
unfoldable pub read_length : Bytes → Option ℕ
read_length (_ ∷ _ ∷ _ ∷ _ ∷ a ∷ b ∷ _) = some (be16 a b)
read_length _ = none

module _ {S : Type 0} (handle_request : Bytes → Dict ℕ S → Outcome × Dict ℕ S) where
  abbrev pub with_event : Event → Connection S → Connection S
  with_event event c = record c { events = c.events ++ event ∷ [] }

  -- What follows `handle_request`; `next` is the rest of the loop.
  unfoldable pub respond :
      (Connection S → Ended × Connection S) → Bytes → Outcome → Connection S → Ended × Connection S
  respond next request (sent []) c =
      (broke, with_event connection_terminated (with_event (traffic request (sent [])) c))
  respond next request (sent (b ∷ bs)) c = next (record c {
    sent = c.sent ++ (b ∷ bs) ∷ [];
    events = c.events ++ traffic request (sent (b ∷ bs)) ∷ [];
  })
  respond next request silent c =
      (broke, with_event connection_terminated (with_event (traffic request silent) c))
  respond next request outcome c = (raised outcome, c)

  -- A whole request is handed to the databank.
  unfoldable pub dispatch :
      (List Bytes → Connection S → Ended × Connection S)
      → Filled
      → Connection S
      → Ended × Connection S
  unfolding respond
  dispatch next endless c = (waits, c)
  dispatch next late c = (timed_out, with_event connection_lost c)
  dispatch next (filled request left) c =
      let (outcome, slaves) = handle_request request c.slaves in
      respond (next left) request outcome (record c { slaves = slaves })

  -- The start of a request.
  unfoldable pub start :
      (List Bytes → Connection S → Ended × Connection S)
      → Peer
      → Bytes
      → List Bytes
      → Connection S
      → Ended × Connection S
  unfolding dispatch fill read_length strip lower
  start next peer [] left c = (broke, with_event connection_lost c)
  start next peer (b ∷ bs) left c =
      if bytes_eq (lower (strip (b ∷ bs))) (codes "quit.")
      then (broke, with_event connection_quit c)
      else elim (read_length (b ∷ bs)) [
        | none ↦ (struct_error, c)
        | some length' ↦ dispatch next (fill peer (rounds left) (length' + 6) (b ∷ bs) left) c
      ]

  -- `while True`; the fuel is more than the bytes.
  unfoldable pub serve : ℕ → Peer → List Bytes → Connection S → Ended × Connection S
  unfolding start recv
  serve zero peer pieces c = (out_of_fuel, c)
  serve (suc fuel) peer pieces c = elim (recv peer 7 pieces) [
    | none ↦ (timed_out, with_event connection_lost c)
    | some (request, left) ↦ start (serve fuel peer) peer request left c
  ]

  unfoldable pub handle : Peer → List Bytes → Dict ℕ S → Ended × Connection S
  unfolding serve
  handle peer pieces slaves =
      serve (rounds pieces) peer pieces
        (record { slaves = slaves; sent = []; events = new_connection ∷ [] })
