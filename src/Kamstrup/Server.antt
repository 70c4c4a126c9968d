-- ===== src/Kamstrup/Server.antt =====
-- kamstrup_server.py: a connection as a loop over what its rounds meet. Time, the delay before
-- an answer and the log are left out; the databus is the parameter `get_value`. That a reboot has
-- cleared `server_active` is something that a round meets, as what `recv` gives is.
pub mod Progress
use conpot.Prelude.{
  ℕ, zero, suc, ◌+◌, Bool, true, false, Option, none, some, List, [], ◌∷◌, ◌++◌, length,
  if◌then◌else◌,
}
use conpot.Prelude.Bytes.{Bytes, Exc, Result, ok, err}
use conpot.Kamstrup.Messages.{Request, get_registers, request_unknown, serialize_registers}
use conpot.Kamstrup.RequestParser.{Parser, add_bytes, get_request}
use conpot.Kamstrup.RequestParser
use conpot.Kamstrup.CommandResponder.{Responder, respond}

-- What `session.add_event` is told.
pub data Event : Type 0 where
  new_connection connection_lost : Event
  -- the message bytes of the request, and the response if there is one
  traffic : Bytes → Option Bytes → Event

pub record Connection : Type 0 where
  pub parser : Parser
  pub events : List Event
  pub sent : List Bytes

abbrev pub message_bytes : Request → Bytes
message_bytes (get_registers _ message _) = message
message_bytes (request_unknown _ _ message) = message

-- How a loop ends: it breaks, or an exception leaves `handle`; or the outer loop still waits in `recv`
-- for a client that keeps the connection open.
pub data Ended : Type 0 where
  broke waiting out_of_fuel : Ended
  raised : Exc → Ended

-- What a round of the outer loop meets: a reboot has set `server_active` to False, the socket times
-- out, or `recv` returns a text; the empty one is a closed connection.
pub data Arrival : Type 0 where
  inactive timed_out : Arrival
  received : Bytes → Arrival

pub data Round : Type 0 where
  again : Round
  ended : Ended → Round

abbrev pub with_event : Event → Connection → Connection
with_event e c = record c { events = c.events ++ e ∷ [] }

module _ (crc16xmodem get_value : Bytes → ℕ) (responder : Responder) where
  -- One round for a request: `some` is the answer that was sent.
  unfoldable pub answer : Request → Connection → Result (Option Bytes) × Connection
  answer request c = elim (respond responder request) [
    | err e ↦ (err e, c)
    | ok none ↦ (ok none, with_event (traffic (message_bytes request) none) c)
    | ok (some registers) ↦
        elim (serialize_registers get_value crc16xmodem responder.communication_address registers) [
          | err e ↦ (err e, c)
          | ok frame ↦ (
            ok (some frame),
            record c {
              events = c.events ++ traffic (message_bytes request) (some frame) ∷ [];
              sent = c.sent ++ frame ∷ [];
            },
          )
        ]
  ]

  -- One round of the inner loop.
  unfoldable pub round : Connection → Round × Connection
  unfolding answer
  round c =
      let (request, parser) = get_request crc16xmodem c.parser in
      let c' = record c { parser = parser } in
      elim request [
        | err e ↦ (ended (raised e), c')
        | ok none ↦ (ended broke, with_event connection_lost c')
        | ok (some r) ↦
            let (sent, c'') = answer r c' in
            elim sent [
              | err e ↦ (ended (raised e), c'')
              | ok none ↦ (ended broke, c'')
              | ok (some frame) ↦ (again, c'')
            ]
      ]

  -- The inner loop. It ends at the first request that is not answered.
  unfoldable pub serve : ℕ → Connection → Ended × Connection
  unfolding round
  serve zero c = (out_of_fuel, c)
  serve (suc fuel) c = let (r, c') = round c in elim r [ again ↦ serve fuel c' | ended e ↦ (e, c') ]

  -- The outer loop `while self.server_active`, over what its rounds meet; where nothing is left `recv`
  -- blocks. The fuel is one more than the bytes in the parser.
  unfoldable pub handle_arrivals : List Arrival → Connection → Ended × Connection
  unfolding serve
  handle_arrivals [] c = (waiting, c)
  handle_arrivals (inactive ∷ arrivals) c = (broke, c)
  handle_arrivals (timed_out ∷ arrivals) c = (broke, with_event connection_lost c)
  handle_arrivals (received [] ∷ arrivals) c = (broke, with_event connection_lost c)
  handle_arrivals (received (b ∷ bs) ∷ arrivals) c =
      let fed = record c { parser = add_bytes (b ∷ bs) c.parser } in
      let (end, c') = serve (suc (length fed.parser.bytes)) fed in
      let rest = handle_arrivals arrivals c' in elim end [ broke ↦ rest | other ↦ (other, c') ]

  -- `handle`: a new session gets its first event and the connection its own parser.
  unfoldable pub handle : List Arrival → Ended × Connection
  unfolding handle_arrivals
  handle arrivals =
      handle_arrivals arrivals
        (record { parser = RequestParser.initial; events = new_connection ∷ []; sent = [] })
