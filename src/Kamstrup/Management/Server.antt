-- ===== src/Kamstrup/Management/Server.antt =====
-- kamstrup_management_server.py: a connection as a loop over what its rounds meet; an empty text is a
-- closed connection. The delay and the log file are left out.
pub mod Log
use conpot.Prelude.{ℕ, Option, none, some, List, [], ◌∷◌, ◌++◌}
use conpot.Prelude.Bytes.{Bytes, codes, Exc, Result, ok, err}
use conpot.Core.Databus.{Value, Databus}
use conpot.Kamstrup.Management.{Object, World, str, get}
use conpot.Kamstrup.Management.Responder.{respond}

-- What `session.add_event` is told.
pub data Event : Type 0 where
  new_connection connection_lost : Event
  -- the request, and the response if it is not None
  traffic : Bytes → Option Bytes → Event

pub record Connection : Type 0 where
  pub databus : Databus Object
  pub events : List Event
  pub sent : List Bytes

-- `waiting` is a client that keeps the connection open and sends nothing.
pub data Ended : Type 0 where
  broke waiting : Ended
  raised : Exc → Ended

-- What a round of the loop meets: the socket's timeout, or the text that `recv` returns.
pub data Arrival : Type 0 where
  timed_out : Arrival
  received : Bytes → Arrival

abbrev with_event : Event → Connection → Connection
with_event e c = record c { events = c.events ++ e ∷ [] }

module _ (w : World) where
  -- What follows `respond` for one request.
  unfoldable pub answered : Bytes → Option Bytes → Connection → Connection
  answered request none c = record c {
    events = c.events ++ traffic request none ∷ connection_lost ∷ [];
  }
  answered request (some response) c = record c {
    events = c.events ++ traffic request (some response) ∷ [];
    sent = c.sent ++ response ∷ [];
  }

  -- What the loop does with how `respond` ended; `next` is its next round.
  unfoldable pub after_respond :
      (next : Connection → Ended × Connection)
      → Bytes
      → Result (Option Bytes)
      → Connection
      → Ended × Connection
  unfolding answered
  after_respond next request (err e) c = (raised e, c)
  after_respond next request (ok none) c = (broke, answered request none c)
  after_respond next request (ok (some response)) c = next (answered request (some response) c)

  -- `while True`
  unfoldable pub handle_arrivals : List Arrival → Connection → Ended × Connection
  unfolding after_respond
  handle_arrivals [] c = (waiting, c)
  handle_arrivals (timed_out ∷ arrivals) c = (broke, with_event connection_lost c)
  handle_arrivals (received [] ∷ arrivals) c = (broke, with_event connection_lost c)
  handle_arrivals (received (b ∷ bs) ∷ arrivals) c =
      let (response, databus) = respond w (b ∷ bs) c.databus in
      after_respond (handle_arrivals arrivals) (b ∷ bs) response (record c { databus = databus })

  abbrev pub banner : Value Object → Bytes
  banner mac = codes "\r\nWelcome...\r\nConnected to [" ++ (str w mac ++ codes "]\r\n")

  -- `handle`, with the address that the banner asks the databus for.
  unfoldable pub greet : List Arrival → Databus Object → Result (Value Object) → Ended × Connection
  unfolding handle_arrivals
  greet arrivals db (err e) =
      (raised e, record { databus = db; events = new_connection ∷ []; sent = [] })
  greet arrivals db (ok mac) =
      handle_arrivals arrivals
        (record { databus = db; events = new_connection ∷ []; sent = banner mac ∷ [] })

  unfoldable pub handle : List Arrival → Databus Object → Ended × Connection
  unfolding greet
  handle arrivals db = greet arrivals db (get w (codes "mac_address") db).0
