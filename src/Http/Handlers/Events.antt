-- ===== src/Http/Handlers/Events.antt =====
-- The event of a request.
use conpot.Prelude.{ℕ, ◌≡◌, refl, Option, some, List, [], ◌∷◌, ◌++◌}
use mathlib.Core.Path.{subst}
use conpot.Prelude.Bytes.{Bytes, Result, ok, err}
use conpot.Prelude.Dict.{Dict}
use conpot.Prelude.Exec.{Exec, modify, resume, ◌>>=◌}
use conpot.Prelude.Exec.Keeps.{Keeps, Keeps-if, Keeps-pure}
use conpot.Prelude.Text.{ℤ}
use conpot.Http.State.{Server, Request, Connection, World, Event}
use conpot.Http.Handlers.{
  log, response_of, do_get, do_post, do_head, do_trace, do_options, send_error,
}
use conpot.Http.Handlers.Quiet.{
  Quiet, Quiet-write, Quiet-read_body, Quiet-load_page, Quiet-load_disabled, Quiet-load_status,
  Quiet-send_head, Quiet-send_payload, Quiet-headers_or_read,
}

-- How a handler ends, for the events before it: with an exception and no event, or with one event that
-- has the path, a body, and the response of a status.
abbrev pub Ended : Option Bytes → List Event → Result (Unit {0}) → List Event → Type 0
Ended path before (err exc) after = after ≡ before
Ended path before (ok u) after =
    (body : Option Bytes) × (status : ℤ) × (after
      ≡ before ++ record { path = path; body = body; response = response_of status } ∷ [])

pub record Logs (path : Option Bytes) (method : Exec Connection (Unit {0})) : Type 0 where
  pub run : (c : Connection) → Ended path c.events (method c).0 (method c).1.events

Logs-log : (path body : Option Bytes) (status : ℤ) → Logs path (log path body status)
unfolding log modify
Logs-log path body status = record { run = λ c. (body, status, refl) }

Ended-resume :
    {A : Type 0} (path : Option Bytes) (before : List Event) (next : A → Exec Connection (Unit {0}))
    (r : Result A) (c : Connection)
    → ((a : A) → Logs path (next a))
    → c.events ≡ before
    → Ended path before (resume next (r, c)).0 (resume next (r, c)).1.events
Ended-resume path before next (ok a) c k e =
    subst (λ (es : List Event). Ended path es (next a c).0 (next a c).1.events) e ((k a).run c)
Ended-resume path before next (err exc) c k e = e

Logs-bind :
    {A : Type 0} (path : Option Bytes) (first : Exec Connection A)
    (next : A → Exec Connection (Unit {0}))
    → ((es : List Event) → Keeps (Quiet es) first)
    → ((a : A) → Logs path (next a))
    → Logs path (first >>= next)
unfolding ◌>>=◌
Logs-bind path first next q k = record {
  run = λ c. Ended-resume path c.events next (first c).0 (first c).1 k ((q c.events).after c refl);
}

-- The methods; the standard library calls `do_` and the name of the method.
pub data Method : Type 0 where
  get post head trace options : Method

abbrev pub do_method : Method → World → Server → ℕ → Request → Exec Connection (Unit {0})
do_method get = do_get
do_method post = do_post
do_method head = do_head
do_method trace = do_trace
do_method options = do_options

ruleset log_rules = (
  Logs-bind, Logs-log, Quiet-write, Quiet-read_body, Quiet-load_page, Quiet-load_disabled,
  Quiet-send_head, Quiet-send_payload, Quiet-load_status, Quiet-headers_or_read, Keeps-if,
  Keeps-pure,
)

Logs-do_method :
    (method : Method) (w : World) (server : Server) (fuel : ℕ) (request : Request)
    → Logs (some request.path) (do_method method w server fuel request)
unfolding do_get do_post do_head do_trace do_options
Logs-do_method get w server fuel request = search log_rules depth 30
Logs-do_method post w server fuel request = search log_rules depth 30
Logs-do_method head w server fuel request = search log_rules depth 30
Logs-do_method trace w server fuel request = search log_rules depth 30
Logs-do_method options w server fuel request = search log_rules depth 30

Logs-send_error :
    (w : World) (server : Server) (fuel : ℕ) (code : ℤ) (version : Bytes) (path : Option Bytes)
    (received : Option (Dict Bytes Bytes))
    → Logs path (send_error w server fuel code version path received)
unfolding send_error
Logs-send_error w server fuel code version path received = search log_rules depth 30

-- Every handler of a method adds one event with the path of the request, at its end, or it raises and
-- adds none; the earlier events stay as they are. So does `send_error`.
pub do_method-event :
    (method : Method) (w : World) (server : Server) (fuel : ℕ) (request : Request) (code : ℤ)
    (version : Bytes) (path : Option Bytes) (received : Option (Dict Bytes Bytes)) (c : Connection)
    → Ended
        (some request.path)
        c.events
        (do_method method w server fuel request c).0
        (do_method method w server fuel request c).1.events
      × Ended path c.events
          (send_error w server fuel code version path received c).0
          (send_error w server fuel code version path received c).1.events
do_method-event method w server fuel request code version path received c = (
  (Logs-do_method method w server fuel request).run c,
  (Logs-send_error w server fuel code version path received).run c,
)
