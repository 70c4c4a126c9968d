-- ===== src/Kamstrup/Management/Server/Log.antt =====
-- A whole connection: the databus stays valid, and the events tell what was sent.
use conpot.Prelude.{
  ◌≡◌, refl, sym, ap, ◌∙◌, Option, none, some, List, [], ◌∷◌, ◌++◌, append-nil, append_assoc,
}
use conpot.Prelude.Bytes.{Bytes, codes, Result, ok, err}
use conpot.Core.Databus.{Value, Databus, get_value}
use conpot.Kamstrup.Management.{Object, object_has_eq, World, get}
use conpot.Kamstrup.Management.Responder.{respond}
use conpot.Kamstrup.Management.Effects.Valid.{IsValid, respond-IsValid}
use conpot.Kamstrup.Management.Server.{
  Event, new_connection, connection_lost, traffic, Connection, answered, after_respond,
  handle_arrivals, banner, greet, handle, Ended, Arrival, timed_out, received,
}

-- The responses that the events tell of.
abbrev pub responses : List Event → List Bytes
responses [] = []
responses (traffic _ (some r) ∷ events) = r ∷ responses events
responses (traffic _ none ∷ events) = responses events
responses (new_connection ∷ events) = responses events
responses (connection_lost ∷ events) = responses events

responses-append : (es fs : List Event) → responses (es ++ fs) ≡ responses es ++ responses fs
responses-append [] fs = refl
responses-append (traffic _ (some r) ∷ es) fs = ap (◌∷◌ r) (responses-append es fs)
responses-append (traffic _ none ∷ es) fs = responses-append es fs
responses-append (new_connection ∷ es) fs = responses-append es fs
responses-append (connection_lost ∷ es) fs = responses-append es fs

module _ (w : World) (first : List Bytes) where
  -- What was sent is what came first and then the responses of the events.
  abbrev Logged : Connection → Type 0
  Logged c = c.sent ≡ first ++ responses c.events

  Logged-unanswered :
      (c : Connection) (es : List Event)
      → responses es ≡ []
      → Logged c
      → c.sent ≡ first ++ responses (c.events ++ es)
  Logged-unanswered c es h l =
      l
      ∙ ap (◌++◌ first)
          (sym (responses-append c.events es ∙ rw h (append-nil (responses c.events))))

  Logged-answered :
      (request response : Bytes) (c : Connection)
      → Logged c
      → Logged (answered w request (some response) c)
  unfolding answered
  Logged-answered request response c l =
      rw (responses-append c.events (traffic request (some response) ∷ []))
        (rw l (append_assoc first (responses c.events) (response ∷ [])))

  after_respond-Logged :
      (next : Connection → Ended × Connection)
      → ((c : Connection) → Logged c → Logged (next c).1)
      → (request : Bytes) (r : Result (Option Bytes)) (c : Connection) → Logged c
      → Logged (after_respond w next request r c).1
  unfolding after_respond
  after_respond-Logged next keep request (err e) c l = l
  after_respond-Logged next keep request (ok none) c l =
      Logged-unanswered c (traffic request none ∷ connection_lost ∷ []) refl l
  after_respond-Logged next keep request (ok (some response)) c l =
      keep (answered w request (some response) c) (Logged-answered request response c l)

  handle_arrivals-Logged :
      (arrivals : List Arrival) (c : Connection)
      → Logged c
      → Logged (handle_arrivals w arrivals c).1
  unfolding handle_arrivals
  handle_arrivals-Logged [] c l = l
  handle_arrivals-Logged (timed_out ∷ arrivals) c l =
      Logged-unanswered c (connection_lost ∷ []) refl l
  handle_arrivals-Logged (received [] ∷ arrivals) c l =
      Logged-unanswered c (connection_lost ∷ []) refl l
  handle_arrivals-Logged (received (b ∷ bs) ∷ arrivals) c l =
      let (r, databus) = respond w (b ∷ bs) c.databus in
      after_respond-Logged (handle_arrivals w arrivals) (handle_arrivals-Logged arrivals) (b ∷ bs) r
        (record c { databus = databus }) l

module _ (w : World) where
  -- What a client was sent, by what the databus answered for the banner.
  abbrev pub IsLogged : Result (Value Object) → Connection → Type 0
  IsLogged (ok mac) c = c.sent ≡ banner w mac ∷ responses c.events
  IsLogged (err e) c = (c.sent ≡ []) × (responses c.events ≡ [])

  greet-IsLogged :
      (arrivals : List Arrival) (db : Databus Object) (r : Result (Value Object))
      → IsLogged r (greet w arrivals db r).1
  unfolding greet
  greet-IsLogged arrivals db (err e) = (refl, refl)
  greet-IsLogged arrivals db (ok mac) =
      handle_arrivals-Logged w (banner w mac ∷ []) arrivals
        (record { databus = db; events = new_connection ∷ []; sent = banner w mac ∷ [] }) refl

  -- Whatever a client sends, what it was sent is the banner with what the databus answers for
  -- `mac_address`, and then, in order, the responses that the events of its connection hold; and if
  -- the databus has no such key, it was sent nothing, and no event holds a response.
  pub handle-IsLogged :
      (arrivals : List Arrival) (db : Databus Object)
      → IsLogged (get_value w.call (codes "mac_address") db) (handle w arrivals db).1
  unfolding handle get
  handle-IsLogged arrivals db =
      greet-IsLogged arrivals db (get_value w.call (codes "mac_address") db)

  after_respond-IsValid :
      (next : Connection → Ended × Connection)
      → ((c : Connection) → IsValid c.databus → IsValid (next c).1.databus)
      → (request : Bytes) (r : Result (Option Bytes)) (c : Connection) → IsValid c.databus
      → IsValid (after_respond w next request r c).1.databus
  unfolding after_respond
  after_respond-IsValid next keep request (err e) c v = v
  after_respond-IsValid next keep request (ok none) c v = v
  after_respond-IsValid next keep request (ok (some response)) c v =
      keep (answered w request (some response) c) v

  handle_arrivals-IsValid :
      (arrivals : List Arrival) (c : Connection)
      → IsValid c.databus
      → IsValid (handle_arrivals w arrivals c).1.databus
  unfolding handle_arrivals
  handle_arrivals-IsValid [] c v = v
  handle_arrivals-IsValid (timed_out ∷ arrivals) c v = v
  handle_arrivals-IsValid (received [] ∷ arrivals) c v = v
  handle_arrivals-IsValid (received (b ∷ bs) ∷ arrivals) c v =
      let (r, databus) = respond w (b ∷ bs) c.databus in
      after_respond-IsValid (handle_arrivals w arrivals) (handle_arrivals-IsValid arrivals) (b ∷ bs)
        r (record c { databus = databus }) (respond-IsValid w (b ∷ bs) c.databus v)

  greet-IsValid :
      (arrivals : List Arrival) (db : Databus Object) (r : Result (Value Object))
      → IsValid db
      → IsValid (greet w arrivals db r).1.databus
  unfolding greet
  greet-IsValid arrivals db (err e) v = v
  greet-IsValid arrivals db (ok mac) v =
      handle_arrivals-IsValid arrivals
        (record { databus = db; events = new_connection ∷ []; sent = banner w mac ∷ [] }) v

  -- A whole connection, however it ends, leaves a valid databus valid: no device name of more than 20
  -- bytes, and under the keys of the ports of the alarm server, of server A and of the two channels
  -- nothing but a number from 1 to 65535 or a text of one, as the template has them.
  pub handle-IsValid :
      (arrivals : List Arrival) (db : Databus Object)
      → IsValid db
      → IsValid (handle w arrivals db).1.databus
  unfolding handle
  handle-IsValid arrivals db = greet-IsValid arrivals db (get w (codes "mac_address") db).0
