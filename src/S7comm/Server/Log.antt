-- ===== src/S7comm/Server/Log.antt =====
-- What the events of a connection tell of what was sent.
use conpot.Prelude.{ℕ, zero, suc, ◌≡◌, refl, ap, ap₂, ◌∙◌, List, [], ◌∷◌, ◌++◌, append-nil}
use conpot.Prelude.Bytes.{Bytes, Result}
use conpot.Prelude.Dict.{Dict}
use conpot.Prelude.Exec.{Exec, pure, modify}
use conpot.Prelude.Exec.Keeps.{Keeps, keeps_rules, Keeps-bind, Keeps-if, Keeps-pure}
use conpot.S7comm.S7.{S7}
use conpot.S7comm.Server.{
  Event, new_connection, connection_lost, traffic, unknown_before_handshake,
  unknown_after_handshake, Connection, Ended, receive, add_event, transmit, serve_request,
  serve_requests, serve_session, after_confirm, serve_packet, receive_body, serve_head, serve,
  handle, out_of_fuel,
}

-- The responses that the events tell of.
abbrev pub responses : List Event → List Bytes
responses [] = []
responses (traffic _ response ∷ events) = response ∷ responses events
responses (new_connection ∷ events) = responses events
responses (connection_lost ∷ events) = responses events
responses (unknown_before_handshake _ ∷ events) = responses events
responses (unknown_after_handshake _ ∷ events) = responses events

abbrev pub IsLogged : Connection → Type 0
IsLogged c = responses c.events ≡ c.sent

responses-append : (es fs : List Event) → responses (es ++ fs) ≡ responses es ++ responses fs
responses-append [] fs = refl
responses-append (traffic _ r ∷ es) fs = ap (◌∷◌ r) (responses-append es fs)
responses-append (new_connection ∷ es) fs = responses-append es fs
responses-append (connection_lost ∷ es) fs = responses-append es fs
responses-append (unknown_before_handshake _ ∷ es) fs = responses-append es fs
responses-append (unknown_after_handshake _ ∷ es) fs = responses-append es fs

receive-IsLogged : (f : List Bytes → Bytes × List Bytes) → Keeps IsLogged (receive f)
unfolding receive
receive-IsLogged f = record { after = λ c l. l }

silent : (e : Event) → responses (e ∷ []) ≡ [] → Keeps IsLogged (add_event e)
unfolding add_event modify
silent e h = record {
  after = λ c l. responses-append c.events (e ∷ []) ∙ ap₂ ◌++◌ l h ∙ append-nil c.sent;
}

transmit-IsLogged : (request response : Bytes) → Keeps IsLogged (transmit request response)
unfolding transmit modify
transmit-IsLogged request response = record {
  after = λ c l.
      responses-append c.events (traffic request response ∷ [])
      ∙ ap (λ (r : List Bytes). r ++ response ∷ []) l;
}

ruleset log_rules = (keeps_rules, receive-IsLogged, transmit-IsLogged)

receive_body-IsLogged : (head : Bytes) → Keeps IsLogged (receive_body head)
unfolding receive_body
receive_body-IsLogged (a ∷ b ∷ c ∷ d ∷ []) = search log_rules depth 20
receive_body-IsLogged [] = search log_rules
receive_body-IsLogged (a ∷ []) = search log_rules
receive_body-IsLogged (a ∷ b ∷ []) = search log_rules
receive_body-IsLogged (a ∷ b ∷ c ∷ []) = search log_rules
receive_body-IsLogged (a ∷ b ∷ c ∷ d ∷ e ∷ s) = search log_rules

module _ (ssl_lists : Dict Bytes (Dict Bytes Bytes)) (get_value : Bytes → Result Bytes) where
  serve_request-IsLogged :
      (request : Bytes) → Keeps IsLogged (serve_request ssl_lists get_value request)
  unfolding serve_request
  serve_request-IsLogged request = search log_rules depth 20

  serve_requests-IsLogged :
      (fuel : ℕ) (request : Bytes)
      → Keeps IsLogged (serve_requests ssl_lists get_value fuel request)
  unfolding serve_requests
  serve_requests-IsLogged fuel [] = search log_rules
  serve_requests-IsLogged zero (b ∷ bs) = search log_rules
  serve_requests-IsLogged (suc fuel) (b ∷ bs) =
      search (log_rules, serve_request-IsLogged, serve_requests-IsLogged fuel)

  serve_session-IsLogged :
      (fuel : ℕ) (request : Bytes) (p : S7 × ℕ)
      → Keeps IsLogged (serve_session ssl_lists get_value fuel request p)
  unfolding serve_session
  serve_session-IsLogged fuel request (p, param) =
      search (log_rules, serve_requests-IsLogged) depth 20

  after_confirm-IsLogged : (fuel : ℕ) → Keeps IsLogged (after_confirm ssl_lists get_value fuel)
  unfolding after_confirm
  after_confirm-IsLogged fuel =
      search (log_rules, serve_session-IsLogged, λ (t : ℕ). silent (unknown_after_handshake t) refl)
        depth 20

  serve_packet-IsLogged :
      (fuel : ℕ) (request : Bytes) → Keeps IsLogged (serve_packet ssl_lists get_value fuel request)
  unfolding serve_packet
  serve_packet-IsLogged fuel request =
      search
        (log_rules, after_confirm-IsLogged, λ (t : ℕ). silent (unknown_before_handshake t) refl)
        depth 20

  serve_head-IsLogged :
      (next : Exec Connection Ended)
      → Keeps IsLogged next
      → (fuel : ℕ) (head : Bytes) → Keeps IsLogged (serve_head ssl_lists get_value next fuel head)
  unfolding serve_head
  serve_head-IsLogged next h fuel [] = search (log_rules, silent connection_lost refl)
  serve_head-IsLogged next h fuel (b ∷ bs) =
      Keeps-bind (receive_body (b ∷ bs)) _ (receive_body-IsLogged (b ∷ bs)) λ request.
        Keeps-bind (serve_packet ssl_lists get_value fuel request) _
          (serve_packet-IsLogged fuel request)
          λ done. Keeps-if done next (pure out_of_fuel) h (Keeps-pure out_of_fuel)

  serve-IsLogged : (fuel : ℕ) → Keeps IsLogged (serve ssl_lists get_value fuel)
  unfolding serve
  serve-IsLogged zero = search log_rules
  serve-IsLogged (suc fuel) =
      search (log_rules, serve_head-IsLogged (serve ssl_lists get_value fuel) (serve-IsLogged fuel))
        depth 20

  handle-Keeps : (fuel : ℕ) → Keeps IsLogged (handle ssl_lists get_value fuel)
  unfolding handle
  handle-Keeps fuel = search (log_rules, serve-IsLogged, silent new_connection refl)

  -- Whatever the pieces are that a client delivers, and whether the connection ends, raises or goes
  -- on: when the events tell of the responses sent so far, in order, they still do after `handle`.
  pub handle-responses :
      (fuel : ℕ) (c : Connection) → IsLogged c → IsLogged (handle ssl_lists get_value fuel c).1
  handle-responses fuel = (handle-Keeps fuel).after
