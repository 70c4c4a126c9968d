-- ===== src/S7comm/Server.antt =====
-- s7_server.py: a connection, over the pieces that the socket delivers; an empty piece is a closed
-- connection. Timeouts and the log file are left out.
pub mod Log
use conpot.Prelude.{
  ℕ, zero, suc, ◌-◌, Bool, true, false, ◌&&◌, List, [], ◌∷◌, ◌++◌, length, take, drop, ltb, leb,
  ◌==◌, if◌then◌else◌,
}
use conpot.Prelude.Bytes.{Bytes, Result, ok, err, struct_error, type_error, value_error, be16}
use conpot.Prelude.Bytes
use conpot.Prelude.Dict.{Dict}
use conpot.Prelude.Exec.{Exec, pure, raise, lift, modify, ◌>>=◌, ◌>>◌}
use conpot.S7comm.Tpkt
use conpot.S7comm.Cotp
use conpot.S7comm.Cotp.{Cotp}
use conpot.S7comm.S7
use conpot.S7comm.S7.{S7}
use conpot.S7comm.S7.Diagnostics
use conpot.S7comm.S7.Diagnostics.{Answer, answer, zeros, no_answer}

-- `session.add_event`
pub data Event : Type 0 where
  new_connection connection_lost : Event
  -- a request and its response
  traffic : Bytes → Bytes → Event
  unknown_before_handshake unknown_after_handshake : ℕ → Event

pub record Connection : Type 0 where
  pub pieces : List Bytes
  pub sent : List Bytes
  pub events : List Event

pub data Ended : Type 0 where
  closed out_of_fuel : Ended

abbrev put_back : Bytes → List Bytes → List Bytes
put_back [] pieces = pieces
put_back (b ∷ bs) pieces = (b ∷ bs) ∷ pieces

-- What `recv(n)` takes: at most one piece.
unfoldable pub recv_some : ℕ → List Bytes → Bytes × List Bytes
recv_some n [] = ([], [])
recv_some n ([] ∷ pieces) = ([], [])
recv_some n ((b ∷ bs) ∷ pieces) = (take n (b ∷ bs), put_back (drop n (b ∷ bs)) pieces)

-- What `recv(n, socket.MSG_WAITALL)` takes: `n` bytes, or what there is before the connection closes.
unfoldable pub recv_all : ℕ → List Bytes → Bytes × List Bytes
recv_all n [] = ([], [])
recv_all n ([] ∷ pieces) = ([], [])
recv_all n ((b ∷ bs) ∷ pieces) =
    let (more, left) = recv_all (n - length (b ∷ bs)) pieces in
    if leb n (length (b ∷ bs))
    then (take n (b ∷ bs), put_back (drop n (b ∷ bs)) pieces)
    else ((b ∷ bs) ++ more, left)

unfoldable pub receive : (List Bytes → Bytes × List Bytes) → Exec Connection Bytes
receive f c = let (taken, left) = f c.pieces in (ok taken, record c { pieces = left })

unfoldable pub add_event : Event → Exec Connection (Unit {0})
add_event e = modify λ c. record c { events = c.events ++ e ∷ [] }

-- `sock.send(response)`, and the event of the request and its response.
unfoldable pub transmit : Bytes → Bytes → Exec Connection (Unit {0})
transmit request response = modify λ c. record c {
  sent = c.sent ++ response ∷ [];
  events = c.events ++ traffic request response ∷ [];
}

-- `COTP_BASE_packet().parse(TPKT().parse(data).payload)`
unfoldable pub unwrap : Bytes → Result Cotp
unwrap request = Bytes.◌>>=◌ (Tpkt.parse request) λ t. Cotp.parse t.payload

-- `TPKT(3, packet.pack()).pack()`
unfoldable pub wrap : Cotp → Result Bytes
wrap packet = Bytes.◌>>=◌ (Cotp.pack packet) λ p. Tpkt.pack (Tpkt.new 3 p)

-- The answer to a connection request: its references change places.
unfoldable pub confirm : Cotp → Result Bytes
unfolding wrap
confirm packet = Bytes.◌>>=◌ (Cotp.dissect packet.payload) λ request.
    Bytes.◌>>=◌
      (Cotp.assemble_confirm (record {
        dst_ref = request.src_ref;
        src_ref = request.dst_ref;
        opt_field = 0;
        src_tsap = request.src_tsap;
        dst_tsap = request.dst_tsap;
        tpdu_size = 0x0a;
      }))
      λ response. wrap (Cotp.new 0xd0 0 response [])

-- The answer to a request for a connection of S7: its parameters.
unfoldable pub negotiate : S7 → Result Bytes
unfolding wrap
negotiate request =
    Bytes.◌>>=◌ (S7.pack (S7.new 3 0 request.request_id 0 request.parameters []))
      λ response. wrap (Cotp.new 0xf0 0x80 response [])

-- `unpack('!BBH', data[:4])` and the rest of the packet; `recv` of a negative length raises.
unfoldable pub receive_body : Bytes → Exec Connection Bytes
receive_body (version ∷ reserved ∷ hi ∷ lo ∷ []) =
    if ltb (be16 hi lo) 4
    then raise value_error
    else (do body ← receive (recv_all (be16 hi lo - 4)); pure (version ∷ reserved ∷ hi ∷ lo ∷ body))
receive_body _ = raise struct_error

module _ (ssl_lists : Dict Bytes (Dict Bytes Bytes)) (get_value : Bytes → Result Bytes) where
  -- The packet of an answer. `None` cannot be unpacked, and a number has no length.
  unfoldable pub pack_answer : ℕ → Answer → Result Bytes
  unfolding wrap
  pack_answer request_id (answer params payload) =
      Bytes.◌>>=◌ (S7.pack (S7.new 7 0 request_id 0 params payload))
        λ response. wrap (Cotp.new 0xf0 0x80 response [])
  pack_answer request_id zeros = err type_error
  pack_answer request_id no_answer = err type_error

  -- The answer to a request after the handshake.
  unfoldable pub respond : Cotp → Result Bytes
  unfolding pack_answer
  respond packet = Bytes.◌>>=◌ (S7.parse packet.trailer) λ (p : S7 × ℕ).
      Bytes.◌>>=◌ (Diagnostics.handle ssl_lists get_value p.0 p.1)
        λ found. pack_answer p.0.request_id found

  -- One request after the handshake; other packets are passed over.
  unfoldable pub serve_request : Bytes → Exec Connection (Unit {0})
  unfolding unwrap respond transmit
  serve_request request = do
    packet ← lift (unwrap request)
    if packet.tpdu_type == 0xf0
        then (do response ← lift (respond packet); transmit request response)
        else pure tt

  -- `while data`; the result is whether the loop ended.
  unfoldable pub serve_requests : ℕ → Bytes → Exec Connection Bool
  unfolding serve_request receive
  serve_requests fuel [] = pure true
  serve_requests zero (b ∷ bs) = pure false
  serve_requests (suc fuel) (b ∷ bs) = do
    serve_request (b ∷ bs)
    next ← receive (recv_some 1024)
    serve_requests fuel next

  -- The first packet of S7: only a request for a connection starts the loop over requests.
  unfoldable pub serve_session : ℕ → Bytes → S7 × ℕ → Exec Connection Bool
  unfolding serve_requests negotiate
  serve_session fuel request (p, param) =
      if p.pdu_type == 1 && param == 0xf0
      then (do
        response ← lift (negotiate p)
        transmit request response
        first ← receive (recv_some 1024)
        serve_requests fuel first)
      else pure true

  -- After the connection was confirmed.
  unfoldable pub after_confirm : ℕ → Exec Connection Bool
  unfolding serve_session add_event
  after_confirm fuel = do
    request ← receive (recv_some 1024)
    packet ← lift (unwrap request)
    if packet.tpdu_type == 0xf0
        then (do p ← lift (S7.parse packet.trailer); serve_session fuel request p)
        else (do add_event (unknown_after_handshake packet.tpdu_type); pure true)

  -- One packet of the outer loop.
  unfoldable pub serve_packet : ℕ → Bytes → Exec Connection Bool
  unfolding after_confirm confirm
  serve_packet fuel request = do
    packet ← lift (unwrap request)
    if packet.tpdu_type == 0xe0
        then (do response ← lift (confirm packet); transmit request response; after_confirm fuel)
        else (do add_event (unknown_before_handshake packet.tpdu_type); pure true)

  -- What follows the first four bytes of a packet; `next` is the rest of the loop.
  unfoldable pub serve_head : Exec Connection Ended → ℕ → Bytes → Exec Connection Ended
  unfolding serve_packet receive_body
  serve_head next fuel [] = do add_event connection_lost; pure closed
  serve_head next fuel (b ∷ bs) = do
    request ← receive_body (b ∷ bs)
    done ← serve_packet fuel request
    if done then next else pure out_of_fuel

  -- `while True`
  unfoldable pub serve : ℕ → Exec Connection Ended
  unfolding serve_head
  serve zero = pure out_of_fuel
  serve (suc fuel) = do head ← receive (recv_all 4); serve_head (serve fuel) fuel head

  unfoldable pub handle : ℕ → Exec Connection Ended
  unfolding serve
  handle fuel = do add_event new_connection; serve fuel
