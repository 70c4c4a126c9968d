-- ===== src/Ipmi/Session.antt =====
-- fakesession.py: sending, with `retry=False` as every call on the server has it; ipmi_server.py:
-- closing.
use conpot.Prelude.{
  ℕ, ◌+◌, ◌*◌, Bool, true, false, Option, none, some, List, [], ◌∷◌, ◌++◌, ◌==◌, if◌then◌else◌,
}
use conpot.Prelude.Bytes.{Bytes, ok, err, Result, key_error}
use conpot.Prelude.Exec.{Exec, lift, ◌>>=◌, ◌>>◌}
use conpot.Ipmi.State.{FakeSession, Server, Packages, Draws, self_session, put_session, send_data}
use conpot.Ipmi.Payload.{checksum, packet}

unfoldable pub update_session : (FakeSession → FakeSession) → Exec Server (Unit {0})
unfolding self_session put_session
update_session f = do s ← self_session; put_session (f s)

-- `if payload and self.lastpayload`
abbrev pub is_waiting : Bytes → Option Bytes → Bool
is_waiting (b ∷ bs) (some (c ∷ cs)) = true
is_waiting _ _ = false

-- `send_payload` and `_xmit_packet`
unfoldable pub send_payload : Packages → Draws → Bytes → ℕ → Exec Server (Unit {0})
unfolding self_session put_session send_data packet
send_payload pk draws payload payload_type = do
  s ← self_session
  if is_waiting payload s.lastpayload
      then put_session
          (record s { pendingpayloads = s.pendingpayloads ++ (payload, payload_type) ∷ [] })
      else (do
        netpacket ← lift (packet pk s draws.iv payload payload_type)
        put_session (record s {
          stage = s.stage + 1;
          sequencenumber = if s.sequencenumber == 0 then 0 else s.sequencenumber + 1;
        })
        send_data netpacket s.sockaddr)

-- `_make_ipmi_payload`, with no bridge request
unfoldable pub make_ipmi_payload : FakeSession → ℕ → ℕ → Bytes → Bytes
unfolding checksum
make_ipmi_payload s netfn command body =
    let header = s.clientaddr ∷ netfn * 4 ∷ [] in
    let reqbody = s.rqaddr ∷ s.seqlun ∷ command ∷ body in
    header ++ checksum header ∷ reqbody ++ checksum reqbody ∷ []

-- `_send_ipmi_net_payload`, also `send_ipmi_response`
unfoldable pub send_ipmi_net_payload : Packages → Draws → ℕ → Bytes → Exec Server (Unit {0})
unfolding update_session self_session send_payload make_ipmi_payload
send_ipmi_net_payload pk draws code body = do
  s ← self_session
  put_session (record s { expectedcmd = s.clientcommand; expectednetfn = s.clientnetfn + 1 })
  send_payload pk draws (make_ipmi_payload s s.clientnetfn s.clientcommand (code ∷ body))
      pk.ipmi_type

-- `del self.sessions[host]`
abbrev pub remove_key : ℕ → List ℕ → List ℕ
remove_key host [] = []
remove_key host (h ∷ hs) = if h == host then hs else h ∷ remove_key host hs

abbrev pub has_key : ℕ → List ℕ → Bool
has_key host [] = false
has_key host (h ∷ hs) = if h == host then true else has_key host hs

abbrev pub drop_session : ℕ → Server → Result (Unit {0}) × Server
drop_session host s =
    if has_key host s.sessions
    then (ok tt, record s { sessions = remove_key host s.sessions; session = none })
    else (err key_error, s)

-- `close_server_session`
unfoldable pub close_server_session : Exec Server (Unit {0})
unfolding self_session
close_server_session = do t ← self_session; drop_session t.sockaddr.0
