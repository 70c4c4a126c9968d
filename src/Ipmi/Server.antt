-- ===== src/Ipmi/Server.antt =====
-- ipmi_server.py and fakesession.py: what a datagram does. The timers and the branch for serial over
-- LAN, which has no handler on the server, are left out.
pub mod Kept
pub mod Bound
pub mod Opening
pub mod Datagrams
pub mod Leads
pub mod Forged
pub mod Packets
pub mod Sharing
pub mod Safety
pub mod Access
use conpot.Prelude.{
  ℕ, suc, ◌+◌, ◌*◌, ◌/◌, ◌%◌, Bool, true, false, not, ◌&&◌, ◌||◌, Option, none, some, List, [], ◌∷◌,
  ◌++◌, length, take, drop, slice, ltb, ◌==◌, if◌then◌else◌, bytes_eq,
}
use conpot.Prelude.Bytes.{Bytes, Result, ok, err, struct_error, index_error}
use conpot.Prelude.Bytes
use conpot.Prelude.Exec.{Exec, pure, lift, reads, modify, ◌>>=◌, ◌>>◌}
use conpot.Ipmi.State.{
  Address, Server, FakeSession, Request, Packages, Draws, Callback, generic, client_request, v15,
  v20, attribute, self_session, put_session, send_data,
}
use conpot.Ipmi.Payload.{at, last, but_last, has_bit, set_bit, checksum, unpack_le32, unpad}
use conpot.Ipmi.Session.{update_session, close_server_session, has_key}
use conpot.Ipmi.Commands.{handle_client_request}
use conpot.Ipmi.Handshake.{got_rmcp_openrequest, got_rakp1, got_rakp3}

-- `self.ipmicallback(response)`
unfoldable pub call_back : Packages → Draws → Request → Callback → Exec Server (Unit {0})
unfolding update_session handle_client_request
call_back pk draws request generic = update_session λ t. record t { lastresponse = some request }
call_back pk draws request client_request = handle_client_request pk draws request

-- `_ipmi15` and `_parse_payload`
unfoldable pub ipmi15 : Packages → Draws → Bytes → Exec Server (Unit {0})
unfolding update_session self_session call_back
ipmi15 pk draws payload = do
  seqlun ← lift (at payload 4)
  clientaddr ← lift (at payload 3)
  netfnlun ← lift (at payload 1)
  update_session
      λ t. record t { seqlun = seqlun; clientaddr = clientaddr; clientnetfn = netfnlun / 4 + 1 }
  command ← lift (at payload 5)
  update_session λ t. record t {
    clientcommand = command;
    expectednetfn = 0x1ff;
    expectedcmd = 0x1ff;
    lastpayload = none;
  }
  let body = but_last 1 (drop 5 payload)
  found ← lift (at body 0)
  t ← self_session
  call_back pk draws (record { netfn = netfnlun / 4; command = found; body = drop 1 body })
      t.ipmicallback

-- The payload of a packet of version 2.0, decrypted where its type says so.
unfoldable pub payload_of : Packages → Option Bytes → Bytes → ℕ → Result Bytes
unfolding unpad
payload_of pk aeskey rawdata type = Bytes.◌>>=◌ (at rawdata 14) λ lo.
    Bytes.◌>>=◌ (at rawdata 15) λ hi.
      let payload = slice 16 (16 + (lo + hi * 256)) rawdata in
      if has_bit 128 type
      then (Bytes.◌>>=◌ (attribute aeskey)
          λ key. Bytes.◌>>=◌ (pk.aes_decrypt key (slice 16 32 rawdata) (drop 16 payload)) unpad)
      else ok payload

-- The code at the end of a packet is the one that the key gives.
abbrev pub code_fits : Packages → Bytes → Bytes → Bool
code_fits pk k1 rawdata =
    bytes_eq (last 12 rawdata) (take 12 (pk.hmac_sha1 k1 (drop 4 (but_last 12 rawdata))))

-- The sequence number goes back.
abbrev is_old : ℕ → Option ℕ → Bool
is_old new none = false
is_old new (some old) = ltb new old && not (old == 0xffffffff)

-- A packet whose code fits: its identity and sequence number, and then its payload.
unfoldable pub accept : Packages → Draws → Bytes → ℕ → Exec Server (Unit {0})
unfolding self_session update_session close_server_session payload_of ipmi15
accept pk draws rawdata type = do
  sid ← lift (unpack_le32 (slice 6 10 rawdata))
  t ← self_session
  localsid ← lift (attribute t.localsid)
  if not (sid == localsid) then close_server_session else (do
    seq ← lift (unpack_le32 (slice 10 14 rawdata))
    if is_old seq t.remseqnumber then close_server_session else (do
      update_session λ t. record t { remseqnumber = some seq }
      payload ← lift (payload_of pk t.aeskey rawdata type)
      if type % 64 == 0 then ipmi15 pk draws payload else pure tt))

-- A packet with the bit for authentication.
unfoldable pub authenticate : Packages → Draws → Bytes → ℕ → Option Bytes → Exec Server (Unit {0})
unfolding accept close_server_session
authenticate pk draws rawdata type none = close_server_session
authenticate pk draws rawdata type (some k1) =
    if code_fits pk k1 rawdata then accept pk draws rawdata type else close_server_session

-- `_ipmi20`
unfoldable pub ipmi20 : Packages → Draws → Bytes → Exec Server (Unit {0})
unfolding self_session authenticate close_server_session got_rmcp_openrequest got_rakp1 got_rakp3
ipmi20 pk draws rawdata = do
  type ← lift (at rawdata 5)
  let payload_type = type % 64
  if payload_type == 0x10
      then got_rmcp_openrequest pk draws (drop 16 rawdata)
      else if payload_type == 0x12
      then got_rakp1 pk draws (drop 16 rawdata)
      else if payload_type == 0x14
      then got_rakp3 pk draws (drop 16 rawdata)
      else if payload_type == 0x11 || (payload_type == 0x13 || payload_type == 0x15)
      then pure tt
      else if payload_type == 0 || payload_type == 1
      then (if has_bit 64 type
          then (do t ← self_session; authenticate pk draws rawdata type t.k1)
          else close_server_session)
      else close_server_session

-- The payload of a packet of version 1.5, and whether its code fits.
unfoldable pub payload_v15 : Packages → FakeSession → Bytes → ℕ → Result (Bytes × Bool)
payload_v15 pk t rawdata authtype =
    let coded = authtype == 2 in
    let rsp = (if coded then take 13 rawdata ++ drop 29 rawdata else rawdata) in
    let authcode = slice 13 29 rawdata in
    Bytes.◌>>=◌ (at rsp 13) λ len.
      let payload = slice 14 (14 + len) rsp in
      ok (
        payload,
        if coded && ltb 0 (length authcode)
            then bytes_eq (pk.ipmi15_authcode t payload) authcode
            else true,
      )

-- The rest of the first branch of `_got_request`: the kind of authentication, the identity and the
-- code.
unfoldable pub check_v15 : Packages → Draws → Bytes → ℕ → FakeSession → Exec Server (Unit {0})
unfolding self_session close_server_session payload_v15 ipmi15
check_v15 pk draws rawdata authtype t =
    if not (authtype == t.authtype) then close_server_session else (do
      remsessid ← lift (unpack_le32 (slice 9 13 rawdata))
      if not (remsessid == t.sessionid) then close_server_session else (do
        now ← self_session
        found ← lift (payload_v15 pk now rawdata authtype)
        if found.1 then ipmi15 pk draws found.0 else close_server_session))

-- The first branch of `_got_request`: a packet of version 1.5.
unfoldable pub got_v15 : Packages → Draws → Bytes → ℕ → Exec Server (Unit {0})
unfolding self_session update_session close_server_session check_v15
got_v15 pk draws rawdata authtype = do
  update_session λ t. record t { ipmiversion = v15 }
  seq ← lift (unpack_le32 (slice 5 9 rawdata))
  t ← self_session
  if elim t.remsequencenumber [ none ↦ false | some old ↦ ltb seq old ]
      then close_server_session
      else (do
        update_session λ t. record t { remsequencenumber = some seq }
        check_v15 pk draws rawdata authtype t)

-- `_got_request`
unfoldable pub got_request : Packages → Draws → Bytes → Exec Server (Unit {0})
unfolding got_v15 ipmi20 update_session close_server_session
got_request pk draws rawdata = do
  version ← lift (at rawdata 4)
  if version == 0 || version == 2
      then got_v15 pk draws rawdata version
      else if version == 6
      then (do
        update_session λ t. record t { ipmiversion = v20; authtype = 6 }
        ipmi20 pk draws rawdata)
      else close_server_session

-- `send_auth_cap`; `clientlun | (7 << 2)` sets three bits.
unfoldable pub send_auth_cap : ℕ → ℕ → ℕ → ℕ → Address → Exec Server (Unit {0})
unfolding checksum update_session send_data
send_auth_cap myaddr mylun clientaddr clientlun sockaddr = do
  authcap ← reads λ s. ok s.authcap
  let headerdata = clientaddr ∷ set_bit 4 (set_bit 8 (set_bit 16 clientlun)) ∷ []
  let header =
      0x06 ∷ 0 ∷ 0xff ∷ 0x07 ∷ 0 ∷ 0 ∷ 0 ∷ 0 ∷ 0 ∷ 0 ∷ 0 ∷ 0 ∷ 0 ∷ 0x10 ∷ headerdata
      ++ checksum headerdata ∷ myaddr ∷ mylun ∷ 0x38 ∷ authcap
  update_session λ t. record t { stage = t.stage + 1 }
  send_data (header ++ checksum (drop 17 header) ∷ []) sockaddr

-- `struct.unpack('2B', bs)`
abbrev two_bytes : Bytes → Result (ℕ × ℕ)
two_bytes (a ∷ b ∷ []) = ok (a, b)
two_bytes _ = err struct_error

-- The request for the capabilities of a channel; any other is passed over.
unfoldable pub get_auth_cap : Bytes → Exec Server (Unit {0})
unfolding self_session send_auth_cap close_server_session
get_auth_cap rawdata = do
  (myaddr, netfnlun) ← lift (two_bytes (slice 14 16 rawdata))
  if netfnlun / 4 == 6
      then (do
        command ← lift (at rawdata 19)
        if command == 0x38
            then (do
              (verchannel, level) ← lift (two_bytes (slice 20 22 rawdata))
              if not (has_bit 128 verchannel)
                  then close_server_session
                  else if not (verchannel % 16 == 0xe)
                  then close_server_session
                  else (do
                    (clientaddr, clientlun) ← lift (two_bytes (slice 17 19 rawdata))
                    t ← self_session
                    send_auth_cap myaddr (netfnlun % 4) clientaddr clientlun t.sockaddr))
            else pure tt)
      else pure tt

-- The packets of a `ServerSession`.
abbrev send_all : Address → List Bytes → Exec Server (Unit {0})
send_all address [] = pure tt
send_all address (p ∷ ps) = do send_data p address; send_all address ps

unfoldable pub start_server_session : Packages → Bytes → Exec Server (Unit {0})
unfolding self_session send_data
start_server_session pk rawdata = do
  t ← self_session
  packets ←
      reads λ s. ok (pk.server_session s.users.authdata s.kg t.sockaddr (drop 16 rawdata) s.uuid)
  send_all t.sockaddr packets

-- The version, sequence number and class of RMCP.
abbrev is_rmcp : Bytes → Bool
is_rmcp (a ∷ b ∷ c ∷ d ∷ rest) = a == 0x06 && (c == 0xff && d == 0x07)
is_rmcp _ = false

unfoldable pub initiate_session : Packages → Bytes → Exec Server (Unit {0})
unfolding start_server_session get_auth_cap update_session close_server_session
initiate_session pk rawdata =
    if ltb (length rawdata) 22
    then close_server_session
    else if not (is_rmcp rawdata)
    then close_server_session
    else (do
      version ← lift (at rawdata 4)
      if version == 6
          then (do
            update_session λ t. record t { ipmiversion = v20; authtype = 6 }
            type ← lift (at rawdata 5)
            if type == 0x10
                then start_server_session pk rawdata
                else if type == 0
                then get_auth_cap (drop 13 rawdata)
                else close_server_session)
          else get_auth_cap rawdata)

-- `FakeSession(address[0], "", "", address[1])`
unfoldable pub new_session : Packages → Address → FakeSession
new_session pk address = record (pk.fresh address) {
  sockaddr = address;
  stage = 0;
  privlevel = 4;
  ipmicallback = generic;
}

-- A datagram from an address that has no session.
unfoldable pub start_session : Packages → Draws → Address → Exec Server (Unit {0})
unfolding new_session
start_session pk draws address = modify λ s. record s {
  session = some (new_session pk address);
  uuid = draws.uuid4;
  kg = none;
  sessions = address.0 ∷ s.sessions;
}

-- `handle`. The session that takes the datagram is the one that was started last.
unfoldable pub handle : Packages → Draws → Bytes → Address → Exec Server (Unit {0})
unfolding self_session start_session initiate_session got_request close_server_session
handle pk draws rawdata address = do
  known ← reads λ s. ok (has_key address.0 s.sessions)
  if known
      then (do
        t ← self_session
        if t.stage == 0 then close_server_session else got_request pk draws rawdata)
      else (do start_session pk draws address; initiate_session pk rawdata)
