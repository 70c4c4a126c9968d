-- ===== src/Ipmi/Handshake.antt =====
-- ipmi_server.py: the messages that open a session.
pub mod Proven
use conpot.Prelude.{
  ℕ, ◌%◌, true, Option, none, some, [], ◌∷◌, ◌++◌, length, take, drop, slice, replicate, ◌==◌,
  if◌then◌else◌, bytes_eq, list_eq,
}
use conpot.Prelude.Bytes.{Bytes, Result, ok, err, struct_error, type_error}
use conpot.Prelude.Dict
use conpot.Prelude.Exec.{Exec, pure, lift, reads, modify, ◌>>=◌, ◌>>◌}
use conpot.Ipmi.State.{Server, Packages, Draws, Handshake, attribute, client_request}
use conpot.Ipmi.Payload.{at, pack_bytes, unpack_le32}
use conpot.Ipmi.Session.{send_payload, close_server_session, update_session}
use conpot.Ipmi.Users.{or_key_error}

-- `struct.unpack('4B', bs)`
abbrev four_bytes : Bytes → Result Bytes
four_bytes bs = if length bs == 4 then ok bs else err struct_error

abbrev pub update : (Handshake → Handshake) → Exec Server (Unit {0})
update f = modify λ s. record s { handshake = f s.handshake }

abbrev pub part : {A : Type 0} → (Handshake → Option A) → Exec Server A
part f = reads λ s. attribute (f s.handshake)

unfoldable pub got_rmcp_openrequest : Packages → Draws → Bytes → Exec Server (Unit {0})
unfolding send_payload update_session
got_rmcp_openrequest pk draws request = do
  clienttag ← lift (at request 0)
  client ← lift (four_bytes (slice 4 8 request))
  update λ h. record h { clientsessionid = some client }
  managed ← lift (four_bytes draws.random_id)
  update λ h. record h { managedsessionid = some managed }
  update_session λ t. record t { privlevel = 4 }
  send_payload pk draws
      (clienttag ∷ 0 ∷ 4 ∷ 0 ∷ client
        ++ managed
        ++ 0 ∷ 0 ∷ 0 ∷ 8 ∷ 1 ∷ 0 ∷ 0 ∷ 0 ∷ 1 ∷ 0 ∷ 0 ∷ 8 ∷ 1 ∷ 0 ∷ 0 ∷ 0 ∷ 2 ∷ 0 ∷ 0 ∷ 8 ∷ 1 ∷ 0 ∷ 0
          ∷ 0 ∷ [])
      pk.open_response_type

-- The answer to message 1, for a user that there is.
unfoldable pub answer_rakp1 : Packages → Draws → ℕ → Bytes → Exec Server (Unit {0})
unfolding send_payload Dict.get
answer_rakp1 pk draws clienttag username = do
  uuidbytes ← reads λ s. ok s.uuid
  update λ h. record h { uuiddata = some uuidbytes; rc = some draws.random_rc }
  client ← part λ h. h.clientsessionid
  managed ← part λ h. h.managedsessionid
  rm ← part λ h. h.rm
  rolem ← part λ h. h.rolem
  hmacdata ← lift (
      pack_bytes
        (client ++ managed ++ rm ++ draws.random_rc ++ uuidbytes ++ rolem ∷ length username ∷ []))
  kuid ← reads λ s. or_key_error (Dict.get username s.users.authdata)
  update λ h. record h { kuid = some kuid }
  modify λ s. record s { kg = elim s.kg [ none ↦ some kuid | some kg ↦ some kg ] }
  send_payload pk draws
      (clienttag ∷ 0 ∷ 0 ∷ 0 ∷ client
        ++ draws.random_rc
        ++ uuidbytes
        ++ pk.hmac_sha1 kuid (hmacdata ++ username))
      pk.rakp2_type

unfoldable pub got_rakp1 : Packages → Draws → Bytes → Exec Server (Unit {0})
unfolding answer_rakp1 close_server_session Dict.has
got_rakp1 pk draws message = do
  clienttag ← lift (at message 0)
  update λ h. record h { rm = some (slice 8 24 message) }
  rolem ← lift (at message 24)
  update λ h. record h { rolem = some rolem; maxpriv = some (rolem % 8) }
  namepresent ← lift (at message 27)
  if namepresent == 0 then close_server_session else (do
    update λ h. record h { username = some (drop 28 message) }
    known ← reads λ s. ok (Dict.has (drop 28 message) s.users.authdata)
    if known then answer_rakp1 pk draws clienttag (drop 28 message) else close_server_session)

unfoldable pub send_rakp4 : Packages → Draws → ℕ → ℕ → Exec Server (Unit {0})
unfolding send_payload update_session
send_rakp4 pk draws tagvalue statuscode = do
  client ← part λ h. h.clientsessionid
  rm ← part λ h. h.rm
  managed ← part λ h. h.managedsessionid
  uuiddata ← part λ h. h.uuiddata
  sik ← part λ h. h.sik
  send_payload pk draws
      (tagvalue ∷ statuscode ∷ 0 ∷ 0 ∷ client
        ++ take 12 (pk.hmac_sha1 sik (rm ++ managed ++ uuiddata)))
      pk.rakp4_type
  update_session λ t. record t { confalgo = true; integrityalgo = true }
  sessionid ← lift (unpack_le32 client)
  update_session λ t. record t { sessionid = sessionid }

-- `self.kg`, as a key of `hmac.new`
abbrev key_of : Option Bytes → Result Bytes
key_of none = err type_error
key_of (some kg) = ok kg

-- The keys of the session, from what both sides drew.
unfoldable pub make_keys : Packages → Exec Server (Unit {0})
unfolding update_session
make_keys pk = do
  rm ← part λ h. h.rm
  rc ← part λ h. h.rc
  rolem ← part λ h. h.rolem
  username ← part λ h. h.username
  role ← lift (pack_bytes (rolem ∷ length username ∷ []))
  kg ← reads λ s. key_of s.kg
  let sik = pk.hmac_sha1 kg (rm ++ rc ++ role ++ username)
  update λ h. record h { sik = some sik }
  update_session λ t. record t {
    k1 = some (pk.hmac_sha1 sik (replicate 20 1));
    aeskey = some (take 16 (pk.hmac_sha1 sik (replicate 20 2)));
  }

-- The code that message 3 is to carry.
unfoldable pub expected_code : Packages → Exec Server Bytes
expected_code pk = do
  rc ← part λ h. h.rc
  client ← part λ h. h.clientsessionid
  rolem ← part λ h. h.rolem
  username ← part λ h. h.username
  role ← lift (pack_bytes (rolem ∷ length username ∷ []))
  kuid ← part λ h. h.kuid
  pure (pk.hmac_sha1 kuid (rc ++ client ++ role ++ username))

-- The end of message 3: from here the session takes commands.
unfoldable pub open_session : Packages → Draws → ℕ → Exec Server (Unit {0})
unfolding update_session send_rakp4
open_session pk draws clienttag = do
  managed ← part λ h. h.managedsessionid
  localsid ← lift (unpack_le32 managed)
  update_session λ t. record t { localsid = some localsid }
  update_session λ t. record t { ipmicallback = client_request }
  send_rakp4 pk draws clienttag 0

unfoldable pub got_rakp3 : Packages → Draws → Bytes → Exec Server (Unit {0})
unfolding make_keys expected_code open_session close_server_session
got_rakp3 pk draws message = do
  make_keys pk
  expected ← expected_code pk
  if bytes_eq expected (drop 8 message)
      then (do
        clienttag ← lift (at message 0)
        status ← lift (at message 1)
        if status == 0 then open_session pk draws clienttag else close_server_session)
      else close_server_session
