-- ===== src/Ipmi/State.antt =====
-- ipmi_server.py, fakesession.py and fakebmc.py: the attributes of the server, of a session and of
-- the controller, and what other packages give. An attribute that a method sets first is an option.
-- The timers of retransmission are left out.
use conpot.Prelude.{ℕ, Bool, Option, none, some, List, ◌++◌, [], ◌∷◌}
use conpot.Prelude.Bytes.{Bytes, Result, ok, err, attribute_error}
use conpot.Prelude.Dict.{Dict}
use conpot.Prelude.Exec.{Exec, reads, modify}

-- A host and a port.
abbrev pub Address : Type 0
Address = ℕ × ℕ

pub data Version : Type 0 where
  v15 v20 : Version

-- `ipmicallback`: `_generic_callback`, or `handle_client_request` of the server
pub data Callback : Type 0 where
  generic client_request : Callback

-- `powerstate == 'on'`, and the boot device
pub record Bmc : Type 0 where
  pub power_on : Bool
  pub bootdevice : Bytes

pub record Request : Type 0 where
  pub netfn : ℕ
  pub command : ℕ
  pub body : Bytes

pub record FakeSession : Type 0 where
  pub sockaddr : Address
  pub stage : ℕ
  pub privlevel : ℕ
  pub ipmiversion : Version
  pub authtype : ℕ
  pub sessionid : ℕ
  pub sequencenumber : ℕ
  pub confalgo : Bool
  pub integrityalgo : Bool
  pub k1 : Option Bytes
  pub aeskey : Option Bytes
  pub localsid : Option ℕ
  pub remseqnumber : Option ℕ
  pub remsequencenumber : Option ℕ
  pub lastpayload : Option Bytes
  pub pendingpayloads : List (Bytes × ℕ)
  pub seqlun : ℕ
  pub clientaddr : ℕ
  pub clientnetfn : ℕ
  pub clientcommand : ℕ
  pub expectednetfn : ℕ
  pub expectedcmd : ℕ
  pub rqaddr : ℕ
  pub lastresponse : Option Request
  pub ipmicallback : Callback

-- `authdata`, `privdata` and `channelaccessdata` are ordered dictionaries. The last holds the template's
-- texts 'true' and 'false', of which `activeusers` holds the numbers.
pub record Users : Type 0 where
  pub authdata : Dict Bytes Bytes
  pub privdata : Dict Bytes ℕ
  pub channelaccessdata : Dict Bytes Bytes
  pub activeusers : List ℕ
  pub fixedusers : List ℕ

-- What the messages of the handshake leave on the server.
pub record Handshake : Type 0 where
  pub clientsessionid : Option Bytes
  pub managedsessionid : Option Bytes
  pub rm : Option Bytes
  pub rc : Option Bytes
  pub rolem : Option ℕ
  pub maxpriv : Option ℕ
  pub username : Option Bytes
  pub uuiddata : Option Bytes
  pub kuid : Option Bytes
  pub sik : Option Bytes

-- The server. The values of `sessions` are never read, so its keys stand here; `session` is the
-- session that was started last.
pub record Server : Type 0 where
  pub uuid : Bytes
  pub kg : Option Bytes
  pub authcap : Bytes
  pub sessions : List ℕ
  pub session : Option FakeSession
  pub users : Users
  pub handshake : Handshake
  pub clientpriv : Option ℕ
  pub bmc : Bmc
  pub sent : List (Address × Bytes)

-- `os.urandom` and `uuid.uuid4` while one datagram is handled.
pub record Draws : Type 0 where
  pub uuid4 : Bytes
  pub random_id : Bytes
  pub random_rc : Bytes
  pub iv : Bytes

-- What pyghmi, hmac and Crypto give. `fresh` is a session after `_initsession`, `server_session` what
-- a `ServerSession` sends, and `raw_request` the responses of `Bmc.handle_raw_request`.
pub record Packages : Type 0 where
  pub hmac_sha1 : Bytes → Bytes → Bytes
  pub aes_encrypt : Bytes → Bytes → Bytes → Result Bytes
  pub aes_decrypt : Bytes → Bytes → Bytes → Result Bytes
  pub ipmi15_authcode : FakeSession → Bytes → Bytes
  pub ipmi_type : ℕ
  pub open_response_type : ℕ
  pub rakp2_type : ℕ
  pub rakp4_type : ℕ
  pub fresh : Address → FakeSession
  pub server_session : Dict Bytes Bytes → Option Bytes → Address → Bytes → Bytes → List Bytes
  pub raw_request : Request → Bmc → Bmc × List (ℕ × Bytes)

-- An attribute that may not be there.
abbrev pub attribute {ℓ} : {A : Type ℓ} → Option A → Result A
attribute none = err attribute_error
attribute (some a) = ok a

unfoldable pub self_session : Exec Server FakeSession
self_session = reads λ s. attribute s.session

unfoldable pub put_session : FakeSession → Exec Server (Unit {0})
put_session t = modify λ s. record s { session = some t }

-- `send_data`
unfoldable pub send_data : Bytes → Address → Exec Server (Unit {0})
send_data packet address = modify λ s. record s { sent = s.sent ++ (address, packet) ∷ [] }
