-- ===== src/Tests/Ipmi.antt =====
-- conpot/protocols/ipmi at concrete inputs.
use conpot.Prelude.{
  ◌≡◌, refl, sym, ap, true, false, none, some, list_eq, [], ◌∷◌, ◌++◌, ◌⊎◌, length, replicate, ◌%◌,
  arith, take, drop,
}
use conpot.Prelude.Dict
use conpot.Prelude.Bytes.{Bytes, codes, ok, err, attribute_error, ok-injective}
use conpot.Ipmi.State.{
  FakeSession, Users, Handshake, Server, Draws, Packages, v20, generic, client_request,
}
use conpot.Ipmi.Payload.{packet_v20, sum}
use conpot.Ipmi.Payload.RoundTrip.{make_ipmi_payload-sums}
use conpot.Ipmi.Session.{make_ipmi_payload, close_server_session}
use conpot.Ipmi.Users.{password_operation, set_user_name}
use conpot.Ipmi.Users.Passwords.{test-set_password}
use conpot.Ipmi.Server.{handle}
use conpot.Ipmi.Handshake.Proven.{Proves, TakesNone}
use conpot.Ipmi.Server.Access.{handle-Proves}
use conpot.Ipmi.Server.Packets.{Reads, secured, read-packet_v20}
use conpot.Ipmi.Server.Safety.{handle-users}
use conpot.Ipmi.Server.Sharing.{handle-close_server_session}

-- A session of version 2.0 that takes commands.
abbrev session : FakeSession
session = record {
  sockaddr = (1, 2000);
  stage = 4;
  privlevel = 4;
  ipmiversion = v20;
  authtype = 6;
  sessionid = 0x109;
  sequencenumber = 5;
  confalgo = true;
  integrityalgo = true;
  k1 = some (1 ∷ []);
  aeskey = some (2 ∷ []);
  localsid = some 7;
  remseqnumber = none;
  remsequencenumber = none;
  lastpayload = none;
  pendingpayloads = [];
  seqlun = 0;
  clientaddr = 0x81;
  clientnetfn = 7;
  clientcommand = 0x3b;
  expectednetfn = 0x1ff;
  expectedcmd = 0x1ff;
  rqaddr = 0x20;
  lastresponse = none;
  ipmicallback = client_request;
}

-- Encryption that changes nothing, and a digest of the length only.
abbrev packages : Packages
packages = record {
  hmac_sha1 = λ k m. replicate 20 (length m % 256);
  aes_encrypt = λ key iv bs. ok bs;
  aes_decrypt = λ key iv bs. ok bs;
  ipmi15_authcode = λ t bs. [];
  ipmi_type = 0;
  open_response_type = 0x11;
  rakp2_type = 0x13;
  rakp4_type = 0x15;
  fresh = λ address. session;
  server_session = λ authdata kg address request uuid. [];
  raw_request = λ request bmc. (bmc, []);
}

abbrev draws : Draws
draws = record { uuid4 = []; random_id = []; random_rc = []; iv = replicate 16 0 }

abbrev users : Users
users = record {
  authdata = (codes "Administrator", codes "Password") ∷ (codes "bob", codes "guest") ∷ [];
  privdata = (codes "Administrator", 4) ∷ (codes "bob", 2) ∷ [];
  channelaccessdata = (codes "Administrator", codes "true") ∷ (codes "bob", codes "true") ∷ [];
  activeusers = 1 ∷ 1 ∷ [];
  fixedusers = 1 ∷ 0 ∷ [];
}

abbrev nothing_yet : Handshake
nothing_yet = record {
  clientsessionid = none;
  managedsessionid = none;
  rm = none;
  rc = none;
  rolem = none;
  maxpriv = none;
  username = none;
  uuiddata = none;
  kuid = none;
  sik = none;
}

abbrev server : Server
server = record {
  uuid = [];
  kg = none;
  authcap = 0 ∷ 1 ∷ 128 ∷ 4 ∷ 2 ∷ 0 ∷ 0 ∷ 0 ∷ 0 ∷ [];
  sessions = 1 ∷ 2 ∷ [];
  session = some session;
  users = users;
  handshake = nothing_yet;
  clientpriv = none;
  bmc = record { power_on = false; bootdevice = codes "default" };
  sent = [];
}

-- A packet whose code fits no key.
abbrev forged : Bytes
forged = 6 ∷ 0 ∷ 0xff ∷ 7 ∷ 6 ∷ 0xc0 ∷ replicate 40 1

handle-users_example :
    ((handle packages draws forged (1, 2000) server).1.users ≡ users)
    × ((handle packages draws forged (1, 2000) server).1.bmc ≡ server.bmc)
handle-users_example = handle-users packages draws forged (1, 2000) server refl refl

-- A server that has answered message 1, and a message 3.
abbrev answered : Server
answered = record server {
  session = some (record session { ipmicallback = generic });
  handshake = record nothing_yet {
    clientsessionid = some (1 ∷ 2 ∷ 3 ∷ 4 ∷ []);
    managedsessionid = some (5 ∷ 6 ∷ 7 ∷ 8 ∷ []);
    rm = some (replicate 16 1);
    rc = some (replicate 16 2);
    rolem = some 4;
    maxpriv = some 4;
    username = some (codes "bob");
    kuid = some (codes "guest");
  };
}

abbrev third : Bytes
third = 6 ∷ 0 ∷ 0xff ∷ 7 ∷ 6 ∷ 0x14 ∷ (replicate 10 0 ++ (9 ∷ 0 ∷ replicate 26 0))

handle-Proves_example :
    Proves packages answered.handshake (drop 16 third)
    ⊎ TakesNone (handle packages draws third (1, 2000) answered).1
handle-Proves_example = handle-Proves packages draws third (1, 2000) answered refl

handle-close_server_session_example :
    handle packages draws forged (2, 2000) (close_server_session server).1
    ≡ (err attribute_error, (close_server_session server).1)
handle-close_server_session_example =
    handle-close_server_session packages draws forged (2, 2000) server session refl refl refl
      (omega arith)

-- The second user is renamed, and keeps its place.
bob_renamed :
    set_user_name (2 ∷ codes "eve") users
    ≡ ok (record users {
      authdata = (codes "Administrator", codes "Password") ∷ (codes "eve", codes "guest") ∷ [];
      privdata = (codes "Administrator", 4) ∷ (codes "eve", 2) ∷ [];
      channelaccessdata = (codes "Administrator", codes "true") ∷ (codes "eve", codes "true") ∷ [];
    })
unfolding set_user_name
bob_renamed = refl

abbrev changed : Users
changed = record users {
  authdata = (codes "Administrator", codes "Password") ∷ (codes "bob", codes "secret") ∷ [];
}

password_set : password_operation 2 (codes "bob") (codes "secret") users ≡ ok (0x81, changed)
unfolding password_operation
password_set = refl

test-set_password_example :
    (password_operation 3 (codes "bob") (codes "secret") changed ≡ ok (0x81, changed))
    × (Dict.get (codes "Administrator") changed.authdata ≡ some (codes "Password"))
unfolding Dict.get
test-set_password_example =
    test-set_password (codes "bob") (codes "Administrator") (codes "secret") users 0x81 changed
      password_set

make_ipmi_payload-sums_example :
    (sum (take 3 (make_ipmi_payload session 7 0x3b (0 ∷ 4 ∷ []))) % 256 ≡ 0)
    × (sum (drop 3 (make_ipmi_payload session 7 0x3b (0 ∷ 4 ∷ []))) % 256 ≡ 0)
make_ipmi_payload-sums_example = make_ipmi_payload-sums session 7 0x3b (0 ∷ 4 ∷ [])

abbrev sealed : Bytes
sealed =
    6 ∷ 0 ∷ 255 ∷ 7 ∷ 6 ∷ 192 ∷ 9 ∷ 1 ∷ 0 ∷ 0 ∷ 5 ∷ 0 ∷ 0 ∷ 0 ∷ 32 ∷ 0 ∷ 0 ∷ 0 ∷ 0 ∷ 0 ∷ 0 ∷ 0 ∷ 0
    ∷ 0 ∷ 0 ∷ 0 ∷ 0 ∷ 0 ∷ 0 ∷ 0 ∷ 0 ∷ 0 ∷ 1 ∷ 2 ∷ 1 ∷ 2 ∷ 3 ∷ 4 ∷ 5 ∷ 6 ∷ 7 ∷ 8 ∷ 9 ∷ 10 ∷ 11 ∷ 12
    ∷ 13 ∷ 13 ∷ 255 ∷ 255 ∷ 2 ∷ 7 ∷ 48 ∷ 48 ∷ 48 ∷ 48 ∷ 48 ∷ 48 ∷ 48 ∷ 48 ∷ 48 ∷ 48 ∷ 48 ∷ 48 ∷ []

sealed_made :
    packet_v20 packages (secured session (1 ∷ []) (2 ∷ [])) (replicate 16 0) (1 ∷ 2 ∷ []) 0
    ≡ ok sealed
unfolding packet_v20
sealed_made = refl

read-packet_v20_example : Reads packages session (1 ∷ []) (2 ∷ []) (1 ∷ 2 ∷ []) sealed
read-packet_v20_example =
    read-packet_v20 packages session (1 ∷ []) (2 ∷ []) (replicate 16 0)
      (λ p c h. (sym h, ap length (sym (ok-injective h)))) (λ k m. refl) refl (1 ∷ 2 ∷ []) sealed
      sealed_made
