-- ===== src/Ipmi/Commands.antt =====
-- ipmi_server.py: `handle_client_request`, the commands of an open session.
use conpot.Prelude.{ℕ, Bool, ◌&&◌, ◌||◌, some, List, [], ◌∷◌, ltb, ◌==◌, if◌then◌else◌}
use conpot.Prelude.Bytes.{Bytes, Result, ok, err}
use conpot.Prelude.Bytes
use conpot.Prelude.Exec.{Exec, pure, lift, reads, modify, ◌>>=◌, ◌>>◌}
use conpot.Ipmi.State.{Server, Request, Packages, Draws, Users, attribute}
use conpot.Ipmi.Payload.{at}
use conpot.Ipmi.Session.{send_ipmi_net_payload, close_server_session}
use conpot.Ipmi.Users.{set_user_name, set_user_password, get_user_access, get_user_name}

abbrev pub store_users : {A : Type 0} → Result (A × Users) → Server → Result A × Server
store_users (ok (a, u)) s = (ok a, record s { users = u })
store_users (err exc) s = (err exc, s)

-- A command that changes the users.
unfoldable pub change_users : {A : Type 0} → (Users → Result (A × Users)) → Exec Server A
change_users f s = store_users (f s.users) s

-- Set Session Privilege
unfoldable pub set_privilege : Packages → Draws → Request → Exec Server (Unit {0})
unfolding send_ipmi_net_payload
set_privilege pk draws request = do
  pendingpriv ← lift (at request.body 0)
  code ←
      (if ltb 1 pendingpriv
        then (do
          maxpriv ← reads λ s. attribute s.handshake.maxpriv
          if ltb maxpriv pendingpriv
              then pure 0x81
              else (do modify (λ s. record s { clientpriv = some pendingpriv }); pure 0))
        else pure 0)
  priv ← reads λ s. attribute s.clientpriv
  send_ipmi_net_payload pk draws code (priv ∷ [])

-- Close Session
unfoldable pub close_session : Packages → Draws → Exec Server (Unit {0})
unfolding send_ipmi_net_payload close_server_session
close_session pk draws = do send_ipmi_net_payload pk draws 0 []; close_server_session

-- Get User Access
unfoldable pub user_access : Packages → Draws → Request → Exec Server (Unit {0})
unfolding send_ipmi_net_payload get_user_access
user_access pk draws request = do
  lift (Bytes.◌>>=◌ (at request.body 1) λ _. ok tt)
  priv ← reads λ s. attribute s.clientpriv
  maxpriv ← reads λ s. attribute s.handshake.maxpriv
  body ← reads λ s. get_user_access request.body s.users
  send_ipmi_net_payload pk draws (if ltb maxpriv priv then 0xd4 else 0) body

-- The responses of the controller, in order.
unfoldable pub send_responses : Packages → Draws → List (ℕ × Bytes) → Exec Server (Unit {0})
unfolding send_ipmi_net_payload
send_responses pk draws [] = pure tt
send_responses pk draws ((code, body) ∷ rest) = do
  send_ipmi_net_payload pk draws code body
  send_responses pk draws rest

-- `self.bmc.handle_raw_request(request, self.session)`
unfoldable pub raw_request : Packages → Draws → Request → Exec Server (Unit {0})
unfolding send_responses
raw_request pk draws request = do
  found ← reads λ s. ok (pk.raw_request request s.bmc)
  modify λ s. record s { bmc = found.0 }
  send_responses pk draws found.1

abbrev is_raw : Request → Bool
is_raw r =
    (r.netfn == 0 || r.netfn == 6)
    && (r.command == 1 || (r.command == 2 || (r.command == 8 || r.command == 9)))

unfoldable pub handle_client_request : Packages → Draws → Request → Exec Server (Unit {0})
unfolding set_privilege close_session user_access raw_request change_users send_ipmi_net_payload
    get_user_name set_user_name set_user_password
handle_client_request pk draws request =
    if request.netfn == 6 && request.command == 0x3b
    then set_privilege pk draws request
    else if request.netfn == 6 && request.command == 0x3c
    then close_session pk draws
    else if request.netfn == 6 && request.command == 0x44
    then user_access pk draws request
    else if request.netfn == 6 && request.command == 0x46
    then (do
      body ← reads λ s. get_user_name request.body s.users
      send_ipmi_net_payload pk draws 0 body)
    else if request.netfn == 6 && request.command == 0x45
    then (do
      change_users λ u. Bytes.◌>>=◌ (set_user_name request.body u) λ u'. ok (tt, u')
      send_ipmi_net_payload pk draws 0 [])
    else if request.netfn == 6 && request.command == 0x47
    then (do
      code ← change_users (set_user_password request.body)
      send_ipmi_net_payload pk draws code [])
    else if is_raw request
    then raw_request pk draws request
    else send_ipmi_net_payload pk draws 0xc1 []
