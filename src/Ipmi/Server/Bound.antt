-- ===== src/Ipmi/Server/Bound.antt =====
-- The session takes commands only if its kind of authentication is that of version 2.0.
use conpot.Prelude.{ℕ, Option, List, [], ◌∷◌}
use conpot.Prelude.Bytes.{Bytes, Result, ok, err}
use conpot.Prelude.Exec.Keeps.{Keeps, Keeps-bind}
use conpot.Ipmi.State.{Server, Packages, Draws, Callback, Users, Bmc, Request}
use conpot.Ipmi.Commands.{
  set_privilege, close_session, user_access, send_responses, raw_request, change_users, store_users,
  handle_client_request,
}
use conpot.Ipmi.Session.{send_ipmi_net_payload}
use conpot.Ipmi.Server.Kept.{On, On_rules, On-send_ipmi_net_payload}

module _ {P : Users → Bmc → Type 0} {G : Callback → ℕ → Option Bytes → Type 0}
    (any : (u v : Users) (b c : Bmc) → P u b → P v c) (pk : Packages) (draws : Draws) where
  On-set_privilege : (request : Request) → Keeps (On P G) (set_privilege pk draws request)
  unfolding set_privilege
  On-set_privilege request = search On_rules depth 30

  On-send_responses : (rs : List (ℕ × Bytes)) → Keeps (On P G) (send_responses pk draws rs)
  unfolding send_responses
  On-send_responses [] = search On_rules
  On-send_responses ((code, body) ∷ rest) =
      Keeps-bind (send_ipmi_net_payload pk draws code body) _
        (On-send_ipmi_net_payload pk draws code body) λ _. On-send_responses rest

  On-raw_request : (request : Request) → Keeps (On P G) (raw_request pk draws request)
  unfolding raw_request
  On-raw_request request = search (On_rules, On-send_responses, any) depth 30

  On-stored :
      {A : Type 0} (r : Result (A × Users)) (s : Server) → On P G s → On P G (store_users r s).1
  On-stored (ok (a, u)) s h = record {
    server = any s.users u s.bmc s.bmc h.server;
    session = h.session;
  }
  On-stored (err exc) s h = h

  On-change_users : {A : Type 0} (f : Users → Result (A × Users)) → Keeps (On P G) (change_users f)
  unfolding change_users
  On-change_users f = record { after = λ s h. On-stored (f s.users) s h }

  On-close_session : Keeps (On P G) (close_session pk draws)
  unfolding close_session
  On-close_session = search On_rules depth 30

  On-user_access : (request : Request) → Keeps (On P G) (user_access pk draws request)
  unfolding user_access
  On-user_access request = search On_rules depth 30

  pub On-handle_client_request :
      (request : Request) → Keeps (On P G) (handle_client_request pk draws request)
  unfolding handle_client_request
  On-handle_client_request request =
      search
        (
          On_rules, On-set_privilege, On-close_session, On-user_access, On-change_users,
          On-raw_request,
        )
        depth 60
