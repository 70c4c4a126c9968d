-- ===== src/Ipmi/Server/Kept.antt =====
-- Predicates of the users, the controller and three fields of the session that the methods keep.
use conpot.Prelude.{ℕ, Option, none, some, Bool-cases, inl, inr}
use conpot.Prelude.Bytes.{Bytes}
use conpot.Prelude.Exec.{Exec, modify, reads, resume, ◌>>=◌}
use conpot.Prelude.Exec.Keeps.{Keeps, keeps_rules}
use conpot.Ipmi.State.{
  Address, Server, FakeSession, Packages, Draws, Callback, Users, Bmc, attribute, self_session,
  put_session, send_data,
}
use conpot.Ipmi.Session.{
  update_session, send_payload, send_ipmi_net_payload, close_server_session, drop_session, has_key,
}

-- What the session says of its callback, its kind of authentication and its key.
abbrev pub OnSession : (Callback → ℕ → Option Bytes → Type 0) → Option FakeSession → Type 0
OnSession G none = Unit
OnSession G (some t) = G t.ipmicallback t.authtype t.k1

pub record On (P : Users → Bmc → Type 0) (G : Callback → ℕ → Option Bytes → Type 0) (s : Server)
    : Type 0 where
  pub server : P s.users s.bmc
  pub session : OnSession G s.session

module _ {P : Users → Bmc → Type 0} {G : Callback → ℕ → Option Bytes → Type 0} where
  On-session_of :
      {A : Type 0} (next : FakeSession → Exec Server A) (s : Server) (o : Option FakeSession)
      → ((t : FakeSession) → G t.ipmicallback t.authtype t.k1 → Keeps (On P G) (next t))
      → OnSession G o
      → On P G s
      → On P G (resume next (attribute o, s)).1
  On-session_of next s none k g h = h
  On-session_of next s (some t) k g h = (k t g).after s h

  pub On-session :
      {A : Type 0} (next : FakeSession → Exec Server A)
      → ((t : FakeSession) → G t.ipmicallback t.authtype t.k1 → Keeps (On P G) (next t))
      → Keeps (On P G) (self_session >>= next)
  unfolding self_session reads ◌>>=◌
  On-session next k = record { after = λ s h. On-session_of next s s.session k h.session h }

  pub On-put : (t : FakeSession) → G t.ipmicallback t.authtype t.k1 → Keeps (On P G) (put_session t)
  unfolding put_session modify
  On-put t g = record { after = λ s h. record { server = h.server; session = g } }

  pub On-modify :
      (f : Server → Server)
      → ((s : Server) → P s.users s.bmc → P (f s).users (f s).bmc)
      → ((s : Server) → OnSession G s.session → OnSession G (f s).session)
      → Keeps (On P G) (modify f)
  unfolding modify
  On-modify f k l = record {
    after = λ s h. record { server = k s h.server; session = l s h.session };
  }

  pub On-send_data :
      (packet : Bytes) (address : Address) → Keeps (On P G) (send_data packet address)
  unfolding send_data modify
  On-send_data packet address = record {
    after = λ s h. record { server = h.server; session = h.session };
  }

  pub On-update_session :
      (f : FakeSession → FakeSession)
      → ((t : FakeSession)
          → G t.ipmicallback t.authtype t.k1
          → G (f t).ipmicallback (f t).authtype (f t).k1)
      → Keeps (On P G) (update_session f)
  unfolding update_session
  On-update_session f k = On-session _ λ t g. On-put (f t) (k t g)

  pub On-send_payload :
      (pk : Packages) (draws : Draws) (payload : Bytes) (payload_type : ℕ)
      → Keeps (On P G) (send_payload pk draws payload payload_type)
  unfolding send_payload
  On-send_payload pk draws payload payload_type =
      search (keeps_rules, On-session, On-put, On-send_data) depth 20

  pub On-send_ipmi_net_payload :
      (pk : Packages) (draws : Draws) (code : ℕ) (body : Bytes)
      → Keeps (On P G) (send_ipmi_net_payload pk draws code body)
  unfolding send_ipmi_net_payload
  On-send_ipmi_net_payload pk draws code body =
      search (keeps_rules, On-session, On-put, On-send_payload) depth 20

  On-drop_session : (host : ℕ) (s : Server) → On P G s → On P G (drop_session host s).1
  On-drop_session host s h = elim (Bool-cases (has_key host s.sessions)) [
    | inl e ↦ rw e (record { server = h.server; session = tt })
    | inr e ↦ rw e h
  ]

  pub On-close : Keeps (On P G) close_server_session
  unfolding close_server_session
  On-close = On-session _ λ t g. record { after = On-drop_session t.sockaddr.0 }

pub ruleset On_rules = (
  keeps_rules, On-session, On-put, On-modify, On-send_data, On-update_session, On-send_payload,
  On-send_ipmi_net_payload, On-close,
)
