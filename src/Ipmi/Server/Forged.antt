-- ===== src/Ipmi/Server/Forged.antt =====
-- What a datagram with a code that does not fit keeps.
use conpot.Prelude.{
  ℕ, ◌≡◌, ◌≢◌, ◌%◌, drop, refl, true, false, ◌||◌, Option, none, some, ◌==◌, arith, Bool-cases, inl,
  inr, List, [], ◌∷◌,
}
use conpot.Prelude.Bytes.{Bytes}
use conpot.Prelude.Exec.{Exec, pure, ◌>>=◌}
use conpot.Prelude.Exec.Keeps.{Keeps, Keeps-pure, Keeps-bind}
use conpot.Ipmi.State.{
  Address, Server, FakeSession, Packages, Draws, Callback, generic, client_request, Users, Bmc,
  self_session, send_data,
}
use conpot.Ipmi.Payload.{at, has_bit}
use conpot.Ipmi.Server.{
  code_fits, authenticate, ipmi20, got_v15, got_request, send_auth_cap, get_auth_cap,
  start_server_session, initiate_session, send_all,
}
use conpot.Ipmi.Server.Kept.{On, OnSession, On_rules, On-close, On-send_data}
use conpot.Ipmi.Server.Opening.{On-got_rmcp_openrequest, On-got_rakp1, On-got_rakp3}
use conpot.Ipmi.Server.Datagrams.{generic-got_v15, v20-got_v15}
use conpot.Ipmi.Server.Leads.{Leads, Leads-weaken, Leads-if, Leads-lift, Leads-update}

abbrev pub Anything : Callback → ℕ → Option Bytes → Type 0
Anything c a k = Unit

abbrev pub Same : Users → Bmc → Users → Bmc → Type 0
Same u b v c = (v ≡ u) × (c ≡ b)

ne-six : (version : ℕ) → (version == 0 || version == 2) ≡ true → version ≢ 6
ne-six version e = ground arith

pub Anything-of : (o : Option FakeSession) → OnSession Anything o
Anything-of none = tt
Anything-of (some t) = tt

module _ {P : Users → Bmc → Type 0} (pk : Packages) (draws : Draws) (rawdata : Bytes) where
  module _ {G : Callback → ℕ → Option Bytes → Type 0} where
    On-send_all : (address : Address) (ps : List Bytes) → Keeps (On P G) (send_all address ps)
    On-send_all address [] = search On_rules
    On-send_all address (p ∷ ps) =
        Keeps-bind (send_data p address) _ (On-send_data p address) λ _. On-send_all address ps

    On-start_server_session : Keeps (On P G) (start_server_session pk rawdata)
    unfolding start_server_session
    On-start_server_session = search (On_rules, On-send_all) depth 40

    On-send_auth_cap :
        (myaddr mylun clientaddr clientlun : ℕ) (sockaddr : Address)
        → Keeps (On P G) (send_auth_cap myaddr mylun clientaddr clientlun sockaddr)
    unfolding send_auth_cap
    On-send_auth_cap myaddr mylun clientaddr clientlun sockaddr = search On_rules depth 40

    On-get_auth_cap : (bs : Bytes) → Keeps (On P G) (get_auth_cap bs)
    unfolding get_auth_cap
    On-get_auth_cap bs = search (On_rules, On-send_auth_cap) depth 40

    pub On-initiate_session :
        ((c : Callback) (a : ℕ) (k : Option Bytes) → G c a k → G c 6 k)
        → Keeps (On P G) (initiate_session pk rawdata)
    unfolding initiate_session
    On-initiate_session free =
        search (On_rules, On-start_server_session, On-get_auth_cap, free) depth 40

-- The code of a datagram fits no key that a session may have.
abbrev pub Forged : Packages → Bytes → Option Bytes → Type 0
Forged pk rawdata none = Unit
Forged pk rawdata (some k1) = code_fits pk k1 rawdata ≡ false

Forged-key :
    (pk : Packages) (rawdata : Bytes) (key : Option Bytes)
    → Forged pk rawdata key
    → (k : Option Bytes) → k ≡ key
    → Forged pk rawdata k
Forged-key pk rawdata key forged k e = rw e forged

module _ {P : Users → Bmc → Type 0} (pk : Packages) (draws : Draws) (rawdata : Bytes)
    (key : Option Bytes) (forged : Forged pk rawdata key) where
  Forged-authenticate :
      {G : Callback → ℕ → Option Bytes → Type 0} (type : ℕ) (k : Option Bytes)
      → Forged pk rawdata k
      → Keeps (On P G) (authenticate pk draws rawdata type k)
  unfolding authenticate
  Forged-authenticate type none f = search On_rules
  Forged-authenticate type (some k1) f = rw f (search On_rules)

  module _ {G : Callback → ℕ → Option Bytes → Type 0}
      (keyed : (c : Callback) (a : ℕ) (k : Option Bytes) → G c a k → k ≡ key) where
    Forged-session :
        (type : ℕ) → Keeps (On P G) (self_session >>= λ t. authenticate pk draws rawdata type t.k1)
    Forged-session type =
        search (On_rules, Forged-authenticate, Forged-key pk rawdata key forged, keyed) depth 20

    forget : (s : Server) → On P G s → On P Anything s
    forget s h = record { server = h.server; session = Anything-of s.session }

    Forged-ipmi20 : Leads (On P G) (On P Anything) (ipmi20 pk draws rawdata)
    unfolding ipmi20
    Forged-ipmi20 = Leads-lift (at rawdata 5) _ forget λ type.
        Leads-if (type % 64 == 0x10) _ _
          (weaken (On-got_rmcp_openrequest pk draws (drop 16 rawdata)))
          (Leads-if (type % 64 == 0x12) _ _ (weaken (On-got_rakp1 pk draws (drop 16 rawdata))) (
            Leads-if (type % 64 == 0x14) _ _
              (Leads-weaken {R = On P Anything} _
                (On-got_rakp3 pk draws (λ c d a k l g. tt) (drop 16 rawdata)) forget (λ s h. h))
              (Leads-if (type % 64 == 0x11 || (type % 64 == 0x13 || type % 64 == 0x15)) (pure tt) _
                (weaken (Keeps-pure tt))
                (Leads-if (type % 64 == 0 || type % 64 == 1) _ _
                  (Leads-if (has_bit 64 type) _ _ (weaken (Forged-session type)) (weaken On-close))
                  (weaken On-close)))))
      where
        weaken : {m : Exec Server (Unit {0})} → Keeps (On P G) m → Leads (On P G) (On P Anything) m
        weaken k = Leads-weaken _ k (λ s h. h) forget

    Forged-got_request :
        ((version : ℕ) → version ≢ 6 → Keeps (On P G) (got_v15 pk draws rawdata version))
        → ((c : Callback) (a : ℕ) (k : Option Bytes) → G c a k → G c 6 k)
        → Leads (On P G) (On P Anything) (got_request pk draws rawdata)
    unfolding got_request
    Forged-got_request old up = Leads-lift (at rawdata 4) _ forget λ version.
        elim (Bool-cases (version == 0 || version == 2)) [
          | inl e ↦ rw e (Leads-weaken _ (old version (ne-six version e)) (λ s h. h) forget)
          | inr e ↦ rw e (
              Leads-if (version == 6) _ _
                (Leads-update G G _ (ipmi20 pk draws rawdata)
                  (λ t g. up t.ipmicallback t.authtype t.k1 g) forget Forged-ipmi20)
                (Leads-weaken _ On-close (λ s h. h) forget))
        ]

-- The invariant of the server: a session that takes commands has the kind of authentication of version
-- 2.0.
abbrev pub Bound : Callback → ℕ → Option Bytes → Type 0
Bound generic a k = Unit
Bound client_request a k = a ≡ 6

abbrev pub IsBound : Server → Type 0
IsBound s = OnSession Bound s.session

-- The code of the datagram does not fit the key of the session.
abbrev pub IsForged : Packages → Bytes → Option FakeSession → Type 0
IsForged pk rawdata none = Unit
IsForged pk rawdata (some t) = Forged pk rawdata t.k1

-- A session that takes no commands, or one of version 2.0, with its key.
abbrev pub Waits : Option Bytes → Callback → ℕ → Option Bytes → Type 0
Waits key c a k = (c ≡ generic) × (k ≡ key)

abbrev pub Opened : Option Bytes → Callback → ℕ → Option Bytes → Type 0
Opened key c a k = (a ≡ 6) × (k ≡ key)

module _ {P : Users → Bmc → Type 0} (pk : Packages) (draws : Draws) (rawdata : Bytes) where
  pub Forged-session_of :
      (s : Server) (c : Callback) (t : FakeSession)
      → t.ipmicallback ≡ c
      → s.session ≡ some t
      → Bound c t.authtype t.k1
      → Forged pk rawdata t.k1
      → P s.users s.bmc
      → On P Anything (got_request pk draws rawdata s).1
  Forged-session_of s generic t e f bound forged p =
      (Forged-got_request pk draws rawdata t.k1 forged {G = Waits t.k1} (λ c a k g. g.1)
          (λ version ne. generic-got_v15 pk draws (λ c a k g. g.0) rawdata version)
          (λ c a k g. g)).after
        s (record { server = p; session = rw f (e, refl) })
  Forged-session_of s client_request t e f bound forged p =
      (Forged-got_request pk draws rawdata t.k1 forged {G = Opened t.k1} (λ c a k g. g.1)
          (λ version ne. v20-got_v15 pk draws (λ c a k g. g.0) rawdata version ne)
          (λ c a k g. (refl, g.1))).after
        s (record { server = p; session = rw f (bound, refl) })
