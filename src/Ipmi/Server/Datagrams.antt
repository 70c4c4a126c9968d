-- ===== src/Ipmi/Server/Datagrams.antt =====
-- What a datagram keeps, by the state of the session that takes it.
use conpot.Prelude.{ℕ, ◌≡◌, ◌≢◌, false, Option, none, some, ◌==◌, arith}
use conpot.Prelude.Bytes.{Bytes}
use conpot.Prelude.Exec.Keeps.{Keeps}
use conpot.Ipmi.State.{
  FakeSession, Packages, Draws, Callback, generic, client_request, Users, Bmc, Request,
}
use conpot.Ipmi.Server.{call_back, ipmi15, accept, authenticate, ipmi20, check_v15, got_v15}
use conpot.Ipmi.Server.Kept.{On, On_rules}
use conpot.Ipmi.Server.Bound.{On-handle_client_request}
use conpot.Ipmi.Server.Opening.{On-got_rmcp_openrequest, On-got_rakp1, On-got_rakp3}

other_version : (version authtype : ℕ) → version ≢ 6 → authtype ≡ 6 → (version == authtype) ≡ false
other_version version authtype ne e = ground arith

module _ {P : Users → Bmc → Type 0} (pk : Packages) (draws : Draws) where
  module _ {G : Callback → ℕ → Option Bytes → Type 0}
      (no_commands : (c : Callback) (a : ℕ) (k : Option Bytes) → G c a k → c ≡ generic) where
    generic-call_back :
        (request : Request) (c : Callback)
        → c ≡ generic
        → Keeps (On P G) (call_back pk draws request c)
    unfolding call_back
    generic-call_back request generic e = search On_rules
    generic-call_back request client_request e = cc

    generic-ipmi15 : (payload : Bytes) → Keeps (On P G) (ipmi15 pk draws payload)
    unfolding ipmi15
    generic-ipmi15 payload = search (On_rules, generic-call_back, no_commands) depth 60

    generic-check_v15 :
        (rawdata : Bytes) (version : ℕ) (t : FakeSession)
        → Keeps (On P G) (check_v15 pk draws rawdata version t)
    unfolding check_v15
    generic-check_v15 rawdata version t = search (On_rules, generic-ipmi15) depth 60

    pub generic-got_v15 :
        (rawdata : Bytes) (version : ℕ) → Keeps (On P G) (got_v15 pk draws rawdata version)
    unfolding got_v15
    generic-got_v15 rawdata version = search (On_rules, generic-check_v15) depth 60

  module _ {G : Callback → ℕ → Option Bytes → Type 0}
      (any : (u v : Users) (b c : Bmc) → P u b → P v c) where
    any-call_back :
        (request : Request) (c : Callback) → Keeps (On P G) (call_back pk draws request c)
    unfolding call_back
    any-call_back request generic = search On_rules
    any-call_back request client_request = On-handle_client_request any pk draws request

    any-ipmi15 : (payload : Bytes) → Keeps (On P G) (ipmi15 pk draws payload)
    unfolding ipmi15
    any-ipmi15 payload = search (On_rules, any-call_back) depth 60

    any-check_v15 :
        (rawdata : Bytes) (version : ℕ) (t : FakeSession)
        → Keeps (On P G) (check_v15 pk draws rawdata version t)
    unfolding check_v15
    any-check_v15 rawdata version t = search (On_rules, any-ipmi15) depth 60

    pub any-got_v15 :
        (rawdata : Bytes) (version : ℕ) → Keeps (On P G) (got_v15 pk draws rawdata version)
    unfolding got_v15
    any-got_v15 rawdata version = search (On_rules, any-check_v15) depth 60

    any-accept : (rawdata : Bytes) (type : ℕ) → Keeps (On P G) (accept pk draws rawdata type)
    unfolding accept
    any-accept rawdata type = search (On_rules, any-ipmi15) depth 60

    pub any-authenticate :
        (rawdata : Bytes) (type : ℕ) (k : Option Bytes)
        → Keeps (On P G) (authenticate pk draws rawdata type k)
    unfolding authenticate
    any-authenticate rawdata type none = search On_rules
    any-authenticate rawdata type (some k1) = search (On_rules, any-accept)

    pub any-ipmi20 :
        ((c d : Callback) (a : ℕ) (k l : Option Bytes) → G c a k → G d a l)
        → (rawdata : Bytes) → Keeps (On P G) (ipmi20 pk draws rawdata)
    unfolding ipmi20
    any-ipmi20 free rawdata =
        search
          (On_rules, any-authenticate, On-got_rmcp_openrequest, On-got_rakp1, On-got_rakp3, free)
          depth 60

  -- A session of version 2.0 closes on a packet of version 1.5.
  module _ {G : Callback → ℕ → Option Bytes → Type 0}
      (of_v20 : (c : Callback) (a : ℕ) (k : Option Bytes) → G c a k → a ≡ 6) where
    v20-check_v15 :
        (rawdata : Bytes) (version : ℕ) (t : FakeSession)
        → version ≢ 6
        → G t.ipmicallback t.authtype t.k1
        → Keeps (On P G) (check_v15 pk draws rawdata version t)
    unfolding check_v15
    v20-check_v15 rawdata version t ne g =
        rw (other_version version t.authtype ne (of_v20 t.ipmicallback t.authtype t.k1 g))
          (search On_rules)

    pub v20-got_v15 :
        (rawdata : Bytes) (version : ℕ)
        → version ≢ 6
        → Keeps (On P G) (got_v15 pk draws rawdata version)
    unfolding got_v15
    v20-got_v15 rawdata version ne = search (On_rules, v20-check_v15, ne) depth 60
