-- ===== src/Ipmi/Server/Opening.antt =====
-- What the messages that open a session keep: the users, the controller and the kind of
-- authentication.
use conpot.Prelude.{ℕ, Option}
use conpot.Prelude.Bytes.{Bytes}
use conpot.Prelude.Exec.Keeps.{Keeps}
use conpot.Ipmi.State.{Packages, Draws, Callback, Users, Bmc}
use conpot.Ipmi.Handshake.{
  got_rmcp_openrequest, answer_rakp1, got_rakp1, send_rakp4, make_keys, expected_code, open_session,
  got_rakp3,
}
use conpot.Ipmi.Server.Kept.{On, On_rules}

module _ {P : Users → Bmc → Type 0} {G : Callback → ℕ → Option Bytes → Type 0} (pk : Packages)
    (draws : Draws) where
  pub On-got_rmcp_openrequest :
      (message : Bytes) → Keeps (On P G) (got_rmcp_openrequest pk draws message)
  unfolding got_rmcp_openrequest
  On-got_rmcp_openrequest message = search On_rules depth 40

  On-answer_rakp1 :
      (clienttag : ℕ) (username : Bytes) → Keeps (On P G) (answer_rakp1 pk draws clienttag username)
  unfolding answer_rakp1
  On-answer_rakp1 clienttag username = search On_rules depth 60

  pub On-got_rakp1 : (message : Bytes) → Keeps (On P G) (got_rakp1 pk draws message)
  unfolding got_rakp1
  On-got_rakp1 message = search (On_rules, On-answer_rakp1) depth 40

  On-expected_code : Keeps (On P G) (expected_code pk)
  unfolding expected_code
  On-expected_code = search On_rules depth 40

  On-send_rakp4 :
      (tagvalue statuscode : ℕ) → Keeps (On P G) (send_rakp4 pk draws tagvalue statuscode)
  unfolding send_rakp4
  On-send_rakp4 tagvalue statuscode = search On_rules depth 60

  module _ (free : (c d : Callback) (a : ℕ) (k l : Option Bytes) → G c a k → G d a l) where
    On-make_keys : Keeps (On P G) (make_keys pk)
    unfolding make_keys
    On-make_keys = search (On_rules, free) depth 60

    On-open_session : (clienttag : ℕ) → Keeps (On P G) (open_session pk draws clienttag)
    unfolding open_session
    On-open_session clienttag = search (On_rules, On-send_rakp4, free) depth 40

    pub On-got_rakp3 : (message : Bytes) → Keeps (On P G) (got_rakp3 pk draws message)
    unfolding got_rakp3
    On-got_rakp3 message =
        search (On_rules, On-make_keys, On-expected_code, On-open_session) depth 40
