-- ===== src/Ipmi/Server/Access.antt =====
-- Which datagram opens a session.
use mathlib.Core.Path.{subst}
use conpot.Prelude.{ℕ, ◌%◌, ◌≡◌, ◌⊎◌, inr, refl, drop, Option, none, some, ◌==◌, ◌||◌}
use conpot.Prelude.Bytes.{Bytes}
use conpot.Prelude.Exec.{Exec, pure, reads, modify, resume, ◌>>=◌}
use conpot.Prelude.Exec.Keeps.{Keeps, Keeps-pure}
use conpot.Ipmi.State.{
  Address, Server, FakeSession, Packages, Draws, Handshake, attribute, self_session, put_session,
}
use conpot.Ipmi.Payload.{at, has_bit}
use conpot.Ipmi.Session.{update_session}
use conpot.Ipmi.Handshake.{got_rakp3}
use conpot.Ipmi.Handshake.Proven.{Proves, Any, Silent, TakesNone, got_rakp3-Proves}
use conpot.Ipmi.Server.{ipmi20, authenticate, got_request, start_session, new_session, handle}
use conpot.Ipmi.Server.Kept.{On, OnSession, On_rules, On-close}
use conpot.Ipmi.Server.Opening.{On-got_rmcp_openrequest, On-got_rakp1}
use conpot.Ipmi.Server.Datagrams.{any-authenticate, any-got_v15}
use conpot.Ipmi.Server.Leads.{Leads, Leads-if, Leads-lift}
use conpot.Ipmi.Server.Forged.{On-initiate_session}
use conpot.Ipmi.Server.Safety.{handle-ways}

module _ (pk : Packages) (draws : Draws) (rawdata : Bytes) (h0 : Handshake) where
  abbrev Before : Server → Type 0
  Before s = (s.handshake ≡ h0) × On Any Silent s

  -- The datagram proves the knowledge of the password, or no session takes commands.
  abbrev After : Server → Type 0
  After s = Proves pk h0 (drop 16 rawdata) ⊎ TakesNone s

  silent : {m : Exec Server (Unit {0})} → Keeps (On Any Silent) m → Leads Before After m
  silent k = record { after = λ s p. inr (k.after s p.1).session }

  After-got_rakp3 : Leads Before After (got_rakp3 pk draws (drop 16 rawdata))
  After-got_rakp3 = record {
    after = λ s p.
        subst
          (λ (h : Handshake).
            Proves pk h (drop 16 rawdata) ⊎ TakesNone (got_rakp3 pk draws (drop 16 rawdata) s).1)
          p.0 (got_rakp3-Proves pk draws (drop 16 rawdata) s p.1.session);
  }

  Silent-session :
      (type : ℕ)
      → Keeps (On Any Silent) (self_session >>= λ t. authenticate pk draws rawdata type t.k1)
  Silent-session type = search (On_rules, any-authenticate pk draws (λ u v b c h. tt)) depth 20

  After-ipmi20 : Leads Before After (ipmi20 pk draws rawdata)
  unfolding ipmi20
  After-ipmi20 =
      Leads-lift (at rawdata 5) _ (λ s p. inr p.1.session)
        λ type.
          Leads-if (type % 64 == 0x10) _ _
            (silent (On-got_rmcp_openrequest pk draws (drop 16 rawdata)))
            (Leads-if (type % 64 == 0x12) _ _ (silent (On-got_rakp1 pk draws (drop 16 rawdata))) (
              Leads-if (type % 64 == 0x14) _ _ After-got_rakp3 (
                Leads-if (type % 64 == 0x11 || (type % 64 == 0x13 || type % 64 == 0x15)) (pure tt) _
                  (silent (Keeps-pure tt))
                  (Leads-if (type % 64 == 0 || type % 64 == 1) _ _
                    (Leads-if (has_bit 64 type) _ _ (silent (Silent-session type))
                      (silent On-close))
                    (silent On-close)))))

  updated :
      (f : FakeSession → FakeSession) (next : Exec Server (Unit {0})) (s : Server)
      (o : Option FakeSession)
      → ((t : FakeSession) → (f t).ipmicallback ≡ t.ipmicallback)
      → Leads Before After next
      → Before s
      → OnSession Silent o
      → After (resume (λ _. next) (resume (λ t. put_session (f t)) (attribute o, s))).1
  unfolding put_session modify
  updated f next s none same l p g = inr p.1.session
  updated f next s (some t) same l p g =
      l.after (record s { session = some (f t) })
        (p.0, record { server = tt; session = rw (same t) g })

  After-update :
      (f : FakeSession → FakeSession) (next : Exec Server (Unit {0}))
      → ((t : FakeSession) → (f t).ipmicallback ≡ t.ipmicallback)
      → Leads Before After next
      → Leads Before After (update_session f >>= λ _. next)
  unfolding update_session self_session reads ◌>>=◌
  After-update f next same l = record {
    after = λ s p. updated f next s s.session same l p p.1.session;
  }

  After-got_request : Leads Before After (got_request pk draws rawdata)
  unfolding got_request
  After-got_request =
      Leads-lift (at rawdata 4) _ (λ s p. inr p.1.session)
        λ version.
          Leads-if (version == 0 || version == 2) _ _
            (silent (any-got_v15 pk draws (λ u v b c h. tt) rawdata version))
            (Leads-if (version == 6) _ _
              (After-update _ (ipmi20 pk draws rawdata) (λ t. refl) After-ipmi20) (silent On-close))

started_Silent :
    (pk : Packages) (draws : Draws) (address : Address) (s : Server)
    → TakesNone (start_session pk draws address s).1
unfolding start_session modify new_session
started_Silent pk draws address s = refl

-- Where the server's session takes no commands, it takes none after a datagram either, unless the bytes
-- behind the header of that carry, as message 3 does, the digest under the password of the user of what
-- the server drew, the session of the client, the role and the name of the user, as the handshake has left
-- them on the server.
pub handle-Proves :
    (pk : Packages) (draws : Draws) (rawdata : Bytes) (address : Address) (s : Server)
    → TakesNone s
    → Proves pk s.handshake (drop 16 rawdata) ⊎ TakesNone (handle pk draws rawdata address s).1
handle-Proves pk draws rawdata address s closed =
    handle-ways (After pk draws rawdata s.handshake) pk draws rawdata address s (inr closed)
      (inr ((On-close {P = Any} {G = Silent}).after s here).session)
      (λ t e. (After-got_request pk draws rawdata s.handshake).after s (refl, here))
      (inr
        ((On-initiate_session {P = Any} pk draws rawdata {G = Silent} (λ c a k g. g)).after _
          (record { server = tt; session = started_Silent pk draws address s })).session)
  where
    here : On Any Silent s
    here = record { server = tt; session = closed }
