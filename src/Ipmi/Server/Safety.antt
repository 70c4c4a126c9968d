-- ===== src/Ipmi/Server/Safety.antt =====
-- Who can give commands to the server.
use conpot.Prelude.{
  ℕ, ◌≡◌, refl, Option, none, some, ◌==◌, ◌||◌, Bool-cases, inl, inr, if◌then◌else◌,
}
use mathlib.Core.Path.{subst}
use conpot.Prelude.Bytes.{Bytes}
use conpot.Prelude.Exec.{reads, modify, resume, ◌>>=◌}
use conpot.Ipmi.State.{
  Address, Server, FakeSession, Packages, Draws, Callback, generic, client_request, Users, Bmc,
  self_session, attribute,
}
use conpot.Ipmi.Payload.{at}
use conpot.Ipmi.Session.{close_server_session, has_key}
use conpot.Ipmi.Server.{ipmi20, got_request, initiate_session, start_session, handle, new_session}
use conpot.Ipmi.Server.Kept.{On, OnSession, On-close}
use conpot.Ipmi.Server.Datagrams.{any-got_v15, any-ipmi20}
use conpot.Ipmi.Server.Leads.{Leads, Leads-weaken, Leads-if, Leads-lift, Leads-update}
use conpot.Ipmi.Server.Forged.{
  Anything, Anything-of, Same, Bound, IsBound, IsForged, On-initiate_session, Forged-session_of,
}

-- A property of the state after the datagram is shown for each of the three ways that `handle` takes.
pub handle-ways :
    (R : Server → Type 0) (pk : Packages) (draws : Draws) (rawdata : Bytes) (address : Address)
    (s : Server)
    → R s
    → R (close_server_session s).1
    → ((t : FakeSession) → s.session ≡ some t → R (got_request pk draws rawdata s).1)
    → R (initiate_session pk rawdata (start_session pk draws address s).1).1
    → R (handle pk draws rawdata address s).1
unfolding handle reads self_session ◌>>=◌ start_session modify
handle-ways R pk draws rawdata address s same closed request fresh =
    elim (Bool-cases (has_key address.0 s.sessions)) [
      | inl k ↦ rw k (known s.session request)
      | inr k ↦ rw k fresh
    ]
  where
    known :
        (o : Option FakeSession)
        → ((t : FakeSession) → o ≡ some t → R (got_request pk draws rawdata s).1)
        → R
            (resume
              (λ t. if t.stage == 0 then close_server_session else got_request pk draws rawdata)
              (attribute o, s)).1
    known none r = same
    known (some t) r = elim (Bool-cases (t.stage == 0)) [
      | inl z ↦ rw z closed
      | inr z ↦ rw z (r t refl)
    ]

module _ (pk : Packages) (draws : Draws) (rawdata : Bytes) (address : Address) where
  started : (s : Server) → OnSession Bound (start_session pk draws address s).1.session
  unfolding start_session modify new_session
  started s = tt

  started-keeps :
      (s : Server)
      → Same s.users s.bmc
          (start_session pk draws address s).1.users
          (start_session pk draws address s).1.bmc
  unfolding start_session modify
  started-keeps s = (refl, refl)

  -- A datagram whose code does not fit the key of the session changes neither the users nor the
  -- controller, if a session that takes commands has the kind of authentication of version 2.0.
  pub handle-users :
      (s : Server)
      → IsBound s
      → IsForged pk rawdata s.session
      → ((handle pk draws rawdata address s).1.users ≡ s.users)
        × ((handle pk draws rawdata address s).1.bmc ≡ s.bmc)
  handle-users s bound forged =
      (handle-ways (On (Same s.users s.bmc) Anything) pk draws rawdata address s here
        (On-close.after s here)
        (λ t e.
          Forged-session_of pk draws rawdata s t.ipmicallback t refl e
            (subst (OnSession Bound) e bound) (subst (IsForged pk rawdata) e forged) (refl, refl))
        ((On-initiate_session pk draws rawdata (λ c a k g. tt)).after _
          (record { server = started-keeps s; session = Anything-of _ }))).server
    where
      here : On (Same s.users s.bmc) Anything s
      here = record { server = (refl, refl); session = Anything-of s.session }

  abbrev Any : Users → Bmc → Type 0
  Any u b = Unit

  abbrev Six : Callback → ℕ → Option Bytes → Type 0
  Six c a k = a ≡ 6

  Bound-of : (c : Callback) (a : ℕ) (k : Option Bytes) → Six c a k → Bound c a k
  Bound-of generic a k e = tt
  Bound-of client_request a k e = e

  Bound-six : (o : Option FakeSession) → OnSession Six o → OnSession Bound o
  Bound-six none g = tt
  Bound-six (some t) g = Bound-of t.ipmicallback t.authtype t.k1 g

  got_request-Bound : Leads (On Any Bound) (On Any Bound) (got_request pk draws rawdata)
  unfolding got_request
  got_request-Bound =
      Leads-lift (at rawdata 4) _ (λ s h. h)
        λ version.
          Leads-if (version == 0 || version == 2) _ _
            (Leads-weaken _ (any-got_v15 pk draws (λ u v b c h. tt) rawdata version) (λ s h. h)
              (λ s h. h))
            (Leads-if (version == 6) _ _
              (Leads-update Bound Six _ (ipmi20 pk draws rawdata) (λ t g. refl) (λ s h. h)
                (Leads-weaken _ (any-ipmi20 pk draws (λ u v b c h. tt) (λ c d a k l g. g) rawdata)
                  (λ s h. h)
                  (λ s h. record { server = tt; session = Bound-six s.session h.session })))
              (Leads-weaken _ On-close (λ s h. h) (λ s h. h)))

  raised : (c : Callback) (a : ℕ) (k : Option Bytes) → Bound c a k → Bound c 6 k
  raised generic a k g = tt
  raised client_request a k g = refl

  -- Every datagram keeps the invariant: the kind of authentication of a session that takes commands is 6.
  pub handle-IsBound : (s : Server) → IsBound s → IsBound (handle pk draws rawdata address s).1
  handle-IsBound s bound =
      (handle-ways (On Any Bound) pk draws rawdata address s here (On-close.after s here)
        (λ t e. got_request-Bound.after s here)
        ((On-initiate_session pk draws rawdata raised).after _
          (record { server = tt; session = started s }))).session
    where
      here : On Any Bound s
      here = record { server = tt; session = bound }
