-- ===== src/Ipmi/Server/Leads.antt =====
-- Methods that lead from one predicate to another, whether they return or raise.
use conpot.Prelude.{ℕ, Bool, true, false, Option, none, some, if◌then◌else◌}
use conpot.Prelude.Bytes.{Bytes, Result, ok, err}
use conpot.Prelude.Exec.{Exec, lift, resume, reads, modify, ◌>>=◌}
use conpot.Prelude.Exec.Keeps.{Keeps}
use conpot.Ipmi.State.{
  Server, FakeSession, Callback, Users, Bmc, attribute, self_session, put_session,
}
use conpot.Ipmi.Session.{update_session}
use conpot.Ipmi.Server.Kept.{On, OnSession}

pub record Leads {A : Type 0} (P Q : Server → Type 0) (method : Exec Server A) : Type 0 where
  pub after : (s : Server) → P s → Q (method s).1

module _ {A : Type 0} {P Q : Server → Type 0} where
  pub Leads-weaken :
      {R : Server → Type 0} (method : Exec Server A)
      → Keeps R method
      → ((s : Server) → P s → R s)
      → ((s : Server) → R s → Q s)
      → Leads P Q method
  Leads-weaken method k into out = record { after = λ s p. out (method s).1 (k.after s (into s p)) }

  pub Leads-if :
      (test : Bool) (yes_part no_part : Exec Server A)
      → Leads P Q yes_part
      → Leads P Q no_part
      → Leads P Q (if test then yes_part else no_part)
  Leads-if true yes_part no_part y n = y
  Leads-if false yes_part no_part y n = n

  pub Leads-lift :
      {B : Type 0} (r : Result B) (next : B → Exec Server A)
      → ((s : Server) → P s → Q s)
      → ((b : B) → Leads P Q (next b))
      → Leads P Q (lift r >>= next)
  unfolding lift ◌>>=◌
  Leads-lift (ok b) next out k = k b
  Leads-lift (err exc) next out k = record { after = out }

module _ {P : Users → Bmc → Type 0} (G H : Callback → ℕ → Option Bytes → Type 0)
    {Q : Server → Type 0} where
  updated :
      {A : Type 0} (f : FakeSession → FakeSession) (next : Exec Server A) (s : Server)
      (o : Option FakeSession)
      → ((t : FakeSession)
          → G t.ipmicallback t.authtype t.k1
          → H (f t).ipmicallback (f t).authtype (f t).k1)
      → Leads (On P H) Q next
      → Q s
      → P s.users s.bmc
      → OnSession G o
      → Q (resume (λ _. next) (resume (λ t. put_session (f t)) (attribute o, s))).1
  unfolding put_session modify
  updated f next s none h l q p g = q
  updated f next s (some t) h l q p g =
      l.after (record s { session = some (f t) }) (record { server = p; session = h t g })

  -- An update of the session, and then the rest.
  pub Leads-update :
      {A : Type 0} (f : FakeSession → FakeSession) (next : Exec Server A)
      → ((t : FakeSession)
          → G t.ipmicallback t.authtype t.k1
          → H (f t).ipmicallback (f t).authtype (f t).k1)
      → ((s : Server) → On P G s → Q s)
      → Leads (On P H) Q next
      → Leads (On P G) Q (update_session f >>= λ _. next)
  unfolding update_session self_session reads ◌>>=◌
  Leads-update f next h out l = record {
    after = λ s g. updated f next s s.session h l (out s g) g.server g.session;
  }
