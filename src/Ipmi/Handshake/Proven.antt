-- ===== src/Ipmi/Handshake/Proven.antt =====
-- What message 3 of the handshake has to prove before its session takes commands.
use conpot.Prelude.{
  ℕ, ◌≡◌, ◌⊎◌, inl, inr, refl, sym, ap, ◌∙◌, Option, none, some, [], ◌∷◌, ◌++◌, length, drop,
  Bool-cases, bytes_eq, bytes_eq_iff, list_eq, arith, ◌==◌, if◌then◌else◌,
}
use conpot.Prelude.Bytes.{Bytes, Result, ok, err, ok-injective}
use conpot.Prelude.Exec.{Exec, pure, lift, reads, modify, resume, ◌>>=◌}
use conpot.Prelude.Exec.Keeps.{Keeps, keeps_rules}
use conpot.Ipmi.State.{
  Server, Packages, Draws, Callback, generic, FakeSession, Users, Bmc, Handshake, attribute,
  self_session, put_session,
}
use conpot.Ipmi.Session.{update_session, close_server_session}
use conpot.Ipmi.Payload.{at, pack_bytes}
use conpot.Ipmi.Handshake.{part, make_keys, expected_code, open_session, got_rakp3}
use conpot.Ipmi.Server.Kept.{On, OnSession, On_rules, On-close}

-- The message carries the digest, under the user's password, of what the server drew, the session of
-- the client, the role and the name of the user.
abbrev pub Proves : Packages → Handshake → Bytes → Type 0
Proves pk h message =
    (kuid : Bytes) × (rc : Bytes) × (client : Bytes) × (rolem : ℕ) × (username : Bytes) × (h.kuid
      ≡ some kuid)
    × (h.rc ≡ some rc)
    × (h.clientsessionid ≡ some client)
    × (h.rolem ≡ some rolem)
    × (h.username ≡ some username)
    × (pk.hmac_sha1 kuid (rc ++ client ++ (rolem ∷ length username ∷ []) ++ username)
        ≡ drop 8 message)

-- The fields that the code is made of.
abbrev Same : Handshake → Handshake → Type 0
Same h g =
    (g.kuid ≡ h.kuid)
    × (g.rc ≡ h.rc)
    × (g.clientsessionid ≡ h.clientsessionid)
    × (g.rolem ≡ h.rolem)
    × (g.username ≡ h.username)

abbrev pub Silent : Callback → ℕ → Option Bytes → Type 0
Silent c a k = c ≡ generic

abbrev pub Any : Users → Bmc → Type 0
Any u b = Unit

-- A session that takes no commands.
abbrev pub TakesNone : Server → Type 0
TakesNone s = OnSession Silent s.session

module _ {A B : Type 0} where
  -- What a part of a method that returns was.
  part-returns :
      (f : Handshake → Option A) (next : A → Exec Server B) (s : Server) (b : B)
      → ((part f >>= next) s).0 ≡ ok b
      → (a : A) × (f s.handshake ≡ some a) × ((next a s).0 ≡ ok b)
  unfolding reads ◌>>=◌
  part-returns f next s b h = known (f s.handshake) refl h
    where
      known :
          (o : Option A)
          → f s.handshake ≡ o
          → (resume next (attribute o, s)).0 ≡ ok b
          → (a : A) × (f s.handshake ≡ some a) × ((next a s).0 ≡ ok b)
      known none e k = cc
      known (some a) e k = (a, e, k)

  lift-returns :
      (r : Result A) (next : A → Exec Server B) (s : Server) (b : B)
      → ((lift r >>= next) s).0 ≡ ok b
      → (a : A) × (r ≡ ok a) × ((next a s).0 ≡ ok b)
  unfolding lift ◌>>=◌
  lift-returns (ok a) next s b h = (a, refl, h)
  lift-returns (err e) next s b h = cc

pack_bytes-ok : (bs packed : Bytes) → pack_bytes bs ≡ ok packed → packed ≡ bs
pack_bytes-ok bs packed h = ground arith

-- The code that is expected, where it can be made.
expected_code-Proves :
    (pk : Packages) (s : Server) (message : Bytes)
    → (expected_code pk s).0 ≡ ok (drop 8 message)
    → Proves pk s.handshake message
unfolding expected_code pure
expected_code-Proves pk s message h =
    let (rc, e1, h1) = part-returns (λ t. t.rc) _ s (drop 8 message) h in
    let (client, e2, h2) = part-returns (λ t. t.clientsessionid) _ s (drop 8 message) h1 in
    let (rolem, e3, h3) = part-returns (λ t. t.rolem) _ s (drop 8 message) h2 in
    let (username, e4, h4) = part-returns (λ t. t.username) _ s (drop 8 message) h3 in
    let (role, e5, h5) =
      lift-returns (pack_bytes (rolem ∷ length username ∷ [])) _ s (drop 8 message) h4 in
    let (kuid, e6, h6) = part-returns (λ t. t.kuid) _ s (drop 8 message) h5 in
    let same = pack_bytes-ok (rolem ∷ length username ∷ []) role e5 in
    let code = ap (λ (t : Bytes). pk.hmac_sha1 kuid (rc ++ client ++ t ++ username)) same in
    (kuid, rc, client, rolem, username, e6, e1, e2, e3, e4, sym code ∙ ok-injective h6)

module _ (h0 : Handshake) where
  -- The handshake has the fields that it had.
  abbrev Kept : Server → Type 0
  Kept s = Same h0 s.handshake

  Kept-modify : (f : Server → Server) → ((s : Server) → Kept s → Kept (f s)) → Keeps Kept (modify f)
  unfolding modify
  Kept-modify f k = record { after = k }

  Kept-put : (t : FakeSession) → Keeps Kept (put_session t)
  unfolding put_session
  Kept-put t = Kept-modify _ λ s k. k

  Kept-update_session : (f : FakeSession → FakeSession) → Keeps Kept (update_session f)
  unfolding update_session self_session
  Kept-update_session f = search (keeps_rules, Kept-put)

  Kept-make_keys : (pk : Packages) → Keeps Kept (make_keys pk)
  unfolding make_keys
  Kept-make_keys pk = search (keeps_rules, Kept-modify, Kept-update_session) depth 60

  Kept-expected_code : (pk : Packages) → Keeps Kept (expected_code pk)
  unfolding expected_code
  Kept-expected_code pk = search keeps_rules depth 60

TakesNone-make_keys : (pk : Packages) → Keeps (On Any Silent) (make_keys pk)
unfolding make_keys
TakesNone-make_keys pk = search On_rules depth 60

TakesNone-expected_code : (pk : Packages) → Keeps (On Any Silent) (expected_code pk)
unfolding expected_code
TakesNone-expected_code pk = search On_rules depth 60

Proves-Same :
    (pk : Packages) (h g : Handshake) (message : Bytes)
    → Same h g
    → Proves pk g message
    → Proves pk h message
Proves-Same pk h g message (e1, e2, e3, e4, e5)
      (kuid, rc, client, rolem, username, f1, f2, f3, f4, f5, code) =
    (
      kuid,
      rc,
      client,
      rolem,
      username,
      sym e1 ∙ f1,
      sym e2 ∙ f2,
      sym e3 ∙ f3,
      sym e4 ∙ f4,
      sym e5 ∙ f5,
      code,
    )

-- Message 3 opens the session only if it carries the code: the message proves the knowledge of the
-- password, or the session takes no commands after it.
pub got_rakp3-Proves :
    (pk : Packages) (draws : Draws) (message : Bytes) (s : Server)
    → TakesNone s
    → Proves pk s.handshake message ⊎ TakesNone (got_rakp3 pk draws message s).1
unfolding got_rakp3 ◌>>=◌
got_rakp3-Proves pk draws message s closed =
    keyed (make_keys pk s).0 (make_keys pk s).1 ((Kept-make_keys s.handshake pk).after s same)
      ((TakesNone-make_keys pk).after s here).session
  where
    same : Same s.handshake s.handshake
    same = (refl, refl, refl, refl, refl)

    here : On Any Silent s
    here = record { server = tt; session = closed }

    body : Bytes → Exec Server (Unit {0})
    body expected =
        if bytes_eq expected (drop 8 message)
        then (do
          clienttag ← lift (at message 0)
          status ← lift (at message 1)
          if status == 0 then open_session pk draws clienttag else close_server_session)
        else close_server_session

    coded :
        (r : Result Bytes) (t u : Server)
        → (expected_code pk t).0 ≡ r
        → Same s.handshake t.handshake
        → TakesNone u
        → Proves pk s.handshake message ⊎ TakesNone (resume body (r, u)).1
    coded (err e) t u q k silent = inr silent
    coded (ok expected) t u q k silent = elim (Bool-cases (bytes_eq expected (drop 8 message))) [
      | inl fits ↦
          let e = (bytes_eq_iff expected (drop 8 message)).0 fits in
          inl (
            Proves-Same pk s.handshake t.handshake message k
              (expected_code-Proves pk t message (q ∙ ap ok e)))
      | inr other ↦ inr (
          rw other
            ((On-close {P = Any} {G = Silent}).after u
              (record { server = tt; session = silent })).session)
    ]

    keyed :
        (r : Result (Unit {0})) (t : Server)
        → Same s.handshake t.handshake
        → TakesNone t
        → Proves pk s.handshake message
          ⊎ TakesNone (resume (λ _. expected_code pk >>= body) (r, t)).1
    keyed (err e) t k silent = inr silent
    keyed (ok _) t k silent =
        coded (expected_code pk t).0 t (expected_code pk t).1 refl k
          ((TakesNone-expected_code pk).after t (record { server = tt; session = silent })).session
