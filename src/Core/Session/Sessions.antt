-- ===== src/Core/Session/Sessions.antt =====
-- One session for each protocol and address.
use conpot.Prelude.{
  ℕ, ◌≡◌, inl, inr, true, false, none, some, Option-cases, List, [], ◌∷◌, ◌++◌, arith, bytes_eq_iff,
  list_eq,
}
use conpot.Prelude.Bytes.{Bytes}
use conpot.Prelude.Dict.{beq_refl}
use conpot.Core.Session.{AttackSession, SessionManager, create, is_for, find_sessions, get_session}

module _ {E : Type 0} where
  -- No session of the list is for the same protocol and address.
  abbrev pub NoneFor : Bytes → Bytes → List (AttackSession E) → Type 0
  NoneFor protocol source_ip [] = Unit
  NoneFor protocol source_ip (s ∷ sessions) =
      (is_for protocol source_ip s ≡ false) × NoneFor protocol source_ip sessions

  -- Of two sessions of the list, no two are for the same protocol and address.
  abbrev pub IsDistinct : List (AttackSession E) → Type 0
  IsDistinct [] = Unit
  IsDistinct (s ∷ sessions) = NoneFor s.protocol s.source_ip sessions × IsDistinct sessions

  find_sessions-NoneFor :
      (protocol source_ip : Bytes) (sessions : List (AttackSession E))
      → find_sessions protocol source_ip sessions ≡ none
      → NoneFor protocol source_ip sessions
  unfolding find_sessions
  find_sessions-NoneFor protocol source_ip [] h = tt
  find_sessions-NoneFor protocol source_ip (s ∷ sessions) h =
      ground (arith, find_sessions-NoneFor protocol source_ip sessions)

  find_sessions-append :
      (protocol source_ip : Bytes) (sessions : List (AttackSession E)) (s : AttackSession E)
      → find_sessions protocol source_ip sessions ≡ none
      → is_for protocol source_ip s ≡ true
      → find_sessions protocol source_ip (sessions ++ s ∷ []) ≡ some s
  unfolding find_sessions
  find_sessions-append protocol source_ip [] s h k = rw k
  find_sessions-append protocol source_ip (t ∷ sessions) s h k =
      ground (arith, find_sessions-append protocol source_ip sessions s)

  NoneFor-append :
      (p a : Bytes) (sessions : List (AttackSession E)) (s : AttackSession E)
      → NoneFor p a sessions
      → is_for p a s ≡ false
      → NoneFor p a (sessions ++ s ∷ [])
  NoneFor-append p a [] s n h = (h, tt)
  NoneFor-append p a (t ∷ sessions) s n h = (n.0, NoneFor-append p a sessions s n.1 h)

  is_for_symm :
      (s t : AttackSession E)
      → is_for s.protocol s.source_ip t ≡ false
      → is_for t.protocol t.source_ip s ≡ false
  is_for_symm s t h = ground (
    arith,
    bytes_eq_iff t.protocol s.protocol,
    bytes_eq_iff s.protocol t.protocol,
    bytes_eq_iff t.source_ip s.source_ip,
    bytes_eq_iff s.source_ip t.source_ip,
  )

  IsDistinct-append :
      (sessions : List (AttackSession E)) (s : AttackSession E)
      → IsDistinct sessions
      → NoneFor s.protocol s.source_ip sessions
      → IsDistinct (sessions ++ s ∷ [])
  IsDistinct-append [] s d n = (tt, tt)
  IsDistinct-append (t ∷ sessions) s d n = (
    NoneFor-append t.protocol t.source_ip sessions s d.0 (is_for_symm s t n.0),
    IsDistinct-append sessions s d.1 n.1,
  )

  get_session-missing :
      (protocol source_ip : Bytes) (source_port uuid now : ℕ) (m : SessionManager E)
      → find_sessions protocol source_ip m.sessions ≡ none
      → get_session protocol source_ip source_port uuid now m ≡ (
        create protocol source_ip source_port uuid now m.log_queue,
        record m {
          sessions = m.sessions ++ create protocol source_ip source_port uuid now m.log_queue ∷ [];
        },
      )
  unfolding get_session
  get_session-missing protocol source_ip source_port uuid now m h = rw (h, get_session)

  get_session-found :
      (protocol source_ip : Bytes) (source_port uuid now : ℕ) (m : SessionManager E)
      (s : AttackSession E)
      → find_sessions protocol source_ip m.sessions ≡ some s
      → get_session protocol source_ip source_port uuid now m ≡ (s, m)
  unfolding get_session
  get_session-found protocol source_ip source_port uuid now m s h = rw (h, get_session)

  module _ (protocol source_ip : Bytes) (source_port uuid now : ℕ) (m : SessionManager E) where
    -- Looking for a session keeps the sessions apart from one another.
    pub get_session-IsDistinct :
        IsDistinct m.sessions
        → IsDistinct (get_session protocol source_ip source_port uuid now m).1.sessions
    unfolding get_session
    get_session-IsDistinct d = elim (Option-cases (find_sessions protocol source_ip m.sessions)) [
      | inl missing ↦
          rw (missing, get_session)
            (IsDistinct-append m.sessions
              (create protocol source_ip source_port uuid now m.log_queue) d
              (find_sessions-NoneFor protocol source_ip m.sessions missing))
      | inr (s, found) ↦ rw (found, get_session) d
    ]

    -- A later request for the same protocol and address, from any port, gets the same session and
    -- changes nothing.
    get_session-get_session :
        (port uuid' later : ℕ)
        → get_session protocol source_ip port uuid' later
            (get_session protocol source_ip source_port uuid now m).1
          ≡ get_session protocol source_ip source_port uuid now m
    get_session-get_session port uuid' later =
        elim (Option-cases (find_sessions protocol source_ip m.sessions)) [
          | inl missing ↦
              let s = create protocol source_ip source_port uuid now m.log_queue in
              rw (get_session-missing protocol source_ip source_port uuid now m missing) (
                get_session-found protocol source_ip port uuid' later _ s (
                  find_sessions-append protocol source_ip m.sessions s missing
                    (rw (beq_refl protocol, beq_refl source_ip))))
          | inr (s, found) ↦
              rw (get_session-found protocol source_ip source_port uuid now m s found)
                (get_session-found protocol source_ip port uuid' later m s found)
        ]
