-- ===== src/Core/Session.antt =====
-- session_manager.py and attack_session.py. A queue is an object that a session and the manager
-- refer to, so the queues stand in a list, and a reference is an index into it. The identity of a
-- session and the time are arguments; the databus of a session is not modelled here.
pub mod Sessions
pub mod Events
use conpot.Prelude.{
  ℕ, zero, suc, ◌+◌, ◌-◌, Bool, true, false, ◌&&◌, Option, none, some, List, [], ◌∷◌, ◌++◌, length,
  ltb, ◌==◌, bytes_eq, if◌then◌else◌, nat_eq,
}
use conpot.Prelude.Bytes.{Bytes}
use conpot.Prelude.Dict.{Dict, has, put}

pub record AttackSession (E : Type 0) : Type 0 where
  pub id : ℕ
  pub protocol : Bytes
  pub source_ip : Bytes
  pub source_port : ℕ
  pub timestamp : ℕ
  pub log_queue : ℕ
  pub events : Dict ℕ E
  pub ended : Bool

-- `_dump_event`: what is put into the queue.
pub record Dump (E : Type 0) : Type 0 where
  pub id : ℕ
  pub remote : Bytes × ℕ
  pub data_type : Bytes
  pub timestamp : ℕ
  pub event : E

pub record SessionManager (E : Type 0) : Type 0 where
  pub sessions : List (AttackSession E)
  pub log_queue : ℕ
  pub queues : List (List (Dump E))

abbrev pub new : {E : Type 0} → SessionManager E
new = record { sessions = []; log_queue = 0; queues = [] ∷ [] }

-- `AttackSession(protocol, source_ip, source_port, …)`
abbrev pub create :
    {E : Type 0}
    → (protocol source_ip : Bytes) (source_port uuid now log_queue : ℕ) → AttackSession E
create protocol source_ip source_port uuid now log_queue = record {
  id = uuid;
  protocol = protocol;
  source_ip = source_ip;
  source_port = source_port;
  timestamp = now;
  log_queue = log_queue;
  events = [];
  ended = false;
}

-- The two nested tests of `_find_sessions`.
abbrev pub is_for : {E : Type 0} → Bytes → Bytes → AttackSession E → Bool
is_for protocol source_ip s = bytes_eq s.protocol protocol && bytes_eq s.source_ip source_ip

module _ {E : Type 0} where
  unfoldable pub find_sessions : Bytes → Bytes → List (AttackSession E) → Option (AttackSession E)
  find_sessions protocol source_ip [] = none
  find_sessions protocol source_ip (s ∷ sessions) =
      if is_for protocol source_ip s then some s else find_sessions protocol source_ip sessions

  -- `get_session`, with the new session's identity and time.
  unfoldable pub get_session :
      (protocol source_ip : Bytes) (source_port uuid now : ℕ)
      → SessionManager E
      → AttackSession E × SessionManager E
  unfolding find_sessions
  get_session protocol source_ip source_port uuid now m =
      elim (find_sessions protocol source_ip m.sessions) [
        | some s ↦ (s, m)
        | none ↦
            let s = create protocol source_ip source_port uuid now m.log_queue in
            (s, record m { sessions = m.sessions ++ s ∷ [] })
      ]

  unfoldable pub count_protocol : Bytes → List (AttackSession E) → ℕ
  count_protocol protocol [] = 0
  count_protocol protocol (s ∷ sessions) =
      (if bytes_eq s.protocol protocol then 1 else 0) + count_protocol protocol sessions

  -- `get_session_count`; the empty text is no protocol.
  unfoldable pub get_session_count : Bytes → SessionManager E → ℕ
  unfolding count_protocol
  get_session_count [] m = length m.sessions
  get_session_count (b ∷ protocol) m = count_protocol (b ∷ protocol) m.sessions

  -- `purge_sessions`: the manager gets a new queue.
  unfoldable pub purge_sessions : SessionManager E → SessionManager E
  purge_sessions m = record m { log_queue = length m.queues; queues = m.queues ++ [] ∷ [] }

  -- `queue.put(x)` by reference.
  unfoldable pub put_on : List (List (Dump E)) → ℕ → Dump E → List (List (Dump E))
  put_on [] i x = []
  put_on (q ∷ qs) zero x = (q ++ x ∷ []) ∷ qs
  put_on (q ∷ qs) (suc i) x = q ∷ put_on qs i x

  -- `while elapse_ms in self.data: elapse_ms += 1`
  unfoldable pub free_slot : ℕ → ℕ → Dict ℕ E → ℕ
  free_slot zero elapse_ms events = elapse_ms
  free_slot (suc fuel) elapse_ms events =
      let rest = free_slot fuel (elapse_ms + 1) events in
      if has elapse_ms events then rest else elapse_ms

  -- One more than the largest key: so many rounds pass every key.
  unfoldable pub key_bound : Dict ℕ E → ℕ
  key_bound [] = 0
  key_bound ((k, v) ∷ events) = let rest = key_bound events in if ltb k rest then rest else suc k

  unfoldable pub dump_event : E → AttackSession E → Dump E
  dump_event event s = record {
    id = s.id;
    remote = (s.source_ip, s.source_port);
    data_type = s.protocol;
    timestamp = s.timestamp;
    event = event;
  }

  -- `add_event` at the time `now`, which is not before the start of the session: a clock that is set back
  -- would give a negative key. Times are in milliseconds, on the session and the queues.
  unfoldable pub add_event :
      E
      → (now : ℕ) → AttackSession E
      → List (List (Dump E))
      → AttackSession E × List (List (Dump E))
  unfolding free_slot dump_event put_on
  add_event event now s queues =
      let slot = free_slot (key_bound s.events) (now - s.timestamp) s.events in
      (
        record s { events = put slot event s.events },
        put_on queues s.log_queue (dump_event event s),
      )

  unfoldable pub set_ended : AttackSession E → AttackSession E
  set_ended s = record s { ended = true }
