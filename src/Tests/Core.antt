-- ===== src/Tests/Core.antt =====
-- conpot/core at concrete inputs.
use conpot.Prelude.{
  ℕ, ◌+◌, ◌-◌, ◌≤◌, ◌≡◌, refl, false, some, [], ◌∷◌, length, get_elem?, ◌==◌, bytes_eq,
  if◌then◌else◌, arith, nat_eq, list_eq,
}
use conpot.Prelude.Bytes.{Bytes, codes, ok, err, key_error}
use conpot.Prelude.Dict.{get, has}
use conpot.Core.Databus
use conpot.Core.Databus.{
  Value, plain, Databus, Task, negative, Outcome, results, no_result, get_real_key, answer,
  get_value, set_value, notify_begin, notify_wake,
}
use conpot.Core.Databus.Access.{get_value-set_value}
use conpot.Core.Databus.Notify.{notify_wake-latest}
use conpot.Core.Session.{
  AttackSession, SessionManager, create, get_session, dump_event, add_event, purge_sessions,
}
use conpot.Core.Session.Sessions.{IsDistinct, get_session-IsDistinct}
use conpot.Core.Session.Events.{add_event-keeps, add_event-purge_sessions}

abbrev db : Databus ℕ
db = record Databus.new {
  observer_map = (codes "w pump", 1 ∷ 2 ∷ []) ∷ [];
  entries = (codes "pump", plain 3) ∷ [];
}

-- An observer returns its own number and changes nothing.
abbrev run : ℕ → Bytes → Databus ℕ → ℕ × Databus ℕ
run cb key d = (cb, d)

abbrev object : Value ℕ → ℕ
object (plain n) = n
object _ = 0

abbrev call : ℕ → Value ℕ
call i = plain i

get_value-set_value_example :
    get_value call
      (codes "r pump")
      (set_value run object (codes "w pump") (some (plain 4)) negative false false 0 db).1
    ≡ (if bytes_eq (get_real_key (codes "w pump")) (get_real_key (codes "r pump"))
        then ok (answer call (plain 4))
        else get_value call (codes "r pump") db)
get_value-set_value_example =
    get_value-set_value run object call (codes "w pump") (plain 4) false 0 (codes "r pump") db

abbrev first : Task ℕ
first = record { key = codes "w pump"; value = plain 5; delay = 2 }

abbrev second : Task ℕ
second = record { key = codes "pump"; value = plain 6; delay = 1 }

same_key : get_real_key second.key ≡ get_real_key first.key
unfolding get_real_key
same_key = refl

notify_wake-latest_example :
    ((notify_wake run first (notify_begin run second (notify_begin run first db).1).1).0
      ≡ (if has first.key db.observer_map then ok tt else err key_error))
    × (get
          (get_real_key first.key)
          (notify_wake run first
            (notify_begin run second (notify_begin run first db).1).1).1.entries
        ≡ some second.value)
notify_wake-latest_example =
    notify_wake-latest run (λ cb key d. refl) first second db (omega arith) (omega arith) same_key

get-observers : get (codes "w pump") db.observer_map ≡ some (1 ∷ 2 ∷ [])
unfolding get
get-observers = refl

abbrev session : AttackSession ℕ
session = record (create (codes "modbus") (codes "10.0.0.1") 4000 1 50 0) {
  events = (7, 1) ∷ (8, 2) ∷ [];
}

abbrev manager : SessionManager ℕ
manager = record { sessions = session ∷ []; log_queue = 0; queues = [] ∷ [] }

get_session-IsDistinct_example :
    IsDistinct (get_session (codes "modbus") (codes "10.0.0.2") 4001 2 60 manager).1.sessions
get_session-IsDistinct_example =
    get_session-IsDistinct (codes "modbus") (codes "10.0.0.2") 4001 2 60 manager (tt, tt)

add_event-keeps_example :
    (slot : ℕ) × (57 - session.timestamp ≤ slot)
    × (has slot session.events ≡ false)
    × (length (add_event 5 57 session manager.queues).0.events ≡ length session.events + 1)
    × (get 7 (add_event 5 57 session manager.queues).0.events
        ≡ (if slot == 7 then some 5 else get 7 session.events))
add_event-keeps_example = add_event-keeps 5 57 session manager.queues 7

add_event-purge_sessions_example :
    let p = purge_sessions manager in
    (get_elem? (add_event 5 57 session p.queues).1 p.log_queue ≡ some [])
    × (get_elem? (add_event 5 57 session p.queues).1 session.log_queue
        ≡ some (dump_event 5 session ∷ []))
add_event-purge_sessions_example = add_event-purge_sessions 5 57 session manager [] refl
