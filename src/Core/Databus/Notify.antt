-- ===== src/Core/Databus/Notify.antt =====
-- Notifications: those that a write waits for, and those that sleep first.
use conpot.Prelude.{
  ℕ, suc, ◌<◌, ◌≡◌, refl, ap, ◌∙◌, true, inl, inr, Option-cases, some, List, [], ◌∷◌, arith, length,
  ltb, Eq, list_eq, if◌then◌else◌,
}
use conpot.Prelude.Bytes.{Bytes, ok, err, key_error}
use conpot.Prelude.Dict.{get, has, put, get-put, has-get, has-none, beq_refl}
use conpot.Core.Databus.{
  Value, Databus, Task, get_real_key, negative, write_history, store, results, announce,
  run_callbacks, set_value, notify_callbacks, notify_begin, notify_wake,
}

module _ {V : Type 0} ⦃e : Eq V⦄ {R : Type 0} (run : ℕ → Bytes → Databus V → R × Databus V) where
  length-run_callbacks :
      (cbs : List ℕ) (key : Bytes) (db : Databus V)
      → length (run_callbacks run cbs key db).0 ≡ length cbs
  unfolding run_callbacks
  length-run_callbacks [] key db = refl
  length-run_callbacks (cb ∷ cbs) key db =
      let (r, db') = run cb key db in ap suc (length-run_callbacks cbs key db')

  write_history-observers :
      (k : Bytes) (v : Value V) (db : Databus V)
      → (write_history k v db).observer_map ≡ db.observer_map
  unfolding write_history
  write_history-observers k v db = ground arith

  announce-results :
      (key : Bytes) (v : Value V) (delay : ℕ) (db : Databus V) (cbs : List ℕ)
      → get key db.observer_map ≡ some cbs
      → (rs : List R) × ((announce run key v true delay db).0 ≡ results rs)
        × (length rs ≡ length cbs)
  unfolding announce
  announce-results key v delay db cbs h =
      ((run_callbacks run cbs key db).0, rw (h, announce), length-run_callbacks cbs key db)

  -- A forced write that waits returns one result for each observer of the key as it was passed.
  set_value-results :
      (object : Value V → V) (key : Bytes) (v : Value V) (delay : ℕ) (db : Databus V) (cbs : List ℕ)
      → get key db.observer_map ≡ some cbs
      → (rs : List R) × ((set_value run object key (some v) negative true true delay db).0
          ≡ results rs)
        × (length rs ≡ length cbs)
  unfolding set_value store
  set_value-results object key v delay db cbs h =
      announce-results key v delay
        (write_history (get_real_key key) v
          (record db { entries = put (get_real_key key) v db.entries }))
        cbs
        (ap (get key) (
            write_history-observers (get_real_key key) v
              (record db { entries = put (get_real_key key) v db.entries }))
          ∙ h)

  module _
      (reads : (cb : ℕ) (key : Bytes) (db : Databus V)
        → (run cb key db).1.entries ≡ db.entries) where
    run_callbacks-entries :
        (cbs : List ℕ) (key : Bytes) (db : Databus V)
        → (run_callbacks run cbs key db).1.entries ≡ db.entries
    unfolding run_callbacks
    run_callbacks-entries [] key db = refl
    run_callbacks-entries (cb ∷ cbs) key db =
        let (r, db') = run cb key db in run_callbacks-entries cbs key db' ∙ reads cb key db

    notify_callbacks-entries :
        (key : Bytes) (db : Databus V) → (notify_callbacks run key db).1.entries ≡ db.entries
    unfolding notify_callbacks
    notify_callbacks-entries key db = elim (Option-cases (get key db.observer_map)) [
      | inl missing ↦ rw (missing, notify_callbacks)
      | inr (cbs, found) ↦ rw (found, notify_callbacks) (run_callbacks-entries cbs key db)
    ]

    notify_callbacks-raises :
        (key : Bytes) (db : Databus V)
        → (notify_callbacks run key db).0
          ≡ (if has key db.observer_map then ok tt else err key_error)
    unfolding notify_callbacks
    notify_callbacks-raises key db = elim (Option-cases (get key db.observer_map)) [
      | inl missing ↦ rw (missing, notify_callbacks) (rw (has-none key db.observer_map missing))
      | inr (cbs, found) ↦ rw (found, notify_callbacks) (rw (has-get key cbs db.observer_map found))
    ]

    -- What is stored when a notification wakes is the value that waits for its key.
    notify_wake-future :
        (t : Task V) (value : Value V) (db : Databus V)
        → get (get_real_key t.key) db.future ≡ some value
        → ((notify_wake run t db).0 ≡ (if has t.key db.observer_map then ok tt else err key_error))
          × (get (get_real_key t.key) (notify_wake run t db).1.entries ≡ some value)
    unfolding notify_wake
    notify_wake-future t value db h =
        let stored : Databus V = record db {
          entries = put (get_real_key t.key) value db.entries;
        } in
        rw (h, notify_wake)
          (
            notify_callbacks-raises t.key stored,
            ap (get (get_real_key t.key)) (notify_callbacks-entries t.key stored)
                ∙ get-put (get_real_key t.key) (get_real_key t.key) value db.entries
                ∙ rw (beq_refl (get_real_key t.key)),
          )

    notify_begin-future :
        (t : Task V) (db : Databus V)
        → 0 < t.delay
        → (notify_begin run t db).1
          ≡ record db { future = put (get_real_key t.key) t.value db.future }
    unfolding notify_begin
    notify_begin-future t db h = let late : ltb 0 t.delay ≡ true = ground arith in rw late

    -- Of two delayed notifications of one key that sleep at the same time, the first to wake stores
    -- the value of the second, where callbacks store nothing themselves. It raises `KeyError` exactly
    -- if the key, as it was passed, has no observers any more, and has stored the value all the same.
    pub notify_wake-latest :
        (first second : Task V) (db : Databus V)
        → 0 < first.delay
        → 0 < second.delay
        → get_real_key second.key ≡ get_real_key first.key
        → ((notify_wake run first (notify_begin run second (notify_begin run first db).1).1).0
            ≡ (if has first.key db.observer_map then ok tt else err key_error))
          × (get
                (get_real_key first.key)
                (notify_wake run first
                  (notify_begin run second (notify_begin run first db).1).1).1.entries
              ≡ some second.value)
    notify_wake-latest first second db h k same =
        let k1 = get_real_key first.key in
        let waits : Databus V = record db { future = put k1 first.value db.future } in
        rw (notify_begin-future first db h, notify_begin-future second waits k)
          (notify_wake-future first second.value
            (record waits { future = put (get_real_key second.key) second.value waits.future })
            (get-put (get_real_key second.key) k1 second.value waits.future
              ∙ rw (same, beq_refl k1)))
