-- ===== src/Core/Databus.antt =====
-- databus.py: values by key, with observers. Objects are values of a type `V` with a test of
-- equality; a stored item is a plain object, a list of objects, or something that is asked for its
-- value, by identity. What such an item answers now is the parameter `call`, and what an observer's
-- callback does is the parameter `run`. Tasks that gevent spawns are kept in order.
pub mod Access
pub mod Notify
use conpot.Prelude.{
  ℕ, zero, suc, ◌+◌, Bool, true, false, not, ◌&&◌, ◌||◌, Option, none, some, List, [], ◌∷◌, ◌++◌,
  length, get_elem?, leb, ltb, Eq, ◌==◌, bytes_eq, if◌then◌else◌, nat_eq, list_eq,
}
use conpot.Prelude.Bytes.{
  Bytes, codes, Exc, Result, ok, err, assertion_error, key_error, type_error, exception, guard,
  ◌>>=◌, ◌>>◌,
}
use conpot.Prelude.Dict.{Dict, get, has, put}

pub data Value (V : Type 0) : Type 0 where
  plain : V → Value V
  items : List V → Value V
  -- an object with a method `get_value`, and one that can be called
  sensor function : ℕ → Value V

-- A spawned `notify_observers(key, value, delay=delay)`.
pub record Task (V : Type 0) : Type 0 where
  pub key : Bytes
  pub value : Value V
  pub delay : ℕ

pub record Databus (V : Type 0) : Type 0 where
  pub entries : Dict Bytes (Value V)
  pub future : Dict Bytes (Value V)
  pub observer_map : Dict Bytes (List ℕ)
  pub client : Bool
  pub initialized : Bool
  -- the points that are written to the history, and the spawned notifications
  pub history : List (Bytes × Value V)
  pub tasks : List (Task V)

abbrev pub new : {V : Type 0} → Databus V
new = record {
  entries = [];
  future = [];
  observer_map = [];
  client = false;
  initialized = false;
  history = [];
  tasks = [];
}

-- `get_real_key`: without a leading "w " or "r ".
unfoldable pub get_real_key : Bytes → Bytes
get_real_key (a ∷ b ∷ rest) = if (a == b'w' || a == b'r') && b == b' ' then rest else a ∷ b ∷ rest
get_real_key key = key

-- An index argument: a negative one stands for none.
pub data Index : Type 0 where
  negative : Index
  at : ℕ → Index

abbrev pub set {ℓ} : {A : Type ℓ} → List A → ℕ → A → List A
set [] i v = []
set (x ∷ xs) zero v = v ∷ xs
set (x ∷ xs) (suc i) v = x ∷ set xs i v

-- What the store step does: it goes on with a changed databus, returns early, or raises.
pub data Stored (V : Type 0) : Type 0 where
  stored : Databus V → Stored V
  unchanged : Stored V
  failed : Exc → Stored V

-- How `set_value` ends: with the observers' results, with `None`, or with an exception.
pub data Outcome (R : Type 0) : Type 0 where
  results : List R → Outcome R
  no_result : Outcome R
  raised : Exc → Outcome R

module _ {V : Type 0} ⦃e : Eq V⦄ where
  abbrev pub items_eq : List V → List V → Bool
  items_eq [] [] = true
  items_eq (x ∷ xs) (y ∷ ys) = e.beq x y && items_eq xs ys
  items_eq _ _ = false

  -- `==` on items; objects that are asked for their value are compared by identity.
  abbrev pub value_eq : Value V → Value V → Bool
  value_eq (plain x) (plain y) = e.beq x y
  value_eq (items xs) (items ys) = items_eq xs ys
  value_eq (sensor i) (sensor j) = i == j
  value_eq (function i) (function j) = i == j
  value_eq _ _ = false

  -- `real_key in self._data and self._data[real_key] == value`
  abbrev pub is_stored : Bytes → Value V → Databus V → Bool
  is_stored real_key value db = elim (get real_key db.entries) [
    | none ↦ false
    | some old ↦ value_eq old value
  ]

  -- The history: all keys but one, and a list of one object as that object.
  unfoldable pub write_history : Bytes → Value V → Databus V → Databus V
  write_history real_key value db =
      let field : Value V = elim value [ items (x ∷ []) ↦ plain x | other ↦ other ] in
      if bytes_eq real_key (codes "ns=1;s=Flowmeter.Values") || not db.client
      then db
      else record db { history = db.history ++ (real_key, field) ∷ [] }

  -- A write at an index of a list. `object` is a value as it stands in a list. Texts, which can be
  -- indexed but not written to, are left out.
  unfoldable pub store_at : (Value V → V) → Bytes → Value V → ℕ → Bool → Databus V → Stored V
  store_at object real_key value index forced db = elim (get real_key db.entries) [
    | none ↦ failed key_error
    | some (items xs) ↦ elim (get_elem? xs index) [
      | none ↦ unchanged
      | some old_value ↦
          if not forced && e.beq old_value (object value)
          then unchanged
          else stored (record db {
            entries = put real_key (items (set xs index (object value))) db.entries;
          })
    ]
    | some _ ↦ failed type_error
  ]

  unfoldable pub store : (Value V → V) → Bytes → Value V → Index → Bool → Databus V → Stored V
  unfolding store_at
  store object real_key value negative forced db =
      stored (record db { entries = put real_key value db.entries })
  store object real_key value (at index) forced db = store_at object real_key value index forced db

  module _ {R : Type 0} (run : ℕ → Bytes → Databus V → R × Databus V) where
    -- The loop over the observers, with their results in order. A callback that registers another
    -- observer of the same key while it runs is not followed.
    unfoldable pub run_callbacks : List ℕ → Bytes → Databus V → List R × Databus V
    run_callbacks [] key db = ([], db)
    run_callbacks (cb ∷ cbs) key db =
        let (r, db') = run cb key db in let (rs, db'') = run_callbacks cbs key db' in (r ∷ rs, db'')

    -- `if key in self._observer_map`: the key here is the one that was passed, with its prefix.
    unfoldable pub announce : Bytes → Value V → Bool → ℕ → Databus V → Outcome R × Databus V
    unfolding run_callbacks
    announce key value sync delay db = elim (get key db.observer_map) [
      | none ↦ (no_result, db)
      | some cbs ↦
          if sync then (let (rs, db') = run_callbacks cbs key db in (results rs, db')) else (
            no_result,
            record db {
              tasks = db.tasks ++ (record { key = key; value = value; delay = delay }) ∷ [];
            },
          )
    ]

    unfoldable pub set_value :
        (Value V → V)
        → Bytes
        → Option (Value V)
        → Index
        → (sync forced : Bool) → (delay : ℕ) → Databus V
        → Outcome R × Databus V
    unfolding store announce write_history get_real_key
    set_value object key none index sync forced delay db = (no_result, db)
    set_value object key (some value) index sync forced delay db =
        let real_key = get_real_key key in
        if not forced && is_stored real_key value db
        then (no_result, db)
        else elim (store object real_key value index forced db) [
          | failed x ↦ (raised x, db)
          | unchanged ↦ (no_result, db)
          | stored db' ↦ announce key value sync delay (write_history real_key value db')
        ]

    -- The loop of `notify_observers` over the observers of the key: without any it raises.
    unfoldable pub notify_callbacks : Bytes → Databus V → Result (Unit {0}) × Databus V
    unfolding run_callbacks
    notify_callbacks key db = elim (get key db.observer_map) [
      | none ↦ (err key_error, db)
      | some cbs ↦ (ok tt, (run_callbacks cbs key db).1)
    ]

    -- A spawned notification up to its sleep, and, for one with a delay, from its end on.
    unfoldable pub notify_begin : Task V → Databus V → Result (Unit {0}) × Databus V
    unfolding notify_callbacks get_real_key
    notify_begin t db =
        if ltb 0 t.delay
        then (ok tt, record db { future = put (get_real_key t.key) t.value db.future })
        else notify_callbacks t.key db

    unfoldable pub notify_wake : Task V → Databus V → Result (Unit {0}) × Databus V
    unfolding notify_callbacks get_real_key
    notify_wake t db = elim (get (get_real_key t.key) db.future) [
      | none ↦ (err key_error, db)
      | some value ↦
          notify_callbacks t.key (record db { entries = put (get_real_key t.key) value db.entries })
    ]

  module _ (call : ℕ → Value V) where
    abbrev pub answer : Value V → Value V
    answer (sensor i) = call i
    answer (function i) = call i
    answer v = v

    unfoldable pub get_value : Bytes → Databus V → Result (Value V)
    unfolding get_real_key
    get_value key db = elim (get (get_real_key key) db.entries) [
      | none ↦ err assertion_error
      | some item ↦ ok (answer item)
    ]

  -- `observe_value`; the checks of the callback's signature are left out.
  unfoldable pub observe_value : Bytes → ℕ → Databus V → Databus V
  observe_value key callback db = elim (get key db.observer_map) [
    | none ↦ record db { observer_map = put key (callback ∷ []) db.observer_map }
    | some cbs ↦ record db { observer_map = put key (cbs ++ callback ∷ []) db.observer_map }
  ]

  -- `reset`; the items' own `stop` is left out. Neither `_future` nor the client is reset.
  unfoldable pub reset : Databus V → Databus V
  reset db = record db { entries = []; observer_map = []; initialized = false }
