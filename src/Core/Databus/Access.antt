-- ===== src/Core/Databus/Access.antt =====
-- Reading the databus after writing to it.
use conpot.Prelude.{
  ℕ, ◌≡◌, refl, sym, ap, ◌∙◌, Bool, true, false, not, ◌&&◌, some, Option-cases, Bool-cases, inl,
  inr, List, [], ◌∷◌, arith, Eq, ==_refl, bytes_eq, bytes_eq_iff, if◌then◌else◌, list_eq,
}
use conpot.Prelude.Bytes.{Bytes, ok}
use conpot.Prelude.Dict.{get, get-put, beq_refl}
use conpot.Core.Databus.{
  Value, plain, items, sensor, function, Databus, get_real_key, negative, items_eq, value_eq,
  is_stored, write_history, store, no_result, announce, set_value, answer, get_value,
}

and_right : (a b : Bool) → (a && b) ≡ true → b ≡ true
and_right a b h = ground arith

module _ {V : Type 0} ⦃e : Eq V⦄ where
  items_eq→≡ : (xs ys : List V) → items_eq xs ys ≡ true → xs ≡ ys
  items_eq→≡ [] [] h = refl
  items_eq→≡ [] (y ∷ ys) h = cc
  items_eq→≡ (x ∷ xs) [] h = cc
  items_eq→≡ (x ∷ xs) (y ∷ ys) h = ground (arith, e.beq_iff x y, items_eq→≡ xs ys)

  value_eq→≡ : (a b : Value V) → value_eq a b ≡ true → a ≡ b
  value_eq→≡ (plain x) (plain y) h = ground (arith, e.beq_iff x y)
  value_eq→≡ (items xs) (items ys) h = ground (arith, items_eq→≡ xs ys)
  value_eq→≡ (sensor i) (sensor j) h = ground arith
  value_eq→≡ (function i) (function j) h = ground arith
  value_eq→≡ (plain x) (items ys) h = cc
  value_eq→≡ (plain x) (sensor j) h = cc
  value_eq→≡ (plain x) (function j) h = cc
  value_eq→≡ (items xs) (plain y) h = cc
  value_eq→≡ (items xs) (sensor j) h = cc
  value_eq→≡ (items xs) (function j) h = cc
  value_eq→≡ (sensor i) (plain y) h = cc
  value_eq→≡ (sensor i) (items ys) h = cc
  value_eq→≡ (sensor i) (function j) h = cc
  value_eq→≡ (function i) (plain y) h = cc
  value_eq→≡ (function i) (items ys) h = cc
  value_eq→≡ (function i) (sensor j) h = cc

  -- A value that is stored is what a look at its key finds.
  is_stored→get :
      (k : Bytes) (v : Value V) (db : Databus V)
      → is_stored k v db ≡ true
      → get k db.entries ≡ some v
  is_stored→get k v db h = elim (Option-cases (get k db.entries)) [
    | inl missing ↦ cc (rw (missing, is_stored) at h)
    | inr (old, found) ↦ found ∙ ap some (value_eq→≡ old v (rw (found, is_stored) at h))
  ]

  write_history-entries :
      (k : Bytes) (v : Value V) (db : Databus V) → (write_history k v db).entries ≡ db.entries
  unfolding write_history
  write_history-entries k v db = ground arith

  module _ {R : Type 0} (run : ℕ → Bytes → Databus V → R × Databus V) (object : Value V → V) where
    announce-entries :
        (key : Bytes) (v : Value V) (delay : ℕ) (db : Databus V)
        → (announce run key v false delay db).1.entries ≡ db.entries
    unfolding announce
    announce-entries key v delay db = ground arith

    pub set_value-entries :
        (key : Bytes) (v : Value V) (forced : Bool) (delay : ℕ) (j : Bytes) (db : Databus V)
        → get j (set_value run object key (some v) negative false forced delay db).1.entries
          ≡ (if bytes_eq (get_real_key key) j then some v else get j db.entries)
    unfolding set_value store
    set_value-entries key v forced delay j db =
        let k = get_real_key key in
        elim (Bool-cases (not forced && is_stored k v db)) [
          | inl same ↦ rw same (elim (Bool-cases (bytes_eq k j)) [
            | inl q ↦ rw q (
                ap (λ (t : Bytes). get t db.entries) (sym ((bytes_eq_iff k j).0 q))
                ∙ is_stored→get k v db (and_right (not forced) (is_stored k v db) same))
            | inr q ↦ rw q
          ])
          | inr new ↦
              rw new (rw announce-entries (rw write_history-entries (get-put k j v db.entries)))
        ]

    -- After a write without an index that does not wait for the observers (`sync` is False), its key
    -- reads as the written value, under any prefix, and every other key reads as before.
    pub get_value-set_value :
        (call : ℕ → Value V) (key : Bytes) (v : Value V) (forced : Bool) (delay : ℕ) (j : Bytes)
        (db : Databus V)
        → get_value call j (set_value run object key (some v) negative false forced delay db).1 ≡ (
            if bytes_eq (get_real_key key) (get_real_key j)
            then ok (answer call v)
            else get_value call j db)
    unfolding get_value
    get_value-set_value call key v forced delay j db =
        rw (set_value-entries key v forced delay (get_real_key j) db, get_value) (ground arith)

    items_eq_refl : (xs : List V) → items_eq xs xs ≡ true
    items_eq_refl [] = refl
    items_eq_refl (x ∷ xs) = ground (arith, e.beq_iff x x, items_eq_refl xs)

    value_eq_refl : (v : Value V) → value_eq v v ≡ true
    value_eq_refl (plain x) = (e.beq_iff x x).1 refl
    value_eq_refl (items xs) = items_eq_refl xs
    value_eq_refl (sensor i) = ==_refl i
    value_eq_refl (function i) = ==_refl i

    get→is_stored :
        (k : Bytes) (v : Value V) (db : Databus V)
        → get k db.entries ≡ some v
        → is_stored k v db ≡ true
    get→is_stored k v db h = rw (h, is_stored) (value_eq_refl v)

    set_value-stored :
        (key : Bytes) (v : Value V) (delay : ℕ) (sync : Bool) (db : Databus V)
        → get (get_real_key key) db.entries ≡ some v
        → set_value run object key (some v) negative sync false delay db ≡ (no_result, db)
    unfolding set_value
    set_value-stored key v delay sync db h = rw (get→is_stored (get_real_key key) v db h)

    -- The second of two equal writes that are not forced does nothing: it stores, records and
    -- announces nothing.
    set_value-set_value :
        (key : Bytes) (v : Value V) (delay : ℕ) (sync forced : Bool) (db : Databus V)
        → set_value run object key
            (some v)
            negative
            sync
            false
            delay
            (set_value run object key (some v) negative false forced delay db).1
          ≡ (no_result, (set_value run object key (some v) negative false forced delay db).1)
    set_value-set_value key v delay sync forced db =
        set_value-stored key v delay sync
          (set_value run object key (some v) negative false forced delay db).1
          (set_value-entries key v forced delay (get_real_key key) db
            ∙ rw (beq_refl (get_real_key key)))
