-- ===== src/Kamstrup/Management/Effects/Valid.antt =====
-- Requests and the databus: what they write, what they leave alone, and what stays valid.
use mathlib.Core.Path.{subst}
use conpot.Prelude.{
  Bool, true, false, ◌&&◌, ◌≡◌, refl, sym, ◌∙◌, Option, none, some, [], ◌∷◌, arith, ◌++◌, drop,
  length, ltb, ◌==◌, Bool-cases, inl, inr, bytes_eq, bytes_eq_iff, if◌then◌else◌, list_eq,
}
use conpot.Prelude.Bytes.{Bytes, codes}
use conpot.Prelude.Dict
use conpot.Prelude.Dict.{Dict}
use conpot.Prelude.Exec.{pure}
use conpot.Prelude.Text.{starts_with, split_once, strip, upper}
use conpot.Core.Databus.{Value, plain, Databus, get_real_key}
use conpot.Core.Databus.Access.{set_value-entries}
use conpot.Kamstrup.Management.{Object, text, number, object_has_eq, World, Method, set}
use conpot.Kamstrup.Management.Commands.{Command, ac, rr}
use conpot.Kamstrup.Management.Responder.{dispatch, respond, respond_to}
use conpot.Kamstrup.Management.Effects.{
  Kind, short_text, port, port_or_text, allows, table, permits, may_write, Effect, nothing, write,
}
use conpot.Kamstrup.Management.Effects.Others.{run_command-Effect}

-- The keys that only values of one kind belong under.
abbrev pub required : Dict Bytes Kind
required =
    (codes "device_name", short_text)
    ∷ (codes "alarm_server_port", port_or_text)
    ∷ (codes "kap_a_server_port", port_or_text)
    ∷ (codes "channel_a_port", port_or_text)
    ∷ (codes "channel_b_port", port_or_text)
    ∷ []

abbrev pub suits : Dict Bytes Kind → Bytes → Value Object → Bool
suits [] k v = true
suits ((key, kind) ∷ rest) k v = if bytes_eq key k then allows kind v else suits rest k v

-- The device name has 20 bytes at most, and the ports are from 1 to 65535, as numbers or as texts.
abbrev pub IsValid : Databus Object → Type 0
IsValid db =
    (j : Bytes) (v : Value Object) → Dict.get j db.entries ≡ some v → suits required j v ≡ true

set-entries :
    (w : World) (k j : Bytes) (v : Value Object) (db : Databus Object)
    → Dict.get j (set w k v db).1.entries
      ≡ (if bytes_eq (get_real_key k) j then some v else Dict.get j db.entries)
unfolding set
set-entries w k j v db = set_value-entries w.run w.object k v false 0 j db

covers : Kind → Kind → Bool
covers short_text short_text = true
covers port_or_text port = true
covers _ _ = false

covers_lem :
    (a b : Kind) (v : Value Object) → covers a b ≡ true → allows b v ≡ true → allows a v ≡ true
unfolding covers
covers_lem short_text short_text v h allowed = allowed
covers_lem port_or_text port (plain (number n)) h allowed = allowed
covers_lem port_or_text port (plain (text t)) h allowed = cc
covers_lem port_or_text port _ h allowed = cc
covers_lem _ _ v h allowed = cc

-- An entry of a command's table against the required kinds.
suits_kind : Dict Bytes Kind → Bytes → Kind → Bool
unfolding covers
suits_kind [] key kind = true
suits_kind ((k, a) ∷ rest) key kind =
    if bytes_eq k key then covers a kind else suits_kind rest key kind

suits_kind_lem :
    (t : Dict Bytes Kind) (key : Bytes) (kind : Kind) (v : Value Object)
    → suits_kind t key kind ≡ true
    → allows kind v ≡ true
    → suits t key v ≡ true
unfolding suits_kind
suits_kind_lem [] key kind v h allowed = refl
suits_kind_lem ((k, a) ∷ rest) key kind v h allowed =
    ground (arith, covers_lem a kind v, suits_kind_lem rest key kind v)

all_suit : Dict Bytes Kind → Bool
unfolding suits_kind
all_suit [] = true
all_suit ((key, kind) ∷ rest) =
    (bytes_eq (get_real_key key) key && suits_kind required key kind) && all_suit rest

entry_lem :
    (key : Bytes) (kind : Kind) (v : Value Object) (rest : Bool)
    → ((bytes_eq (get_real_key key) key && suits_kind required key kind) && rest) ≡ true
    → allows kind v ≡ true
    → (get_real_key key ≡ key) × (suits required key v ≡ true)
entry_lem key kind v rest h allowed = (
  (bytes_eq_iff (get_real_key key) key).0 (ground arith),
  suits_kind_lem required key kind v (ground arith) allowed,
)

and_right : (a b : Bool) → (a && b) ≡ true → b ≡ true
and_right a b h = ground arith

-- What a table permits stands under the key as it is written, and suits.
permits_lem :
    (t : Dict Bytes Kind) (k : Bytes) (v : Value Object)
    → all_suit t ≡ true
    → permits t k v ≡ true
    → (get_real_key k ≡ k) × (suits required k v ≡ true)
unfolding all_suit
permits_lem [] k v h allowed = cc
permits_lem ((key, kind) ∷ rest) k v h allowed = elim (Bool-cases (bytes_eq key k)) [
  | inl same ↦
      subst (λ (t : Bytes). (get_real_key t ≡ t) × (suits required t v ≡ true))
        ((bytes_eq_iff key k).0 same) (entry_lem key kind v (all_suit rest) h (ground arith))
  | inr other ↦ permits_lem rest k v (and_right _ (all_suit rest) h) (ground arith)
]

starts_with_lem : (s p : Bytes) → starts_with s p ≡ true → s ≡ p ++ drop (length p) s
unfolding starts_with
starts_with_lem s [] h = refl
starts_with_lem [] (c ∷ p) h = cc
starts_with_lem (x ∷ s) (c ∷ p) h = ground (arith, starts_with_lem s p)

may_write_lem :
    (c : Command) (k : Bytes) (v : Value Object)
    → may_write c k v ≡ true
    → (get_real_key k ≡ k) × (suits required k v ≡ true)
unfolding all_suit get_real_key
may_write_lem ac k v h =
    rw (starts_with_lem k (codes "access_control_") (ground arith)) (refl, refl)
may_write_lem c k v h = permits_lem (table c) k v refl h

written :
    (w : World) (c : Command) (k j : Bytes) (v : Value Object) (db : Databus Object)
    → may_write c k v ≡ true
    → Dict.get j (set w k v db).1.entries ≡ (if bytes_eq k j then some v else Dict.get j db.entries)
written w c k j v db allowed =
    subst
      (λ (t : Bytes).
        Dict.get j (set w k v db).1.entries
        ≡ (if bytes_eq t j then some v else Dict.get j db.entries))
      (may_write_lem c k v allowed).0 (set-entries w k j v db)

suits_moved :
    (k j : Bytes) (v u : Value Object)
    → k ≡ j
    → some v ≡ some u
    → suits required k v ≡ true
    → suits required j u ≡ true
suits_moved k j v u e f suit =
    let v≡u : v ≡ u = (cc) in
    subst (λ (t : Bytes). suits required t u ≡ true) e
      (subst (λ (x : Value Object). suits required k x ≡ true) v≡u suit)

-- A permitted write keeps a valid databus valid.
set-IsValid :
    (w : World) (c : Command) (k : Bytes) (v : Value Object) (db : Databus Object)
    → may_write c k v ≡ true
    → IsValid db
    → IsValid (set w k v db).1
set-IsValid w c k v db allowed valid j u found =
    let now = sym (written w c k j v db allowed) ∙ found in
    elim (Bool-cases (bytes_eq k j)) [
      | inl same ↦
          suits_moved k j v u ((bytes_eq_iff k j).0 same) (rw same at now)
            (may_write_lem c k v allowed).1
      | inr other ↦ valid j u (rw other at now)
    ]

Effect-IsValid :
    {w : World} {c : Command} {start db : Databus Object}
    → IsValid start
    → Effect w c start db
    → IsValid db
Effect-IsValid valid nothing = valid
Effect-IsValid {w} {c} valid (write {db} k v e allowed) =
    set-IsValid w c k v db allowed (Effect-IsValid valid e)

-- The databus after a request, by the command that the request stands for.
abbrev pub Answered : World → Databus Object → Databus Object → Type 0
Answered w before after = (c : Command) × Effect w c before after

Answered-if :
    (w : World) (test : Bool) (m n : Method (Option Bytes)) (db : Databus Object)
    → Answered w db (m db).1
    → Answered w db (n db).1
    → Answered w db ((if test then m else n) db).1
Answered-if w true m n db a b = a
Answered-if w false m n db a b = b

Answered-pure : (w : World) (r : Option Bytes) (db : Databus Object) → Answered w db (pure r db).1
unfolding pure
Answered-pure w r db = (rr, nothing)

dispatch-Effect :
    (w : World) (found : Option Command) (params : Option Bytes) (db : Databus Object)
    → Answered w db (dispatch w found params db).1
unfolding dispatch
dispatch-Effect w none params db = Answered-pure w _ db
dispatch-Effect w (some c) params db = (c, (run_command-Effect c params).after db nothing)

respond_to-Effect :
    (w : World) (command : Bytes) (params : Option Bytes) (db : Databus Object)
    → Answered w db (respond_to w command params db).1
unfolding respond_to
respond_to-Effect w command params db =
    Answered-if w (ltb 3 (length command)) _ _ db (Answered-pure w _ db) (
      Answered-if w (starts_with command (codes "Q")) _ _ db (Answered-pure w _ db) (
        Answered-if w (starts_with command (codes "H")) _ _ db (Answered-pure w _ db) (
          Answered-if w (starts_with command (codes "!")) _ _ db (dispatch-Effect w _ params db)
            (Answered-pure w _ db))))

-- Whatever the request and whether it raises, what it does to the databus is a sequence of writes that
-- the table of one command permits.
pub respond-Effect :
    (w : World) (request : Bytes) (db : Databus Object)
    → (c : Command) × Effect w c db (respond w request db).1
unfolding respond
respond-Effect w request db =
    let (first, params) = split_once b' ' (strip request) in
    Answered-if w (length (strip request) == 0) _ _ db (Answered-pure w _ db)
      (respond_to-Effect w (upper first) params db)

-- No request, answered or raising, leaves an invalid databus where it was valid.
pub respond-IsValid :
    (w : World) (request : Bytes) (db : Databus Object)
    → IsValid db
    → IsValid (respond w request db).1
respond-IsValid w request db valid =
    let (c, e) = respond-Effect w request db in Effect-IsValid valid e
