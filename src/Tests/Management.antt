-- ===== src/Tests/Management.antt =====
-- conpot/protocols/kamstrup/management_protocol at concrete inputs.
use conpot.Prelude.{
  ◌≡◌, ◌⊎◌, inl, inr, refl, true, false, some, [], ◌∷◌, Bool-cases, bytes_eq, bytes_eq_iff, list_eq,
}
use conpot.Prelude.Bytes.{Bytes, codes, ok, err, type_error}
use conpot.Prelude.Dict
use conpot.Prelude.Exec.{◌>>=◌}
use conpot.Kamstrup.Management.Commands.Servers.{set_ports}
use conpot.Kamstrup.Management
use conpot.Prelude.Text.{contains, split, join, int, strip, split_once, upper, starts_with}
use conpot.Core.Databus
use conpot.Core.Databus.{Value, plain, Databus, get_value}
use conpot.Kamstrup.Management.{Object, object_has_eq, text, number, World, set}
use conpot.Kamstrup.Management.Addresses.{no_address, parse_ip, parse_port}
use conpot.Kamstrup.Management.Addresses.Laws.{IsAddress, parse_ip-ok, parse_ip-no_dot}
use conpot.Kamstrup.Management.Commands.{Command}
use conpot.Kamstrup.Management.Responder.{respond}
use conpot.Kamstrup.Management.Effects.{Effect}
use conpot.Kamstrup.Management.Effects.Valid.{IsValid, required, suits, respond-Effect}
use conpot.Kamstrup.Management.Server.{handle, received}
use conpot.Kamstrup.Management.Server.Log.{IsLogged, handle-IsLogged, handle-IsValid}

-- Nothing that is asked for its value, and no observers.
abbrev world : World
world = record {
  call = λ i. plain (number i);
  show = λ v. [];
  object = λ v. number 0;
  run = λ cb key db. (number 0, db);
}

abbrev start : Databus Object
start = record Databus.new {
  entries =
      (codes "mac_address", plain (text (codes "0013")))
      ∷ (codes "channel_a_port", plain (text (codes "1025")))
      ∷ [];
}

template_port :
    (j : Bytes) (v : Value Object)
    → codes "channel_a_port" ≡ j
    → some (plain (text (codes "1025"))) ≡ some v
    → suits required j v ≡ true
unfolding int
template_port j v same found =
    let value : plain (text (codes "1025")) ≡ v = (cc) in rw (← same, ← value) refl

start-IsValid : IsValid start
unfolding Dict.get
start-IsValid j v found = elim (Bool-cases (bytes_eq (codes "mac_address") j)) [
  | inl same ↦ rw (← (bytes_eq_iff (codes "mac_address") j).0 same) refl
  | inr other ↦ elim (Bool-cases (bytes_eq (codes "channel_a_port") j)) [
    | inl port ↦
        template_port j v ((bytes_eq_iff (codes "channel_a_port") j).0 port)
          (rw (other, port) at found)
    | inr none_left ↦ cc (rw (other, none_left) at found)
  ]
]

-- Two ports are set, and one that is no port is passed over.
ports_set :
    Dict.get (codes "channel_a_port") (respond world (codes "!sp x 1025") start).1.entries
    ≡ some (plain (number 1025))
unfolding respond strip split_once upper starts_with split int Databus.set_value Dict.get set
    Dict.put set_ports ◌>>=◌ parse_port Management.get Databus.get_value
ports_set = refl

-- The form without dots raises.
digits_raise : parse_ip (codes "192168001002") ≡ err type_error
unfolding parse_ip contains split int join
digits_raise = refl

respond-Effect_example :
    (c : Command) × Effect world c start (respond world (codes "!SP 50 1025") start).1
respond-Effect_example = respond-Effect world (codes "!SP 50 1025") start

handle-IsValid_example :
    IsValid (handle world (received (codes "!SD name") ∷ received (codes "Q") ∷ []) start).1.databus
handle-IsValid_example =
    handle-IsValid world (received (codes "!SD name") ∷ received (codes "Q") ∷ []) start
      start-IsValid

handle-IsLogged_example :
    IsLogged world
      (get_value world.call (codes "mac_address") start)
      (handle world (received (codes "!RC") ∷ received (codes "Q") ∷ []) start).1
handle-IsLogged_example =
    handle-IsLogged world (received (codes "!RC") ∷ received (codes "Q") ∷ []) start

parses : parse_ip (codes "10.0.0.1") ≡ ok (codes "10.0.0.1")
unfolding parse_ip contains split int join
parses = refl

parse_ip-ok_example :
    (codes "10.0.0.1" ≡ no_address)
    ⊎ ((codes "10.0.0.1" ≡ codes "10.0.0.1") × IsAddress (codes "10.0.0.1"))
parse_ip-ok_example = parse_ip-ok (codes "10.0.0.1") (codes "10.0.0.1") parses

no_dot : contains b'.' (codes "0") ≡ false
unfolding contains
no_dot = refl

zero_parses : parse_ip (codes "0") ≡ ok no_address
unfolding parse_ip contains split int join
zero_parses = refl

parse_ip-no_dot_example : no_address ≡ no_address
parse_ip-no_dot_example = parse_ip-no_dot (codes "0") no_address no_dot zero_parses
