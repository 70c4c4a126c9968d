-- ===== src/Kamstrup/Management/Effects/Servers.antt =====
-- The commands on servers write by their tables.
use conpot.Prelude.{
  ℕ, Bool, true, false, not, ◌≡◌, Option, none, some, List, [], ◌∷◌, arith, ◌==◌, get_elem?,
  Bool-cases, inl, inr,
}
use conpot.Prelude.Bytes.{Bytes}
use conpot.Prelude.Exec.Keeps.{Keeps, Keeps-pure, Keeps-when, keeps_rules}
use conpot.Core.Databus.{Databus, plain}
use conpot.Kamstrup.Management.{Object, text, number, World, get}
use conpot.Kamstrup.Management.Addresses.{parse_port}
use conpot.Kamstrup.Management.Commands.{Command, as_, sa, sb, sh, sk, sp}
use conpot.Kamstrup.Management.Commands.Servers.{
  put_port, set_port, put_port_text, put_timer, set_ip_text, alarm_server, set_kap1,
  set_kap2_output, set_kap2, set_lookup, set_watchdog, set_ports,
}
use conpot.Kamstrup.Management.Effects.{Kind, allows, port, may_write, Effect, Keeps-set}

-- A port that is not 0 is a valid one.
parse_port-allows :
    (s : Bytes)
    → not (parse_port s == 0) ≡ true
    → allows port (plain (number (parse_port s))) ≡ true
unfolding parse_port
parse_port-allows s h = ground arith

module _ {w : World} {c : Command} {start : Databus Object} where
  pub Keeps-get : (k : Bytes) → Keeps (Effect w c start) (get w k)
  unfolding get
  Keeps-get k = search keeps_rules

  pub Keeps-put_port :
      (key : Bytes) (param : Option Bytes)
      → ((n : ℕ)
          → allows port (plain (number n)) ≡ true
          → may_write c key (plain (number n)) ≡ true)
      → Keeps (Effect w c start) (put_port w key param)
  unfolding put_port
  Keeps-put_port key none may = Keeps-pure tt
  Keeps-put_port key (some p) may = elim (Bool-cases (not (parse_port p == 0))) [
    | inl valid ↦ rw valid (
        Keeps-set key (plain (number (parse_port p)))
          (may (parse_port p) (parse_port-allows p valid)))
    | inr zero_port ↦ rw zero_port (Keeps-pure tt)
  ]

  pub Keeps-set_port :
      (key : Bytes) (i : ℕ) (words : List Bytes)
      → ((n : ℕ)
          → allows port (plain (number n)) ≡ true
          → may_write c key (plain (number n)) ≡ true)
      → Keeps (Effect w c start) (set_port w key i words)
  unfolding set_port
  Keeps-set_port key i words = Keeps-put_port key (get_elem? words i)

  pub Keeps-put_port_text :
      (key : Bytes) (param : Option Bytes)
      → ((t : Bytes) → may_write c key (plain (text t)) ≡ true)
      → Keeps (Effect w c start) (put_port_text w key param)
  unfolding put_port_text
  Keeps-put_port_text key none may = Keeps-pure tt
  Keeps-put_port_text key (some p) may = search (keeps_rules, Keeps-set, may)

  pub Keeps-put_timer :
      (key : Bytes) (min_value : ℕ) (param : Option Bytes)
      → ((t : Bytes) → may_write c key (plain (text t)) ≡ true)
      → Keeps (Effect w c start) (put_timer w key min_value param)
  unfolding put_timer
  Keeps-put_timer key min_value none may = Keeps-pure tt
  Keeps-put_timer key min_value (some p) may = search (keeps_rules, Keeps-set, may)

  pub Keeps-set_ip_text :
      (key s : Bytes)
      → ((t : Bytes) → may_write c key (plain (text t)) ≡ true)
      → Keeps (Effect w c start) (set_ip_text w key s)
  unfolding set_ip_text
  Keeps-set_ip_text key s may = search (keeps_rules, Keeps-set, may)

pub ruleset write_rules = (
  keeps_rules, Keeps-get, Keeps-set, Keeps-set_port, Keeps-set_ip_text, Keeps-put_port_text,
  Keeps-put_timer,
)

module _ {w : World} {start : Databus Object} where
  pub alarm_server-Effect :
      (params : Option Bytes) → Keeps (Effect w as_ start) (alarm_server w params)
  unfolding alarm_server
  alarm_server-Effect none = search write_rules
  alarm_server-Effect (some []) = search write_rules
  alarm_server-Effect (some (x ∷ xs)) = search write_rules depth 20

  pub set_kap1-Effect : (params : Option Bytes) → Keeps (Effect w sa start) (set_kap1 w params)
  unfolding set_kap1
  set_kap1-Effect none = search write_rules
  set_kap1-Effect (some []) = search write_rules
  set_kap1-Effect (some (x ∷ xs)) = search write_rules depth 20

  set_kap2_output-Effect :
      (cmd_ok : Bytes) (single : Bool) → Keeps (Effect w sb start) (set_kap2_output w cmd_ok single)
  unfolding set_kap2_output
  set_kap2_output-Effect cmd_ok true = search write_rules
  set_kap2_output-Effect cmd_ok false = search write_rules depth 20

  pub set_kap2-Effect : (params : Option Bytes) → Keeps (Effect w sb start) (set_kap2 w params)
  unfolding set_kap2
  set_kap2-Effect none = search (write_rules, set_kap2_output-Effect)
  set_kap2-Effect (some []) = search (write_rules, set_kap2_output-Effect)
  set_kap2-Effect (some (x ∷ xs)) = search (write_rules, set_kap2_output-Effect) depth 20

  pub set_lookup-Effect : (params : Option Bytes) → Keeps (Effect w sh start) (set_lookup w params)
  unfolding set_lookup
  set_lookup-Effect none = search write_rules
  set_lookup-Effect (some p) = search write_rules depth 20

  pub set_watchdog-Effect :
      (params : Option Bytes) → Keeps (Effect w sk start) (set_watchdog w params)
  unfolding set_watchdog
  set_watchdog-Effect none = search write_rules depth 20
  set_watchdog-Effect (some p) = search write_rules depth 20

  pub set_ports-Effect : (params : Option Bytes) → Keeps (Effect w sp start) (set_ports w params)
  unfolding set_ports
  set_ports-Effect none = search write_rules
  set_ports-Effect (some []) = search write_rules
  set_ports-Effect (some (x ∷ xs)) = search write_rules depth 20
