-- ===== src/Kamstrup/Management/Effects/Others.antt =====
-- The other commands write by their tables, and so does every command.
use conpot.Prelude.{
  true, ◌≡◌, Option, none, some, List, [], ◌∷◌, arith, leb, ltb, length, take, length-take,
  if◌then◌else◌,
}
use conpot.Prelude.Bytes.{Bytes}
use conpot.Prelude.Exec.Keeps.{Keeps, Keeps-pure, Keeps-bind}
use conpot.Prelude.Text.{split, starts_with}
use conpot.Core.Databus.{Databus}
use conpot.Kamstrup.Management.{Object, World}
use conpot.Kamstrup.Management.Commands.{
  Command, run_command, ac, as_, gc, gv, sa, sb, sc, sd, sh, si, sk, sn, sp, ss, rc, rr, wm,
}
use conpot.Kamstrup.Management.Commands.Device.{
  read_keys, set_access_words, access_control, get_config, software_version, reboot,
  set_device_name, request_connect_words, request_connect, request_restart,
}
use conpot.Kamstrup.Management.Commands.Settings.{
  set_config, set_ip, set_nameserver_words, set_nameserver, set_serial_words, set_serial,
}
use conpot.Kamstrup.Management.Effects.{Effect}
use conpot.Kamstrup.Management.Effects.Servers.{
  Keeps-get, write_rules, alarm_server-Effect, set_kap1-Effect, set_kap2-Effect, set_lookup-Effect,
  set_watchdog-Effect, set_ports-Effect,
}

cut_short : (s : Bytes) → leb (length (if ltb 20 (length s) then take 20 s else s)) 20 ≡ true
cut_short s = ground (arith, length-take 20 s)

module _ {w : World} {c : Command} {start : Databus Object} where
  read_keys-Effect : (keys : List Bytes) → Keeps (Effect w c start) (read_keys w keys)
  unfolding read_keys
  read_keys-Effect [] = search write_rules
  read_keys-Effect (k ∷ ks) = Keeps-bind _ _ (Keeps-get k) (λ _. read_keys-Effect ks)

module _ {w : World} {start : Databus Object} where
  set_access_words-Effect :
      (words : List Bytes) → Keeps (Effect w ac start) (set_access_words w words)
  unfolding set_access_words starts_with
  set_access_words-Effect (cmd ∷ acl ∷ ip ∷ []) = search write_rules depth 20
  set_access_words-Effect [] = Keeps-pure tt
  set_access_words-Effect (a ∷ []) = Keeps-pure tt
  set_access_words-Effect (a ∷ b ∷ []) = Keeps-pure tt
  set_access_words-Effect (a ∷ b ∷ c ∷ d ∷ ws) = Keeps-pure tt

  access_control-Effect :
      (params : Option Bytes) → Keeps (Effect w ac start) (access_control w params)
  unfolding access_control starts_with
  access_control-Effect none = search (write_rules, read_keys-Effect)
  access_control-Effect (some []) = search (write_rules, read_keys-Effect)
  access_control-Effect (some (x ∷ xs)) =
      search (write_rules, read_keys-Effect, set_access_words-Effect) depth 20

  set_device_name-Effect :
      (params : Option Bytes) → Keeps (Effect w sd start) (set_device_name w params)
  unfolding set_device_name
  set_device_name-Effect none = search write_rules depth 20
  set_device_name-Effect (some p) = search (write_rules, cut_short) depth 20

  request_connect_words-Effect :
      (words : List Bytes) → Keeps (Effect w rc start) (request_connect_words w words)
  unfolding request_connect_words
  request_connect_words-Effect (channel ∷ value ∷ []) = search write_rules depth 20
  request_connect_words-Effect [] = Keeps-pure _
  request_connect_words-Effect (a ∷ []) = Keeps-pure _
  request_connect_words-Effect (a ∷ b ∷ c ∷ ws) = Keeps-pure _

  request_connect-Effect :
      (params : Option Bytes) → Keeps (Effect w rc start) (request_connect w params)
  unfolding request_connect
  request_connect-Effect none = search write_rules
  request_connect-Effect (some []) = search write_rules
  request_connect-Effect (some (x ∷ xs)) = request_connect_words-Effect (split b' ' (x ∷ xs))

  set_config-Effect : (params : Option Bytes) → Keeps (Effect w sc start) (set_config w params)
  unfolding set_config reboot
  set_config-Effect none = search write_rules depth 20
  set_config-Effect (some []) = search write_rules depth 20
  set_config-Effect (some (x ∷ xs)) = search (write_rules, cut_short) depth 30

  set_ip-Effect : (params : Option Bytes) → Keeps (Effect w si start) (set_ip w params)
  unfolding set_ip reboot
  set_ip-Effect none = search write_rules depth 20
  set_ip-Effect (some []) = search write_rules depth 20
  set_ip-Effect (some (x ∷ xs)) = search write_rules depth 20

  set_nameserver_words-Effect :
      (words : List Bytes) → Keeps (Effect w sn start) (set_nameserver_words w words)
  unfolding set_nameserver_words
  set_nameserver_words-Effect (a ∷ b ∷ c ∷ []) = search write_rules depth 20
  set_nameserver_words-Effect [] = Keeps-pure _
  set_nameserver_words-Effect (a ∷ []) = Keeps-pure _
  set_nameserver_words-Effect (a ∷ b ∷ []) = Keeps-pure _
  set_nameserver_words-Effect (a ∷ b ∷ c ∷ d ∷ ws) = Keeps-pure _

  set_nameserver-Effect :
      (params : Option Bytes) → Keeps (Effect w sn start) (set_nameserver w params)
  unfolding set_nameserver
  set_nameserver-Effect none = search write_rules
  set_nameserver-Effect (some p) = set_nameserver_words-Effect (split b' ' p)

  set_serial_words-Effect :
      (words : List Bytes) → Keeps (Effect w ss start) (set_serial_words w words)
  unfolding set_serial_words
  set_serial_words-Effect (channel ∷ settings ∷ []) = search write_rules depth 20
  set_serial_words-Effect [] = Keeps-pure _
  set_serial_words-Effect (a ∷ []) = Keeps-pure _
  set_serial_words-Effect (a ∷ b ∷ c ∷ ws) = Keeps-pure _

  set_serial-Effect : (params : Option Bytes) → Keeps (Effect w ss start) (set_serial w params)
  unfolding set_serial
  set_serial-Effect none = search write_rules depth 20
  set_serial-Effect (some []) = search write_rules depth 20
  set_serial-Effect (some (x ∷ xs)) = set_serial_words-Effect (split b' ' (x ∷ xs))

  pub run_command-Effect :
      (c : Command) (params : Option Bytes) → Keeps (Effect w c start) (run_command w c params)
  unfolding run_command get_config software_version request_restart reboot
  run_command-Effect ac params = access_control-Effect params
  run_command-Effect as_ params = alarm_server-Effect params
  run_command-Effect gc params = search (write_rules, read_keys-Effect)
  run_command-Effect gv params = search (write_rules, read_keys-Effect)
  run_command-Effect sa params = set_kap1-Effect params
  run_command-Effect sb params = set_kap2-Effect params
  run_command-Effect sc params = set_config-Effect params
  run_command-Effect sd params = set_device_name-Effect params
  run_command-Effect sh params = set_lookup-Effect params
  run_command-Effect si params = set_ip-Effect params
  run_command-Effect sk params = set_watchdog-Effect params
  run_command-Effect sn params = set_nameserver-Effect params
  run_command-Effect sp params = set_ports-Effect params
  run_command-Effect ss params = set_serial-Effect params
  run_command-Effect rc params = request_connect-Effect params
  run_command-Effect rr params = search write_rules
  run_command-Effect wm params = search write_rules
