-- ===== src/Kamstrup/Management/Commands/Settings.antt =====
-- The commands on addresses and the serial lines: !SC, !SI, !SN and !SS.
use conpot.Prelude.{
  Option, none, some, List, [], ◌∷◌, ◌++◌, length, take, ltb, leb, bytes_eq, if◌then◌else◌,
}
use conpot.Prelude.Bytes.{Bytes, codes}
use conpot.Prelude.Exec.{pure, lift, when, ◌>>=◌, ◌>>◌}
use conpot.Prelude.Text.{split}
use conpot.Kamstrup.Management.{World, Method, set, set_text, get, str, is_text, given, word}
use conpot.Kamstrup.Management.Addresses.{no_address, parse_ip}
use conpot.Kamstrup.Management.Commands.Servers.{set_ip_text}
use conpot.Kamstrup.Management.Commands.Device.{invalid_parameter, reboot}

module _ (w : World) where
  unfoldable pub set_addresses : List Bytes → Method (Unit {0})
  set_addresses params_split =
      if bytes_eq (word 0 params_split) (codes "1")
      then set_text w (codes "use_dhcp") (codes "YES")
      else (do
        set_text w (codes "use_dhcp") (codes "NO")
        set_ip_text w (codes "ip_addr") (word 1 params_split)
        set_ip_text w (codes "ip_subnet") (word 2 params_split)
        set_ip_text w (codes "ip_gateway") (word 3 params_split))

  unfoldable pub set_service_server : List Bytes → Method (Unit {0})
  set_service_server params_split =
      if bytes_eq (word 9 params_split) (codes "0")
      then (do
        set_ip_text w (codes "kap_a_server_ip") (word 7 params_split)
        set_text w (codes "kap_a_server_hostname") (codes "0 - none"))
      else (do
        set_text w (codes "kap_a_server_hostname") (word 9 params_split)
        set_ip_text w (codes "kap_a_server_ip") (word 7 params_split))

  unfoldable pub set_config_words : List Bytes → Method (Unit {0})
  set_config_words params_split = when (leb 10 (length params_split)) (do
    set_addresses params_split
    set_ip_text w (codes "nameserver_1") (word 4 params_split)
    set_ip_text w (codes "nameserver_2") (word 5 params_split)
    set_ip_text w (codes "nameserver_3") (word 6 params_split)
    set_service_server params_split
    let device_name = word 8 params_split
    set_text w (codes "device_name")
        (if ltb 20 (length device_name) then take 20 device_name else device_name))

  -- `SetConfigCommand.run`: it returns nothing.
  unfoldable pub set_config : Option Bytes → Method (Option Bytes)
  unfolding set_config_words set_addresses set_service_server
  set_config params = do
    elim (given params) [ none ↦ pure tt | some p ↦ set_config_words (split b' ' p) ]
    reboot w
    pure none

  unfoldable pub copy : Bytes → Bytes → Method (Unit {0})
  copy key source = do value ← get w source; set w key value

  unfoldable pub set_dhcp : Method (Unit {0})
  set_dhcp = do
    use_dhcp ← get w (codes "use_dhcp")
    when (is_text (codes "NO") use_dhcp) (do
      set_text w (codes "use_dhcp") (codes "YES")
      copy (codes "ip_addr") (codes "ip_addr_dhcp")
      copy (codes "ip_gateway") (codes "ip_gateway_dhcp")
      copy (codes "ip_subnet") (codes "ip_subnet_dhcp")
      reboot w)

  unfoldable pub set_ip_params : Option Bytes → Method (Unit {0})
  set_ip_params none = pure tt
  set_ip_params (some params) = do
    ip_addr ← lift (parse_ip params)
    if bytes_eq ip_addr no_address then set_dhcp else (do
      set_text w (codes "use_dhcp") (codes "NO")
      set_text w (codes "ip_addr") ip_addr
      reboot w)

  -- `SetIPCommand.run`
  unfoldable pub set_ip : Option Bytes → Method (Option Bytes)
  unfolding set_ip_params set_dhcp copy
  set_ip params = do
    set_ip_params (given params)
    use_dhcp ← get w (codes "use_dhcp")
    ip_addr ← get w (codes "ip_addr")
    pure (some [])

  unfoldable pub set_nameserver_words : List Bytes → Method (Option Bytes)
  set_nameserver_words (first ∷ second ∷ third ∷ []) = do
    set_ip_text w (codes "nameserver_1") first
    set_ip_text w (codes "nameserver_2") second
    set_ip_text w (codes "nameserver_3") third
    pure (some (codes "\r\nOK"))
  set_nameserver_words _ = pure (some invalid_parameter)

  -- `SetNameserverCommand.run`
  unfoldable pub set_nameserver : Option Bytes → Method (Option Bytes)
  unfolding set_nameserver_words
  set_nameserver params = elim params [
    | none ↦ pure (some invalid_parameter)
    | some p ↦ set_nameserver_words (split b' ' p)
  ]

  abbrev invalid_message : Bytes
  invalid_message = codes "\r\nInvalid data!\r\n\r\n"

  -- The write, and `output.format(…)`, which reads both settings.
  unfoldable pub set_serial_words : List Bytes → Method (Option Bytes)
  set_serial_words (channel ∷ settings ∷ []) =
      if bytes_eq channel (codes "A")
      then (do
        set_text w (codes "serial_settings_a") settings
        a ← get w (codes "serial_settings_a")
        b ← get w (codes "serial_settings_b")
        pure (some (codes "\r\nOK\r\n")))
      else if bytes_eq channel (codes "B")
      then (do
        set_text w (codes "serial_settings_b") settings
        a ← get w (codes "serial_settings_a")
        b ← get w (codes "serial_settings_b")
        pure (some (codes "\r\nOK\r\n")))
      else pure (some invalid_message)
  set_serial_words _ = pure (some invalid_message)

  -- `SetSerialCommand.run`
  unfoldable pub set_serial : Option Bytes → Method (Option Bytes)
  unfolding set_serial_words
  set_serial params = elim (given params) [
    | none ↦ (do
      a ← get w (codes "serial_settings_a")
      b ← get w (codes "serial_settings_b")
      pure (
          some (
            codes "\r\nUART A setup : "
            ++ (str w a ++ (codes "\r\nUART B setup : " ++ (str w b ++ codes "\r\n"))))))
    | some p ↦ set_serial_words (split b' ' p)
  ]
