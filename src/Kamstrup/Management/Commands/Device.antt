-- ===== src/Kamstrup/Management/Commands/Device.antt =====
-- The commands on the module itself: !AC, !GC, !GV, !SD, !RC and !RR.
use conpot.Prelude.{
  ◌&&◌, ◌||◌, Option, none, some, List, [], ◌∷◌, ◌++◌, length, take, ltb, ◌==◌, bytes_eq,
  if◌then◌else◌,
}
use conpot.Prelude.Bytes.{Bytes, codes}
use conpot.Prelude.Exec.{pure, lift, when, ◌>>=◌, ◌>>◌}
use conpot.Prelude.Text.{contains, count, split, str_int}
use conpot.Core.Databus.{plain}
use conpot.Kamstrup.Management.{number, World, Method, set, set_text, get, given}
use conpot.Kamstrup.Management.Addresses.{to_int, parse_ip}

abbrev pub invalid_parameter : Bytes
invalid_parameter =
    codes "\r\n? Invalid parameter.\r\nTry 'H cmd' for specific help.\r\n Ie: H !SC\r\n"

module _ (w : World) where
  -- The keys that a text is formatted from, read in order; the text itself is empty.
  unfoldable pub read_keys : List Bytes → Method (Unit {0})
  read_keys [] = pure tt
  read_keys (key ∷ keys) = do value ← get w key; read_keys keys

  -- `set_access_ip`
  unfoldable pub set_access_ip : Bytes → Bytes → Method (Unit {0})
  set_access_ip acl ip_string =
      when
        (count b'.' ip_string == 3
          && (contains b'1' acl
              || (contains b'2' acl
                  || (contains b'3' acl || (contains b'4' acl || contains b'5' acl)))))
        (do
          acl_number ← lift (to_int acl)
          final_ip ← lift (parse_ip ip_string)
          set_text w (codes "access_control_" ++ str_int acl_number) final_ip)

  unfoldable pub set_access_words : List Bytes → Method (Unit {0})
  unfolding set_access_ip
  set_access_words (cmd ∷ acl_number ∷ ip_address ∷ []) =
      when (bytes_eq cmd (codes "0")) (set_access_ip acl_number ip_address)
  set_access_words _ = pure tt

  unfoldable pub access_control_params : Option Bytes → Method Bytes
  access_control_params none = pure []
  access_control_params (some params) = do
    if bytes_eq params (codes "0")
        then set_text w (codes "access_control_status") (codes "DISABLED")
        else if bytes_eq params (codes "1")
        then set_text w (codes "access_control_status") (codes "ENABLED")
        else set_access_words (split b' ' params)
    pure (codes "\r\nOK\r\n")

  -- `AccessControlCommand.run`
  unfoldable pub access_control : Option Bytes → Method (Option Bytes)
  unfolding access_control_params set_access_words set_access_ip read_keys
  access_control params = do
    cmd_output ← access_control_params (given params)
    read_keys (
        codes "access_control_status"
        ∷ codes "access_control_1"
        ∷ codes "access_control_2"
        ∷ codes "access_control_3"
        ∷ codes "access_control_4"
        ∷ codes "access_control_5"
        ∷ [])
    pure (some cmd_output)

  -- `GetConfigCommand.run`
  unfoldable pub get_config : Method (Option Bytes)
  unfolding read_keys
  get_config = do
    read_keys (
        codes "device_name"
        ∷ codes "nameserver_1"
        ∷ codes "nameserver_2"
        ∷ codes "nameserver_3"
        ∷ codes "mac_address"
        ∷ codes "use_dhcp"
        ∷ codes "ip_addr"
        ∷ codes "ip_subnet"
        ∷ codes "ip_gateway"
        ∷ codes "kap_a_server_ip"
        ∷ codes "kap_a_server_hostname"
        ∷ codes "channel_a_meternumber"
        ∷ codes "channel_b_meternumber"
        ∷ codes "kap_ack_server"
        ∷ codes "kap_a_server_port"
        ∷ codes "kap_local_port"
        ∷ [])
    pure (some [])

  -- `SoftwareVersionCommand.run`
  unfoldable pub software_version : Method (Option Bytes)
  unfolding read_keys
  software_version = do read_keys (codes "software_version" ∷ []); pure (some [])

  -- `databus.set_value("reboot_signal", 1)`
  unfoldable pub reboot : Method (Unit {0})
  reboot = set w (codes "reboot_signal") (plain (number 1))

  unfoldable pub set_device_name_text : Bytes → Method (Option Bytes)
  set_device_name_text params = do
    let too_long = ltb 20 (length params)
    set_text w (codes "device_name") (if too_long then take 20 params else params)
    reboot
    pure (some (if too_long then [] else codes "\r\nOK"))

  -- `SetDeviceNameCommand.run`
  unfoldable pub set_device_name : Option Bytes → Method (Option Bytes)
  unfolding set_device_name_text reboot
  set_device_name params = set_device_name_text (elim params [ none ↦ [] | some p ↦ p ])

  -- The tests of `!RC` on its parameters; the answer is the same for all that pass.
  unfoldable pub request_connect_words : List Bytes → Method (Option Bytes)
  request_connect_words (action ∷ []) = pure (
      some (
        if bytes_eq action (codes "D")
        then codes "\r\nOK\r\nStatus: 0100\r\n"
        else invalid_parameter))
  request_connect_words (channel ∷ value ∷ []) =
      if bytes_eq channel (codes "A")
      then (do
        set_text w (codes "channel_a_connect_socket") value
        pure (some (codes "\r\nOK\r\nStatus: 0100\r\n")))
      else if bytes_eq channel (codes "B")
      then (do
        set_text w (codes "channel_b_connect_socket") value
        pure (some (codes "\r\nOK\r\nStatus: 0100\r\n")))
      else pure (some invalid_parameter)
  request_connect_words _ = pure (some invalid_parameter)

  -- `RequestConnectCommand.run`
  unfoldable pub request_connect : Option Bytes → Method (Option Bytes)
  unfolding request_connect_words
  request_connect params = elim (given params) [
    | none ↦ pure (some (codes "\r\nStatus: 0100\r\n"))
    | some p ↦ request_connect_words (split b' ' p)
  ]

  -- `RequestRestartCommand.run`
  unfoldable pub request_restart : Method (Option Bytes)
  unfolding reboot
  request_restart = do reboot; pure none
