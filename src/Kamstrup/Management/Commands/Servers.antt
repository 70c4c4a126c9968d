-- ===== src/Kamstrup/Management/Commands/Servers.antt =====
-- The commands on the servers that the module talks to: !AS, !SA, !SB, !SH, !SK and !SP.
use conpot.Prelude.{
  ℕ, Bool, true, false, not, ◌||◌, Option, none, some, List, [], ◌∷◌, ◌++◌, length, get_elem?, ltb,
  ◌==◌, if◌then◌else◌,
}
use conpot.Prelude.Bytes.{Bytes, codes, Result, ok, err, value_error}
use conpot.Prelude.Exec.{pure, lift, when, ◌>>=◌, ◌>>◌}
use conpot.Prelude.Text.{contains, split}
use conpot.Core.Databus.{Value, plain}
use conpot.Kamstrup.Management.{
  Object, number, World, Method, set, set_text, get, str, is_text, given, word,
}
use conpot.Kamstrup.Management.Addresses.{no_address, parse_ip, parse_port, try_parse_uint}

-- `str(value)` of what `try_parse_uint` returns.
abbrev pub str_object : World → Object → Bytes
str_object w value = str w (plain value)

-- `output.format(…)` on a text that is formatted already. One with a brace, which only the template
-- can bring, is not followed: it counts as a ValueError.
abbrev pub format_again : Bytes → Result Bytes
format_again output =
    if contains b'{' output || contains b'}' output then err value_error else ok output

module _ (w : World) where
  unfoldable pub put_port : Bytes → Option Bytes → Method (Unit {0})
  put_port key none = pure tt
  put_port key (some p) =
      let port = parse_port p in when (not (port == 0)) (set w key (plain (number port)))

  -- The port at an index of the parameters, if there is one and it is valid.
  unfoldable pub set_port : Bytes → ℕ → List Bytes → Method (Unit {0})
  unfolding put_port
  set_port key i params_split = put_port key (get_elem? params_split i)

  -- `parse_ip` of a parameter, and the write.
  unfoldable pub set_ip_text : Bytes → Bytes → Method (Unit {0})
  set_ip_text key ip_string = do address ← lift (parse_ip ip_string); set_text w key address

  alarm_server_set : Bytes → Method (Option Bytes)
  alarm_server_set params = do
    set_text w (codes "alarm_server_status") (codes "ENABLED")
    let params_split = split b' ' params
    set_ip_text (codes "alarm_server_ip") (word 0 params_split)
    set_port (codes "alarm_server_port") 1 params_split
    ip ← get w (codes "alarm_server_ip")
    port ← get w (codes "alarm_server_port")
    pure (some (codes "\r\nOK\r\n"))

  alarm_server_show : Method (Option Bytes)
  alarm_server_show = do
    status ← get w (codes "alarm_server_status")
    if is_text (codes "DISABLED") status then pure (some []) else do
      ip ← get w (codes "alarm_server_ip")
      port ← get w (codes "alarm_server_port")
      pure (some [])

  -- `AlarmServerCommand.run`
  unfoldable pub alarm_server : Option Bytes → Method (Option Bytes)
  unfolding alarm_server_set alarm_server_show set_port set_ip_text
  alarm_server params = elim (given params) [
    | none ↦ alarm_server_show
    | some p ↦ alarm_server_set p
  ]

  set_kap1_params : Option Bytes → Method Bytes
  set_kap1_params none = pure (codes "\r\n")
  set_kap1_params (some params) = do
    let params_split = split b' ' params
    set_ip_text (codes "kap_a_server_ip") (word 0 params_split)
    set_text w (codes "kap_a_server_hostname") (codes "0 - none")
    set_port (codes "kap_a_server_port") 1 params_split
    pure (codes "\r\nOK")

  -- `SetKap1Command.run`
  unfoldable pub set_kap1 : Option Bytes → Method (Option Bytes)
  unfolding set_kap1_params set_port set_ip_text
  set_kap1 params = do
    output_prefix ← set_kap1_params (given params)
    ip ← get w (codes "kap_a_server_ip")
    port ← get w (codes "kap_a_server_port")
    pure (some output_prefix)

  -- The port of the second server is stored as the text of the parameter.
  unfoldable pub put_port_text : Bytes → Option Bytes → Method (Unit {0})
  put_port_text key none = pure tt
  put_port_text key (some p) = when (not (parse_port p == 0)) (set_text w key p)

  set_kap2_params : Option Bytes → Method Bytes
  set_kap2_params none = pure []
  set_kap2_params (some params) = do
    let params_split = split b' ' params
    set_ip_text (codes "kap_b_server_ip") (word 0 params_split)
    put_port_text (codes "kap_b_server_port") (get_elem? params_split 1)
    pure (codes "OK")

  -- The first lines of CMD_OUTPUT_SINGLE and CMD_OUTPUT_DOUBLE.
  unfoldable pub kap_lines : Bytes → Value Object → Value Object → Bytes
  kap_lines cmd_ok ip port =
      codes "\r\n"
      ++ (cmd_ok
          ++ (codes "\r\nService server addr.: "
              ++ (str w ip ++ (b':' ∷ (str w port ++ codes " (from DNS)\r\n")))))

  unfoldable pub set_kap2_output : Bytes → Bool → Method (Option Bytes)
  unfolding kap_lines
  set_kap2_output cmd_ok true = do
    ip ← get w (codes "kap_a_server_ip")
    port ← get w (codes "kap_a_server_port")
    pure (some (kap_lines cmd_ok ip port ++ codes "No redundancy."))
  set_kap2_output cmd_ok false = do
    ip ← get w (codes "kap_a_server_ip")
    port ← get w (codes "kap_a_server_port")
    ip_b ← get w (codes "kap_b_server_ip")
    port_b ← get w (codes "kap_b_server_port")
    pure (
        some (
          kap_lines cmd_ok ip port
          ++ (codes "and fallback KAP to:  "
              ++ (str w ip_b ++ (b':' ∷ (str w port_b ++ codes "\r\n"))))))

  -- `SetKap2Command.run`
  unfoldable pub set_kap2 : Option Bytes → Method (Option Bytes)
  unfolding set_kap2_params set_kap2_output put_port_text set_ip_text
  set_kap2 params = do
    cmd_ok ← set_kap2_params (given params)
    ip ← get w (codes "kap_b_server_ip")
    set_kap2_output cmd_ok (is_text no_address ip)

  -- What is stored, and what stands before the line of the host name.
  set_lookup_value : Bytes → Method Bytes
  set_lookup_value params =
      if length params == 1
      then (do set_text w (codes "kap_server_lookup") (codes "0 - none"); pure (codes "\r\nOK\r\n"))
      else if ltb 1 (length params)
      then (do set_text w (codes "kap_server_lookup") params; pure (codes "\r\nOK\r\n"))
      else pure (codes "\r\n")

  -- `SetLookupCommand.run`
  unfoldable pub set_lookup : Option Bytes → Method (Option Bytes)
  unfolding set_lookup_value
  set_lookup params = do
    output ← set_lookup_value (elim params [ none ↦ [] | some p ↦ p ])
    lookup ← get w (codes "kap_server_lookup")
    pure (some (output ++ (codes "Service server hostname.: " ++ (str w lookup ++ codes "\r\n"))))

  -- A timer, if the parameter is there.
  unfoldable pub put_timer : Bytes → ℕ → Option Bytes → Method (Unit {0})
  put_timer key min_value none = pure tt
  put_timer key min_value (some p) =
      set_text w key (str_object w (try_parse_uint p min_value 4294967295))

  set_watchdog_params : Option Bytes → Method Bytes
  set_watchdog_params none = pure (codes "\r\n")
  set_watchdog_params (some params) = do
    let params_split = split b' ' params
    put_timer (codes "software_watchdog") 5 (get_elem? params_split 0)
    put_timer (codes "kap_missing_warning") 0 (get_elem? params_split 1)
    put_timer (codes "keep_alive_timer") 0 (get_elem? params_split 2)
    pure (codes "\r\nOK\r\n")

  -- `'DISABLED {0}'` for the text "0", `'ENABLED {0}'` for all else.
  enabled : Value Object → Bytes
  enabled value =
      (if is_text (codes "0") value then codes "DISABLED " else codes "ENABLED ") ++ str w value

  -- `SetWatchdogCommand.run`; its CMD_OUTPUT is the class's.
  unfoldable pub set_watchdog : Option Bytes → Method (Option Bytes)
  unfolding set_watchdog_params put_timer enabled
  set_watchdog params = do
    output ← set_watchdog_params params
    watchdog ← get w (codes "software_watchdog")
    missing ← get w (codes "kap_missing_warning")
    timer ← get w (codes "keep_alive_timer")
    lookup ← get w (codes "kap_server_lookup")
    formatted ← lift (
        format_again (
          output
          ++ (codes "Software watchdog: "
              ++ (enabled watchdog
                  ++ (codes "\r\nKAP Missing warning: "
                      ++ (enabled missing
                          ++ (codes "\r\nKeep alive timer (flash setting): "
                              ++ (enabled timer ++ codes "\r\n"))))))))
    pure (some formatted)

  set_ports_params : Option Bytes → Method (Unit {0})
  set_ports_params none = pure tt
  set_ports_params (some params) = do
    let params_split = split b' ' params
    set_port (codes "kap_a_server_port") 0 params_split
    set_port (codes "channel_a_port") 1 params_split
    set_port (codes "channel_b_port") 2 params_split

  -- `SetPortsCommand.run`
  unfoldable pub set_ports : Option Bytes → Method (Option Bytes)
  unfolding set_ports_params set_port
  set_ports params = do
    set_ports_params (given params)
    kap ← get w (codes "kap_a_server_port")
    cha ← get w (codes "channel_a_port")
    chb ← get w (codes "channel_b_port")
    pure (some [])
