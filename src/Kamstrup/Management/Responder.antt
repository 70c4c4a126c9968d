-- ===== src/Kamstrup/Management/Responder.antt =====
-- command_responder.py, with `run` of the help command.
use conpot.Prelude.{Option, none, some, [], ◌++◌, length, take, ltb, ◌==◌, if◌then◌else◌, list_eq}
use conpot.Prelude.Bytes.{Bytes, codes}
use conpot.Prelude.Dict
use conpot.Prelude.Exec.{pure}
use conpot.Prelude.Text.{split_once, strip, upper, starts_with}
use conpot.Kamstrup.Management.{World, Method}
use conpot.Kamstrup.Management.Commands.{Command, commands, run_command, help}
use conpot.Kamstrup.Management.Commands.Device.{invalid_parameter}

abbrev pub command_not_found : Bytes
command_not_found = codes "\r\n? Command not found.\r\nSend 'H' for help.\r\n"

-- `HelpCommand.CMD_OUTPUT`, which no constructor hides.
abbrev pub service_menu : Bytes
service_menu =
    codes "==============================================================================\r\n"
    ++ (codes "Service Menu\r\n"
        ++ (codes
              "==============================================================================\r\n"
            ++ (codes "H:   Help [cmd].\r\n"
                ++ (codes "Q:   Close connection.\r\n"
                    ++ (codes "!AC: Access control.\r\n"
                        ++ (codes "!AS: Alarm Server.\r\n"
                            ++ (codes "!GC: Get Config.\r\n"
                                ++ (codes "!GV: Software version.\r\n"
                                    ++ (codes "!SA: Set KAP Server IP and port (*1).\r\n"
                                        ++ (codes "!SB: Set 2nd KAP Server IP and port.\r\n"
                                            ++ (codes "!SC: Set Config (*1).\r\n"
                                                ++ (codes "!SD: Set device name (*1).\r\n"
                                                    ++ (codes
                                                          "!SH: Set KAP Server lookup (DNS or DHCP)\r\n"
                                                        ++ (codes
                                                            "!SI: Set IP (enter either valid IP or 0 to force DHCP)(*1).\r\n"
                                                            ++ (codes
                                                            "!SK: Set KAP watchdog timeout(WDT).\r\n"
                                                            ++ (codes
                                                            "!SN: Set IP for DNS Name servers to use.\r\n"
                                                            ++ (codes "!SP: Set IP Ports\r\n"
                                                            ++ (codes
                                                            "!SS: Set Serial Settings.\r\n"
                                                            ++ (codes "!RC: Request connect\r\n"
                                                            ++ (codes
                                                            "!RR: Request restart (*1).\r\n"
                                                            ++ (codes "!WM: Wink module.\r\n"
                                                            ++ (codes
                                                            "==============================================================================\r\n"
                                                            ++ (codes
                                                            "(*1) Forces system restart\r\n"
                                                            ++ (codes
                                                            "==============================================================================\r\n"
                                                            ++ (codes
                                                            "Kamstrup (R)\r\n")))))))))))))))))))))))))

-- `HelpCommand.run`
unfoldable pub help_run : Option Bytes → Bytes
unfolding help
help_run none = service_menu
help_run (some params) = elim (Dict.get (take 3 params) commands) [
  | some c ↦ help c
  | none ↦ invalid_parameter
]

-- `if command in self.commands.keys()`
unfoldable pub dispatch : World → Option Command → (params : Option Bytes) → Method (Option Bytes)
unfolding run_command
dispatch w none params = pure (some command_not_found)
dispatch w (some c) params = run_command w c params

-- A request of one word or more.
unfoldable pub respond_to :
    World → (command : Bytes) → (params : Option Bytes) → Method (Option Bytes)
unfolding help_run dispatch
respond_to w command params =
    if ltb 3 (length command)
    then pure (some command_not_found)
    else if starts_with command (codes "Q")
    then pure none
    else if starts_with command (codes "H")
    then pure (some (help_run params))
    else if starts_with command (codes "!")
    then dispatch w (Dict.get command commands) params
    else pure (some command_not_found)

-- `respond`: `none` makes the server close the connection.
unfoldable pub respond : World → Bytes → Method (Option Bytes)
unfolding respond_to
respond w request =
    let stripped_request = strip request in
    if length stripped_request == 0
    then pure (some [])
    else let (first, params) = split_once b' ' stripped_request in respond_to w (upper first) params
