-- ===== src/Kamstrup/Management/Commands.antt =====
-- The classes of commands.py. `BaseCommand.__init__` sets HELP_MESSAGE and CMD_OUTPUT to the empty
-- text on the object, and no command but `H` has a constructor of its own, so the texts of the
-- classes under these two names are hidden: `self.CMD_OUTPUT.format(…)` and `help()` are empty.
pub mod Servers
pub mod Device
pub mod Settings
use conpot.Prelude.{ℕ, Option, none, some, List, [], ◌∷◌, ◌++◌, take}
use conpot.Prelude.Bytes.{Bytes, codes}
use conpot.Prelude.Exec.{pure}
use conpot.Prelude.Dict.{Dict, get}
use conpot.Kamstrup.Management.{World, Method}
use conpot.Kamstrup.Management.Commands.Servers.{
  alarm_server, set_kap1, set_kap2, set_lookup, set_watchdog, set_ports,
}
use conpot.Kamstrup.Management.Commands.Device.{
  access_control, get_config, software_version, set_device_name, request_connect, request_restart,
}
use conpot.Kamstrup.Management.Commands.Settings.{set_config, set_ip, set_nameserver, set_serial}

pub data Command : Type 0 where
  ac as_ gc gv sa sb sc sd sh si sk sn sp ss rc rr wm : Command

-- `self.commands`
abbrev pub commands : Dict Bytes Command
commands =
    (codes "!AC", ac)
    ∷ (codes "!AS", as_)
    ∷ (codes "!GC", gc)
    ∷ (codes "!GV", gv)
    ∷ (codes "!SA", sa)
    ∷ (codes "!SB", sb)
    ∷ (codes "!SC", sc)
    ∷ (codes "!SD", sd)
    ∷ (codes "!SH", sh)
    ∷ (codes "!SI", si)
    ∷ (codes "!SK", sk)
    ∷ (codes "!SN", sn)
    ∷ (codes "!SP", sp)
    ∷ (codes "!SS", ss)
    ∷ (codes "!RC", rc)
    ∷ (codes "!RR", rr)
    ∷ (codes "!WM", wm)
    ∷ []

-- `self.commands[command].run(params)`; `none` is Python's `None`.
unfoldable pub run_command : World → Command → Option Bytes → Method (Option Bytes)
run_command w ac params = access_control w params
run_command w as_ params = alarm_server w params
run_command w gc params = get_config w
run_command w gv params = software_version w
run_command w sa params = set_kap1 w params
run_command w sb params = set_kap2 w params
run_command w sc params = set_config w params
run_command w sd params = set_device_name w params
run_command w sh params = set_lookup w params
run_command w si params = set_ip w params
run_command w sk params = set_watchdog w params
run_command w sn params = set_nameserver w params
run_command w sp params = set_ports w params
run_command w ss params = set_serial w params
run_command w rc params = request_connect w params
run_command w rr params = request_restart w
run_command w wm params = pure (some [])

-- `help`: `self.HELP_MESSAGE`, which the constructor emptied.
unfoldable pub help : Command → Bytes
help c = []
