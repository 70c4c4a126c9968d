-- ===== src/Kamstrup/Management/Effects.antt =====
-- What a command may write: a table of keys with the kind of value that each gets, and the proof that
-- every command does no more than a sequence of such writes.
pub mod Servers
pub mod Others
pub mod Valid
use conpot.Prelude.{
  ℕ, Bool, true, false, ◌&&◌, ◌≡◌, refl, some, List, [], ◌∷◌, length, ltb, leb, ◌==◌, bytes_eq,
  if◌then◌else◌, list_eq,
}
use conpot.Prelude.Bytes.{Bytes, codes}
use conpot.Prelude.Dict.{Dict}
use conpot.Prelude.Exec.Keeps.{Keeps}
use conpot.Prelude.Text.{starts_with, pos, int}
use conpot.Core.Databus.{Value, plain, Databus}
use conpot.Kamstrup.Management.{Object, text, number, World, set}
use conpot.Kamstrup.Management.Commands.{
  Command, ac, as_, gc, gv, sa, sb, sc, sd, sh, si, sk, sn, sp, ss, rc, rr, wm,
}

-- Kinds of values: any, a text, a text of 20 bytes at most, a port as a number, a port as a number or
-- as a text, the number 1.
pub data Kind : Type 0 where
  anything any_text short_text port port_or_text one : Kind

abbrev pub is_port : ℕ → Bool
is_port n = ltb 0 n && ltb n 65536

abbrev pub allows : Kind → Value Object → Bool
allows anything v = true
allows any_text (plain (text t)) = true
allows short_text (plain (text t)) = leb (length t) 20
allows port (plain (number n)) = is_port n
allows port_or_text (plain (number n)) = is_port n
allows port_or_text (plain (text t)) = elim (int t) [ some (pos n) ↦ is_port n | _ ↦ false ]
allows one (plain (number n)) = n == 1
allows _ _ = false

-- The keys of a command.
abbrev pub table : Command → Dict Bytes Kind
table as_ =
    (codes "alarm_server_status", any_text)
    ∷ (codes "alarm_server_ip", any_text)
    ∷ (codes "alarm_server_port", port)
    ∷ []
table sa =
    (codes "kap_a_server_ip", any_text)
    ∷ (codes "kap_a_server_hostname", any_text)
    ∷ (codes "kap_a_server_port", port)
    ∷ []
table sb = (codes "kap_b_server_ip", any_text) ∷ (codes "kap_b_server_port", any_text) ∷ []
table sc =
    (codes "use_dhcp", any_text)
    ∷ (codes "ip_addr", any_text)
    ∷ (codes "ip_subnet", any_text)
    ∷ (codes "ip_gateway", any_text)
    ∷ (codes "nameserver_1", any_text)
    ∷ (codes "nameserver_2", any_text)
    ∷ (codes "nameserver_3", any_text)
    ∷ (codes "kap_a_server_ip", any_text)
    ∷ (codes "kap_a_server_hostname", any_text)
    ∷ (codes "device_name", short_text)
    ∷ (codes "reboot_signal", one)
    ∷ []
table sd = (codes "device_name", short_text) ∷ (codes "reboot_signal", one) ∷ []
table sh = (codes "kap_server_lookup", any_text) ∷ []
table si =
    (codes "use_dhcp", any_text)
    ∷ (codes "ip_addr", anything)
    ∷ (codes "ip_gateway", anything)
    ∷ (codes "ip_subnet", anything)
    ∷ (codes "reboot_signal", one)
    ∷ []
table sk =
    (codes "software_watchdog", any_text)
    ∷ (codes "kap_missing_warning", any_text)
    ∷ (codes "keep_alive_timer", any_text)
    ∷ []
table sn =
    (codes "nameserver_1", any_text)
    ∷ (codes "nameserver_2", any_text)
    ∷ (codes "nameserver_3", any_text)
    ∷ []
table sp =
    (codes "kap_a_server_port", port)
    ∷ (codes "channel_a_port", port)
    ∷ (codes "channel_b_port", port)
    ∷ []
table ss = (codes "serial_settings_a", any_text) ∷ (codes "serial_settings_b", any_text) ∷ []
table rc =
    (codes "channel_a_connect_socket", any_text) ∷ (codes "channel_b_connect_socket", any_text) ∷ []
table rr = (codes "reboot_signal", one) ∷ []
table _ = []

abbrev pub permits : Dict Bytes Kind → Bytes → Value Object → Bool
permits [] k v = false
permits ((key, kind) ∷ rest) k v = if bytes_eq key k then allows kind v else permits rest k v

-- `!AC` writes texts under every key with its prefix; the others write by their table.
abbrev pub may_write : Command → Bytes → Value Object → Bool
may_write ac k v = starts_with k (codes "access_control_") && allows any_text v
may_write c k v = permits (table c) k v

-- What a command makes of a databus: writes that it may make, one after the other.
pub data Effect (w : World) (c : Command) (start : Databus Object) : Databus Object → Type 0 where
  nothing : Effect w c start start
  write :
      {db : Databus Object} (k : Bytes) (v : Value Object)
      → Effect w c start db
      → may_write c k v ≡ true
      → Effect w c start (set w k v db).1

module _ {w : World} {c : Command} {start : Databus Object} where
  pub Keeps-set :
      (k : Bytes) (v : Value Object) → may_write c k v ≡ true → Keeps (Effect w c start) (set w k v)
  Keeps-set k v allowed = record { after = λ db e. write k v e allowed }
