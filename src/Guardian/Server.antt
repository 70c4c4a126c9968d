-- ===== src/Guardian/Server.antt =====
-- The loop of `handle` in guardian_ast_server.py, over what `recv` returns; once the peer has closed
-- the connection, `recv` returns the empty text again and again.
pub mod Names
pub mod Waiting
use conpot.Prelude.{
  ℕ, zero, suc, ◌+◌, Bool, true, false, not, ◌&&◌, ◌||◌, Option, none, some, List, [], ◌∷◌, ◌++◌,
  length, take, drop, slice, ltb, ◌==◌, bytes_eq, if◌then◌else◌,
}
use conpot.Prelude.Bytes.{Bytes, codes, Exc, Result, ok, err}
use conpot.Prelude.Text.{contains, starts_with, strip_right, ljust}
use conpot.Guardian.Tanks.{Tank, Tanks, World, read_tanks}
use conpot.Guardian.Reports.{i20100, i20200, i20300, i20400, i20500}

-- `'\n' in response or '00' in response`
unfoldable pub has_zeros : Bytes → Bool
has_zeros [] = false
has_zeros (a ∷ s) = (a == b'0' && starts_with s (codes "0")) || has_zeros s

unfoldable pub is_complete : Bytes → Bool
unfolding has_zeros
is_complete response = contains 10 response || has_zeros response

-- `sock.recv(4096)`, and the pieces that are left.
unfoldable pub recv : List Bytes → Bytes × List Bytes
recv [] = ([], [])
recv (piece ∷ pieces) = (piece, pieces)

-- `while not (…): response += sock.recv(4096)`; `none` where the fuel runs out.
unfoldable pub gather : ℕ → Bytes → List Bytes → Option (Bytes × List Bytes)
unfolding is_complete recv
gather zero response pieces = none
gather (suc fuel) response pieces =
    let (piece, left) = recv pieces in
    let rest = gather fuel (response ++ piece) left in
    if is_complete response then some (response, pieces) else rest

-- `response.split(separator)`, as far as it is used: what stands before the first separator, and what
-- follows it.
unfoldable pub cut : Bytes → Bytes → Bytes × Option Bytes
cut separator [] = if starts_with [] separator then ([], some []) else ([], none)
cut separator (x ∷ s) =
    let (before, after) = cut separator s in
    if starts_with (x ∷ s) separator
    then ([], some (drop (length separator) (x ∷ s)))
    else (x ∷ before, after)

-- The name of 22 characters that a text is made into.
unfoldable pub fit_name : Bytes → Bytes
fit_name name =
    if ltb (length name) 22
    then ljust 22 b' ' name
    else if ltb 22 (length name)
    then take 20 name ++ codes "  "
    else name

-- `rstrip("\r\n")`
abbrev pub is_line_end : ℕ → Bool
is_line_end c = c == 13 || c == 10

-- The name in what follows the command.
unfoldable pub name_in : Bytes → Option Bytes → Option Bytes
unfolding cut fit_name
name_in cmd none = none
name_in cmd (some after) = some (fit_name (strip_right is_line_end (cut cmd after).0))

-- The name that follows the command in a response: the second part of `response.split(cmd)`.
unfoldable pub new_name : Bytes → Bytes → Option Bytes
unfolding name_in
new_name cmd response = name_in cmd (cut cmd response).1

abbrev rename : Bytes → Tank → Tank
rename name t = record t { product = name }

-- The tanks that a command S6020x names get the name.
unfoldable pub set_names : Bytes → Bytes → Tanks → Option Tanks
set_names cmd name s =
    if bytes_eq cmd (codes "S60201")
    then some (record s { tank1 = rename name s.tank1 })
    else if bytes_eq cmd (codes "S60202")
    then some (record s { tank2 = rename name s.tank2 })
    else if bytes_eq cmd (codes "S60203")
    then some (record s { tank3 = rename name s.tank3 })
    else if bytes_eq cmd (codes "S60204")
    then some (record s { tank4 = rename name s.tank4 })
    else if bytes_eq cmd (codes "S60200")
    then some (record s {
      tank1 = rename name s.tank1;
      tank2 = rename name s.tank2;
      tank3 = rename name s.tank3;
      tank4 = rename name s.tank4;
    })
    else none

abbrev pub not_understood : Bytes
not_understood = codes "9999FF1B\n"

-- `session.add_event`
pub data Event : Type 0 where
  new_connection connection_lost : Event
  command : Bytes → Event

pub record Connection : Type 0 where
  pub tanks : Tanks
  pub sent : List Bytes
  pub events : List Event

pub data Ended : Type 0 where
  closed waits_forever out_of_fuel : Ended
  raised : Exc → Ended

abbrev pub send : Bytes → Connection → Connection
send text c = record c { sent = c.sent ++ text ∷ [] }

abbrev pub lost : Connection → Connection
lost c = record c { events = c.events ++ connection_lost ∷ [] }

-- The report of a command that is in `cmds`.
unfoldable pub report : World → Bytes → Tanks → Option (Result Bytes)
report w cmd s =
    if bytes_eq cmd (codes "I20100")
    then some (i20100 w s)
    else if bytes_eq cmd (codes "I20200")
    then some (i20200 w s)
    else if bytes_eq cmd (codes "I20300")
    then some (i20300 w s)
    else if bytes_eq cmd (codes "I20400")
    then some (i20400 w s)
    else if bytes_eq cmd (codes "I20500")
    then some (i20500 w s)
    else none

unfoldable pub put_tanks : Option Tanks → Connection → Connection
put_tanks none c = send not_understood c
put_tanks (some tanks) c = record c { tanks = tanks }

-- The part behind the command is always there, since the response begins with it behind its first
-- byte.
unfoldable pub put_name : Bytes → Option Bytes → Connection → Connection
unfolding set_names put_tanks
put_name cmd none c = send not_understood c
put_name cmd (some name) c = put_tanks (set_names cmd name c.tanks) c

-- A command that is no report.
unfoldable pub rename_tanks : Bytes → Bytes → Connection → Connection
unfolding new_name put_name
rename_tanks cmd response c =
    if starts_with cmd (codes "S6020")
    then put_name cmd (new_name cmd response) c
    else send not_understood c

-- A report is sent; `some` is an exception.
unfoldable pub reply : Option (Result Bytes) → Bytes → Bytes → Connection → Option Exc × Connection
unfolding rename_tanks
reply none cmd response c = (none, rename_tanks cmd response c)
reply (some (ok text)) cmd response c = (none, send text c)
reply (some (err e)) cmd response c = (some e, c)

-- What a response of six bytes or more that begins with ^A does.
unfoldable pub run_command : World → Bytes → Bytes → Connection → Option Exc × Connection
unfolding report reply
run_command w cmd response c =
    reply (report w cmd c.tanks) cmd response (record c { events = c.events ++ command cmd ∷ [] })

-- `response[0] != '\x01'`, `len(response) < 6`
abbrev pub is_command : Bytes → Bool
is_command [] = false
is_command (a ∷ s) = a == 1 && not (ltb (length (a ∷ s)) 6)

unfoldable pub go_on :
    (next : Connection → Ended × Connection) → Option Exc × Connection → Ended × Connection
go_on next (none, c) = next c
go_on next (some e, c) = (raised e, c)

-- What one response does, with the rest of the loop.
unfoldable pub answer :
    World → (next : Connection → Ended × Connection) → Bytes → Connection → Ended × Connection
unfolding run_command go_on
answer w next response c =
    if is_command response
    then go_on next (run_command w (slice 1 7 response) response c)
    else (closed, lost c)

-- What follows the wait for a whole response; `next` is the rest of the loop.
unfoldable pub after_gather :
    World
    → (next : List Bytes → Connection → Ended × Connection) → Option (Bytes × List Bytes)
    → Connection
    → Ended × Connection
unfolding answer
after_gather w next none c = (waits_forever, c)
after_gather w next (some (response, left)) c = answer w (next left) response c

-- `while True`; the fuel is more than the pieces.
unfoldable pub serve : World → ℕ → List Bytes → Connection → Ended × Connection
unfolding after_gather gather
serve w zero pieces c = (out_of_fuel, c)
serve w (suc fuel) [] c = (closed, lost c)
serve w (suc fuel) ([] ∷ pieces) c = (closed, lost c)
serve w (suc fuel) ((b ∷ bs) ∷ pieces) c =
    after_gather w (serve w fuel) (gather (suc (suc (length pieces))) (b ∷ bs) pieces) c

-- `handle`
unfoldable pub handle : World → List Bytes → Result (Ended × Connection)
unfolding serve
handle w pieces = elim (read_tanks w) [
  | err e ↦ err e
  | ok tanks ↦ ok (
      serve w (suc (length pieces)) pieces
        (record { tanks = tanks; sent = []; events = new_connection ∷ [] }))
]
