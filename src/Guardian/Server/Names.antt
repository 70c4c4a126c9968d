-- ===== src/Guardian/Server/Names.antt =====
-- The names of the tanks keep their width.
use conpot.Prelude.{
  ℕ, zero, suc, ◌≡◌, refl, Option, none, some, List, [], ◌∷◌, ◌++◌, arith, length, slice, take,
  length-take, length-append, Bool-cases, inl, inr,
}
use conpot.Prelude.Bytes.{Bytes, codes, Exc, Result, ok, err}
use conpot.Prelude.Text.{strip_right, starts_with}
use conpot.Prelude.Text.Laws.{length-ljust}
use conpot.Guardian.Tanks.{Tanks, World}
use conpot.Guardian.Server.{
  Connection, Ended, command, cut, is_line_end, gather, fit_name, name_in, new_name, put_tanks,
  put_name, reply, go_on, set_names, report, rename_tanks, run_command, answer, after_gather, serve,
  is_command,
}

-- All four names have 22 characters, as the columns of the reports want.
abbrev pub NamesFit : Tanks → Type 0
NamesFit s =
    (length s.tank1.product ≡ 22)
    × (length s.tank2.product ≡ 22)
    × (length s.tank3.product ≡ 22)
    × (length s.tank4.product ≡ 22)

length-fit_name : (name : Bytes) → length (fit_name name) ≡ 22
unfolding fit_name
length-fit_name name = ground (
  arith,
  length-ljust 22 b' ' name,
  length-take 20 name,
  length-append (take 20 name) (codes "  "),
)

length-name_in :
    (cmd name : Bytes) (after : Option Bytes) → name_in cmd after ≡ some name → length name ≡ 22
unfolding name_in
length-name_in cmd name none h = cc
length-name_in cmd name (some after) h =
    ground (arith, length-fit_name (strip_right is_line_end (cut cmd after).0))

set_names-NamesFit :
    (cmd name : Bytes) (s t : Tanks)
    → length name ≡ 22
    → NamesFit s
    → set_names cmd name s ≡ some t
    → NamesFit t
unfolding set_names
set_names-NamesFit cmd name s t l fit h = ground arith

-- What a command does to a connection keeps the names in their columns.
abbrev Fits : Connection → Type 0
Fits c = NamesFit c.tanks

put_tanks-Fits :
    (cmd name : Bytes) (found : Option Tanks) (c : Connection)
    → length name ≡ 22
    → set_names cmd name c.tanks ≡ found
    → Fits c
    → Fits (put_tanks found c)
unfolding put_tanks
put_tanks-Fits cmd name none c l e fit = fit
put_tanks-Fits cmd name (some t) c l e fit = set_names-NamesFit cmd name c.tanks t l fit e

put_name-Fits :
    (cmd : Bytes) (found after : Option Bytes) (c : Connection)
    → name_in cmd after ≡ found
    → Fits c
    → Fits (put_name cmd found c)
unfolding put_name
put_name-Fits cmd none after c e fit = fit
put_name-Fits cmd (some name) after c e fit =
    put_tanks-Fits cmd name (set_names cmd name c.tanks) c (length-name_in cmd name after e) refl
      fit

rename_tanks-Fits :
    (cmd response : Bytes) (c : Connection) → Fits c → Fits (rename_tanks cmd response c)
unfolding rename_tanks new_name
rename_tanks-Fits cmd response c fit = elim (Bool-cases (starts_with cmd (codes "S6020"))) [
  | inl renames ↦
      rw renames
        (put_name-Fits cmd (name_in cmd (cut cmd response).1) (cut cmd response).1 c refl fit)
  | inr other ↦ rw other fit
]

reply-Fits :
    (r : Option (Result Bytes)) (cmd response : Bytes) (c : Connection)
    → Fits c
    → Fits (reply r cmd response c).1
unfolding reply
reply-Fits none cmd response c fit = rename_tanks-Fits cmd response c fit
reply-Fits (some (ok text)) cmd response c fit = fit
reply-Fits (some (err e)) cmd response c fit = fit

go_on-Fits :
    (next : Connection → Ended × Connection) (e : Option Exc) (c : Connection)
    → ((c : Connection) → Fits c → Fits (next c).1)
    → Fits c
    → Fits (go_on next (e, c)).1
unfolding go_on
go_on-Fits next none c keep fit = keep c fit
go_on-Fits next (some e) c keep fit = fit

answer-Fits :
    (w : World) (next : Connection → Ended × Connection) (response : Bytes) (c : Connection)
    → ((c : Connection) → Fits c → Fits (next c).1)
    → Fits c
    → Fits (answer w next response c).1
unfolding answer run_command
answer-Fits w next response c keep fit = elim (Bool-cases (is_command response)) [
  | inl valid ↦ rw valid (
      go_on-Fits next _ _ keep (
        reply-Fits (report w (slice 1 7 response) c.tanks) (slice 1 7 response) response
          (record c { events = c.events ++ command (slice 1 7 response) ∷ [] }) fit))
  | inr other ↦ rw other fit
]

after_gather-Fits :
    (w : World) (next : List Bytes → Connection → Ended × Connection)
    (r : Option (Bytes × List Bytes)) (c : Connection)
    → ((left : List Bytes) (c : Connection) → Fits c → Fits (next left c).1)
    → Fits c
    → Fits (after_gather w next r c).1
unfolding after_gather
after_gather-Fits w next none c keep fit = fit
after_gather-Fits w next (some (response, left)) c keep fit =
    answer-Fits w (next left) response c (keep left) fit

-- Whatever a client sends, the names of the tanks keep the 22 characters of their columns.
pub serve-NamesFit :
    (w : World) (fuel : ℕ) (pieces : List Bytes) (c : Connection)
    → NamesFit c.tanks
    → NamesFit (serve w fuel pieces c).1.tanks
unfolding serve
serve-NamesFit w zero pieces c fit = fit
serve-NamesFit w (suc fuel) [] c fit = fit
serve-NamesFit w (suc fuel) ([] ∷ pieces) c fit = fit
serve-NamesFit w (suc fuel) ((b ∷ bs) ∷ pieces) c fit =
    after_gather-Fits w (serve w fuel) (gather (suc (suc (length pieces))) (b ∷ bs) pieces) c
      (serve-NamesFit w fuel) fit
