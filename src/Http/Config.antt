-- ===== src/Http/Config.antt =====
-- command_responder.py: what the template says of a node, and the delays. An element that is looked up
-- has a text, and a name has no quotation mark.
pub mod Tarpit
use conpot.Prelude.{
  ℕ, Bool, true, false, ◌&&◌, Option, none, some, List, [], ◌∷◌, ◌++◌, bytes_eq, if◌then◌else◌,
}
use conpot.Prelude.Bytes.{Bytes, codes, Result, ok, err, value_error}
use conpot.Prelude.Exec.{Exec, pure, raise, modify, ◌>>=◌, ◌>>◌}
use conpot.Prelude.Text.{split, partition, lower}
use conpot.Http.State.{Header, Trigger, Node, Server, Connection, Delay, fixed, between, World}

-- `xpath('…[@name="name"]/…')`: the elements of all nodes of a name.
unfoldable pub elements : {A : Type 0} → (Node → List A) → Bytes → List Node → List A
elements get name [] = []
elements get name (n ∷ ns) =
    let rest = elements get name ns in if bytes_eq n.name name then get n ++ rest else rest

-- Whether there is a node of a name.
unfoldable pub has_node : Bytes → List Node → Bool
has_node name [] = false
has_node name (n ∷ ns) = let rest = has_node name ns in if bytes_eq n.name name then true else rest

abbrev pub first : {A : Type 0} → List A → Option A
first [] = none
first (x ∷ xs) = some x

abbrev pub is_in : Bytes → List Bytes → Bool
is_in text [] = false
is_in text (t ∷ ts) = let rest = is_in text ts in if bytes_eq t text then true else rest

-- `not trigger_missed`
unfoldable pub all_in : List Bytes → List Bytes → Bool
all_in [] paramlist = true
all_in (trigger ∷ triggers) paramlist = is_in trigger paramlist && all_in triggers paramlist

-- The loop over the triggers of a node.
unfoldable pub first_trigger : List Trigger → List Bytes → Option Bytes
unfolding all_in split
first_trigger [] paramlist = none
first_trigger (t ∷ ts) paramlist =
    let rest = first_trigger ts paramlist in
    if all_in (split b';' t.text) paramlist then some t.appendix else rest

unfoldable pub get_trigger_appendix : Bytes → Bytes → Server → Option Bytes
unfolding first_trigger elements split
get_trigger_appendix rqfilename rqparams server =
    first_trigger (elements (λ n. n.triggers) rqfilename server.htdocs) (split b'&' rqparams)

unfoldable pub get_entity_headers : Bytes → List Header → Server → List Header
unfolding elements
get_entity_headers rqfilename headers server =
    headers ++ elements (λ n. n.headers) rqfilename server.htdocs

unfoldable pub get_entity_trailers : Bytes → Server → List Header
unfolding elements
get_entity_trailers rqfilename server = elements (λ n. n.trailers) rqfilename server.htdocs

unfoldable pub get_status_headers : Bytes → List Header → Server → List Header
unfolding elements
get_status_headers status headers server =
    headers ++ elements (λ n. n.headers) status server.statuscodes

unfoldable pub get_status_trailers : Bytes → Server → List Header
unfolding elements
get_status_trailers status server = elements (λ n. n.trailers) status server.statuscodes

unfoldable pub config_sanitize_tarpit : World → Option Bytes → Bytes
unfolding partition
config_sanitize_tarpit w none = codes "0;0"
config_sanitize_tarpit w (some value) =
    let (x, y) = partition b';' value in
    if w.is_float x then (if w.is_float y then value else x) else codes "0;0"

-- `gevent.sleep`
unfoldable pub sleep : Delay → Exec Connection (Unit {0})
sleep d = modify λ c. record c { delays = c.delays ++ d ∷ [] }

-- A delay with the bounds of its text.
unfoldable pub sleep_within : World → Bytes → Bytes → Exec Connection (Unit {0})
unfolding sleep
sleep_within w [] ubound = pure tt
sleep_within w (l ∷ ls) [] =
    if w.is_float (l ∷ ls) then sleep (fixed (l ∷ ls)) else raise value_error
sleep_within w (l ∷ ls) (u ∷ us) =
    if w.is_float (l ∷ ls) && w.is_float (u ∷ us)
    then sleep (between (l ∷ ls) (u ∷ us))
    else raise value_error

unfoldable pub do_tarpit : World → Bytes → Exec Connection (Unit {0})
unfolding sleep_within partition
do_tarpit w delay = let (lbound, ubound) = partition b';' delay in sleep_within w lbound ubound

-- The delay of a node, or else that of the server.
unfoldable pub delay_for : World → Server → Option Bytes → Exec Connection (Unit {0})
unfolding do_tarpit config_sanitize_tarpit
delay_for w server none = do_tarpit w server.tarpit
delay_for w server (some text) = do_tarpit w (config_sanitize_tarpit w (some text))

-- `entity.text.lower() == 'false'` and `'true'`; any other text changes nothing.
unfoldable pub read_flag : Bytes → Bool → Bool
unfolding lower
read_flag text old =
    if bytes_eq (lower text) (codes "false")
    then false
    else if bytes_eq (lower text) (codes "true")
    then true
    else old

-- One entity of the global configuration.
unfoldable pub configure_entity : World → Bytes → Bytes → Server → Server
unfolding read_flag config_sanitize_tarpit
configure_entity w name text s =
    if bytes_eq name (codes "protocol_version")
    then record s { protocol_version = text }
    else if bytes_eq name (codes "update_header_date")
    then record s { update_header_date = read_flag text s.update_header_date }
    else if bytes_eq name (codes "disable_method_head")
    then record s { disable_method_head = read_flag text s.disable_method_head }
    else if bytes_eq name (codes "disable_method_trace")
    then record s { disable_method_trace = read_flag text s.disable_method_trace }
    else if bytes_eq name (codes "disable_method_options")
    then record s { disable_method_options = read_flag text s.disable_method_options }
    else if bytes_eq name (codes "tarpit")
    then record s {
      tarpit = if bytes_eq text [] then s.tarpit else config_sanitize_tarpit w (some text);
    }
    else s

unfoldable pub configure : World → List (Bytes × Bytes) → Server → Server
unfolding configure_entity
configure w [] s = s
configure w ((name, text) ∷ entities) s = configure w entities (configure_entity w name text s)

-- The global headers; a date is set to the time of the start.
unfoldable pub make_global_headers : World → Bool → List Header → List Header
unfolding lower
make_global_headers w update_date [] = []
make_global_headers w update_date ((name, text) ∷ headers) =
    (name, if bytes_eq (lower name) (codes "date") && update_date then w.now else text)
    ∷ make_global_headers w update_date headers

-- `SubHTTPServer.__init__`: the defaults, the configuration and the global headers.
unfoldable pub new_server :
    World → List Node → List Node → List (Bytes × Bytes) → List Header → Bytes → Server
unfolding configure make_global_headers
new_server w htdocs statuscodes entities headers protocol_version =
    let s = configure w entities (record {
      htdocs = htdocs;
      statuscodes = statuscodes;
      global_headers = [];
      protocol_version = protocol_version;
      update_header_date = true;
      disable_method_head = false;
      disable_method_trace = false;
      disable_method_options = false;
      tarpit = codes "0";
    }) in
    record s { global_headers = make_global_headers w s.update_header_date headers }
