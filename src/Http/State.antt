-- ===== src/Http/State.antt =====
-- command_responder.py: the configuration, a request, a connection, and what the standard library and
-- other systems give.
use conpot.Prelude.{Bool, Option, List, ◌++◌}
use conpot.Prelude.Bytes.{Bytes, Result}
use conpot.Prelude.Dict.{Dict}
use conpot.Prelude.Exec.{Exec, modify}
use conpot.Prelude.Text.{ℤ}

-- A name and a value.
abbrev pub Header : Type 0
Header = Bytes × Bytes

pub record Trigger : Type 0 where
  pub text : Bytes
  pub appendix : Bytes

-- A node of `htdocs` or a status of `statuscodes`: the texts of its elements, in the order of the
-- template.
pub record Node : Type 0 where
  pub name : Bytes
  pub alias : List Bytes
  pub proxy : List Bytes
  pub tarpit : List Bytes
  pub status : List Bytes
  pub chunks : List Bytes
  pub headers : List Header
  pub trailers : List Header
  pub triggers : List Trigger

-- `SubHTTPServer`
pub record Server : Type 0 where
  pub htdocs : List Node
  pub statuscodes : List Node
  pub global_headers : List Header
  pub protocol_version : Bytes
  pub update_header_date : Bool
  pub disable_method_head : Bool
  pub disable_method_trace : Bool
  pub disable_method_options : Bool
  pub tarpit : Bytes

-- A request; the names of its headers are in lower case.
pub record Request : Type 0 where
  pub path : Bytes
  pub request_version : Bytes
  pub headers : Dict Bytes Bytes

-- `time.sleep(float(x))`, and a time between two bounds. A float stands as its text.
pub data Delay : Type 0 where
  fixed : Bytes → Delay
  between : Bytes → Bytes → Delay

-- `session.add_event`: path and body of a request, and the status that was sent.
pub record Event : Type 0 where
  pub path : Option Bytes
  pub body : Option Bytes
  pub response : Option ℤ

-- What is left to read, what was written, the delays and the events.
pub record Connection : Type 0 where
  pub rfile : Bytes
  pub wfile : Bytes
  pub delays : List Delay
  pub events : List Event

-- A start tag that is closed at once, with its attributes.
pub record Tag : Type 0 where
  pub name : Bytes
  pub attrs : List (Bytes × Option Bytes)

-- How a request to a remote system ends: an exception before its headers are there or behind them,
-- or an answer.
pub data Fetch : Type 0 where
  refused : Fetch
  cut : List Header → Fetch
  fetched : ℤ → List Header → Bytes → Fetch

-- What the standard library, the file system, the databus and remote systems give: `is_float` whether
-- `float` takes a text, `reason` the texts of `responses`, `evaluate` the text of an expression, which
-- may raise, and `read_headers` the headers at the start of a text.
pub record World : Type 0 where
  pub is_float : Bytes → Bool
  pub reason : ℤ → Bytes
  pub now : Bytes
  pub remote : Bytes → Bytes → Bytes → Option Bytes → Dict Bytes Bytes → Fetch
  pub status_file : Bytes → Option Bytes
  pub htdocs_file : Bytes → Option Bytes
  pub tags : Bytes → List Tag
  pub get_value : Bytes → Result Bytes
  pub evaluate : Bytes → Option Bytes
  pub read_headers : Bytes → Dict Bytes Bytes × Bytes

-- `self.wfile.write(text)`
unfoldable pub write : Bytes → Exec Connection (Unit {0})
write text = modify λ c. record c { wfile = c.wfile ++ text }
