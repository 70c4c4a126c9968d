-- ===== src/Http/Handlers.antt =====
-- command_responder.py: the handlers of the methods, and `send_error`.
pub mod Quiet
pub mod Events
use conpot.Prelude.{
  ℕ, Bool, true, false, Option, none, some, List, [], ◌∷◌, ◌++◌, take, drop, ◌==◌, bytes_eq,
  list_eq, if◌then◌else◌,
}
use conpot.Prelude.Bytes.{Bytes, codes, Result, ok, err, value_error}
use conpot.Prelude.Dict
use conpot.Prelude.Dict.{Dict}
use conpot.Prelude.Exec.{Exec, pure, lift, raise, modify, ◌>>=◌, ◌>>◌}
use conpot.Prelude.Text.{ℤ, pos, negsuc, int, partition}
use conpot.Http.State.{Header, Server, Request, Connection, World, Event, write}
use conpot.Http.Config.{has_node}
use conpot.Http.Wire.{send_response, send_headers, send_payload}
use conpot.Http.Load.{Loaded, load_status, load_entity, is_status}

-- `self.rfile.read(n)`: a negative number reads all.
unfoldable pub read_n : ℤ → Exec Connection Bytes
read_n (pos n) c = (ok (take n c.rfile), record c { rfile = drop n c.rfile })
read_n (negsuc n) c = (ok c.rfile, record c { rfile = [] })

abbrev pub read_some : Option ℤ → Exec Connection Bytes
read_some none = raise value_error
read_some (some n) = read_n n

-- The body of a request with a length; an empty text is no length.
unfoldable pub read_length : Option Bytes → Exec Connection (Option Bytes)
unfolding read_n int
read_length none = pure none
read_length (some []) = pure none
read_length (some (c ∷ text)) = do body ← read_some (int (c ∷ text)); pure (some body)

unfoldable pub read_body : Dict Bytes Bytes → Exec Connection (Option Bytes)
unfolding read_length Dict.get
read_body headers = read_length (Dict.get (codes "content-length") headers)

-- `if response`
abbrev pub response_of : ℤ → Option ℤ
response_of status = if is_status 0 status then none else some status

-- `log`: the event of the session; the log file is left out.
unfoldable pub log : Option Bytes → Option Bytes → ℤ → Exec Connection (Unit {0})
log path body status = modify λ c. record c {
  events = c.events ++ record { path = path; body = body; response = response_of status } ∷ [];
}

module _ (w : World) (server : Server) where
  -- The status line and the headers of what was loaded.
  unfoldable pub send_head : Request → Loaded → Exec Connection (Unit {0})
  unfolding send_response send_headers
  send_head request loaded = do
    send_response w server request loaded.status
    send_headers request loaded.headers

  -- What GET, HEAD and POST load for a path.
  unfoldable pub load_page : ℕ → Request → Bytes → Option Bytes → Exec Connection Loaded
  unfolding has_node partition load_entity load_status
  load_page fuel request method body =
      if has_node (partition b'?' request.path).0 server.htdocs
      then load_entity w server fuel request.path request.headers server.global_headers
      else load_status w server fuel (pos 404) request.path request.headers server.global_headers
          method body

  -- `load_status(501, …)`
  unfoldable pub load_disabled : ℕ → Request → Exec Connection Loaded
  unfolding load_status
  load_disabled fuel request =
      load_status w server fuel (pos 501) request.path request.headers server.global_headers
        (codes "GET") none

  unfoldable pub do_get : ℕ → Request → Exec Connection (Unit {0})
  unfolding read_body load_page send_head send_payload log
  do_get fuel request = do
    body ← read_body request.headers
    loaded ← load_page fuel request (codes "GET") none
    send_head request loaded
    send_payload loaded.chunks loaded.payload loaded.trailers
    log (some request.path) body loaded.status

  unfoldable pub do_post : ℕ → Request → Exec Connection (Unit {0})
  unfolding read_body load_page send_head send_payload log
  do_post fuel request = do
    body ← read_body request.headers
    loaded ← load_page fuel request (codes "POST") body
    send_head request loaded
    send_payload loaded.chunks loaded.payload loaded.trailers
    log (some request.path) body loaded.status

  unfoldable pub do_head : ℕ → Request → Exec Connection (Unit {0})
  unfolding read_body load_page load_disabled send_head log
  do_head fuel request = do
    body ← read_body request.headers
    loaded ←
        (if server.disable_method_head
          then load_disabled fuel request
          else load_page fuel request (codes "GET") none)
    send_head request loaded
    log (some request.path) body loaded.status

  -- The names and the texts of the headers of a request, as TRACE sends them back.
  unfoldable pub echo : Dict Bytes Bytes → Bytes
  echo [] = []
  echo ((name, value) ∷ headers) = name ++ b':' ∷ 32 ∷ value ++ 10 ∷ echo headers

  unfoldable pub traced : Request → Loaded
  unfolding echo
  traced request = record {
    status = pos 200;
    headers = server.global_headers ++ (codes "Content-Type", codes "message/http") ∷ [];
    trailers = [];
    payload = echo request.headers;
    chunks = [];
  }

  unfoldable pub do_trace : ℕ → Request → Exec Connection (Unit {0})
  unfolding read_body load_disabled traced send_head log write
  do_trace fuel request = do
    body ← read_body request.headers
    loaded ←
        (if server.disable_method_trace then load_disabled fuel request else pure (traced request))
    send_head request loaded
    write loaded.payload
    log (some request.path) body loaded.status

  unfoldable pub allowed_methods : Bytes
  allowed_methods =
      codes "GET"
      ++ (if server.disable_method_head then [] else codes ",HEAD")
      ++ codes ",POST,OPTIONS"
      ++ (if server.disable_method_trace then [] else codes ",TRACE")

  unfoldable pub options : Loaded
  unfolding allowed_methods
  options = record {
    status = pos 200;
    headers =
        server.global_headers
        ++ (codes "Allow", allowed_methods)
          ∷ (codes "Content-Length", codes "0")
          ∷ (codes "Connection", codes "close")
          ∷ (codes "Content-Type", codes "text/html")
          ∷ [];
    trailers = [];
    payload = [];
    chunks = [];
  }

  unfoldable pub do_options : ℕ → Request → Exec Connection (Unit {0})
  unfolding read_body load_disabled options send_head log
  do_options fuel request = do
    body ← read_body request.headers
    loaded ← (if server.disable_method_options then load_disabled fuel request else pure options)
    send_head request loaded
    log (some request.path) body loaded.status

  -- `if not hasattr(self, 'headers'): self.headers = self.MessageClass(self.rfile, 0)`
  unfoldable pub headers_or_read : Option (Dict Bytes Bytes) → Exec Connection (Dict Bytes Bytes)
  headers_or_read none c =
      let (headers, left) = w.read_headers c.rfile in (ok headers, record c { rfile = left })
  headers_or_read (some headers) c = (ok headers, c)

  abbrev path_or_empty : Option Bytes → Bytes
  path_or_empty none = []
  path_or_empty (some path) = path

  -- `send_error`; the path and the headers may not be known yet.
  unfoldable pub send_error :
      ℕ → ℤ → Bytes → Option Bytes → Option (Dict Bytes Bytes) → Exec Connection (Unit {0})
  unfolding headers_or_read read_body load_status partition send_head send_payload log
  send_error fuel code version path received = do
    headers ← headers_or_read received
    body ← read_body headers
    loaded ←
        load_status w server fuel code (partition b'?' (path_or_empty path)).0 headers
          server.global_headers (codes "GET") none
    send_head (record { path = path_or_empty path; request_version = version; headers = headers })
        loaded
    send_payload loaded.chunks loaded.payload loaded.trailers
    log path body loaded.status
