-- ===== src/Tests/Http.antt =====
-- conpot/protocols/http at concrete inputs.
use conpot.Prelude.{
  ◌≡◌, refl, true, false, none, some, [], ◌∷◌, ◌++◌, bytes_eq, if◌then◌else◌, arith,
}
use conpot.Prelude.Bytes.{Bytes, codes, ok, err, key_error}
use conpot.Prelude.Exec.{raise}
use conpot.Prelude.Text.{pos, split, int}
use conpot.Prelude.Exec
use conpot.Http.State.{Node, Server, Request, Connection, World, refused, fixed}
use conpot.Http.Config.{delay_for, new_server}
use conpot.Http.Config.Tarpit.{delay_for-new_server}
use conpot.Http.Wire.{crlf, send_chunked}
use conpot.Http.Wire.Chunked.{decode}
use conpot.Http.Wire.Sent.{Widths, trailer_lines, decode-send_chunked}
use conpot.Http.Load.{status_round, load_status}
use conpot.Http.Load.Depth.{load_status-depth}
use conpot.Http.Handlers.{do_get, send_error}
use conpot.Http.Handlers.Events.{Ended, get, do_method-event}

-- No remote system answers, and there are no files; the digit zero and the text "2.5" are numbers.
abbrev world : World
world = record {
  is_float = λ text. if bytes_eq text (codes "0") then true else bytes_eq text (codes "2.5");
  reason = λ code. codes "Not Found";
  now = codes "Thu, 01 Jan 1970 00:00:00 GMT";
  remote = λ target method path body headers. refused;
  status_file = λ status. some (codes "gone");
  htdocs_file = λ name. none;
  tags = λ payload. [];
  get_value = λ key. err key_error;
  evaluate = λ expression. none;
  read_headers = λ text. ([], text);
}

-- A page in chunks, with a delay of its own; a status that another system answers.
abbrev page : Node
page = record {
  name = codes "/index.html";
  alias = [];
  proxy = [];
  tarpit = codes "2.5;x" ∷ [];
  status = [];
  chunks = codes "2,1" ∷ [];
  headers = (codes "Content-Type", codes "text/plain") ∷ [];
  trailers = [];
  triggers = [];
}

abbrev unavailable : Node
unavailable = record {
  name = codes "503";
  alias = [];
  proxy = codes "10.0.0.1" ∷ [];
  tarpit = [];
  status = [];
  chunks = [];
  headers = [];
  trailers = [];
  triggers = [];
}

abbrev server : Server
server = record {
  htdocs = page ∷ [];
  statuscodes = unavailable ∷ [];
  global_headers = (codes "Server", codes "x") ∷ [];
  protocol_version = codes "HTTP/1.1";
  update_header_date = true;
  disable_method_head = false;
  disable_method_trace = true;
  disable_method_options = false;
  tarpit = codes "0";
}

abbrev connection : Connection
connection = record { rfile = []; wfile = []; delays = []; events = [] }

abbrev request : Request
request = record {
  path = codes "/other.html?a=1";
  request_version = codes "HTTP/1.1";
  headers = (codes "content-length", codes "0") ∷ [];
}

delay_for-new_server_example :
    (delay_for world
      (new_server world (page ∷ []) [] ((codes "tarpit", codes "2.5;0") ∷ []) [] (codes "HTTP/1.1"))
      (some (codes "2.5;x"))
      connection).0
    ≡ ok tt
delay_for-new_server_example =
    delay_for-new_server world refl (page ∷ []) [] ((codes "tarpit", codes "2.5;0") ∷ []) []
      (codes "HTTP/1.1") (some (codes "2.5;x")) connection

widths : Widths (split b',' (codes "2,1")) (1 ∷ 0 ∷ [])
unfolding split int
widths = (refl, (refl, tt))

decode-send_chunked_example :
    (text : Bytes) × (send_chunked
        (codes "2,1")
        (codes "abcde")
        ((codes "X", codes "y") ∷ [])
        connection
      ≡ (ok tt, record connection { wfile = connection.wfile ++ text }))
    × (decode 4 text ≡ some (codes "abcde", trailer_lines ((codes "X", codes "y") ∷ [])))
decode-send_chunked_example =
    decode-send_chunked (codes "2,1") (codes "abcde") ((codes "X", codes "y") ∷ []) (1 ∷ 0 ∷ [])
      connection widths (omega arith)

load_status-depth_example :
    load_status world server 5 (pos 503) (codes "/a") [] [] (codes "GET") none
    ≡ status_round world server
        (λ sent hs.
          status_round world server
            (λ sent' hs'. raise key_error)
            (pos 503)
            (codes "/a")
            sent
            hs
            (codes "GET")
            none)
        (pos 503)
        (codes "/a")
        []
        []
        (codes "GET")
        none
load_status-depth_example =
    load_status-depth world server (codes "/a") (λ sent' hs'. raise key_error) 3 (pos 503) [] []
      (codes "GET") none

do_method-event_example :
    Ended
      (some request.path)
      []
      (do_get world server 2 request connection).0
      (do_get world server 2 request connection).1.events
    × Ended none []
        (send_error world server 2 (pos 400) (codes "HTTP/1.1") none none connection).0
        (send_error world server 2 (pos 400) (codes "HTTP/1.1") none none connection).1.events
do_method-event_example =
    do_method-event get world server 2 request (pos 400) (codes "HTTP/1.1") none none connection

-- A missing page: the file of the status 404, after the delay of the server.
missing_page : (do_get world server 2 request connection).1 ≡ record connection {
  wfile =
      codes "HTTP/1.1 404 Not Found"
      ++ crlf
      ++ codes "Server: x"
      ++ crlf
      ++ codes "Content-Length: 4"
      ++ crlf
      ++ crlf
      ++ codes "gone";
  delays = fixed (codes "0") ∷ [];
  events = record { path = some request.path; body = some []; response = some (pos 404) } ∷ [];
}
unfolding do_get Exec.◌>>=◌
missing_page = refl

-- The configured status 503 is asked of another system, in vain.
minimal_503 :
    (load_status world server 2 (pos 503) (codes "/a") [] [] (codes "GET") none connection).0
    ≡ ok (record {
      status = pos 503;
      headers = (codes "Content-Length", codes "0") ∷ [];
      trailers = [];
      payload = [];
      chunks = codes "0";
    })
unfolding load_status Exec.◌>>=◌
minimal_503 = refl

-- The chunks of a page, with the empty text behind the last.
page_in_chunks :
    (do_get
      (record world { htdocs_file = λ name. some (codes "abc") })
      server
      2
      (record request { path = page.name })
      connection).1.wfile
    ≡ codes "HTTP/1.1 200 Not Found"
      ++ crlf
      ++ codes "Server: x"
      ++ crlf
      ++ codes "Content-Type: text/plain"
      ++ crlf
      ++ codes "Transfer-Encoding: chunked"
      ++ crlf
      ++ crlf
      ++ codes "2"
      ++ crlf
      ++ codes "ab"
      ++ crlf
      ++ codes "1"
      ++ crlf
      ++ codes "c"
      ++ crlf
      ++ codes "0"
      ++ crlf
      ++ crlf
unfolding do_get Exec.◌>>=◌
page_in_chunks = refl
