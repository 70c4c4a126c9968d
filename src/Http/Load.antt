-- ===== src/Http/Load.antt =====
-- command_responder.py: the status, the headers and the payload of a node or of a status code.
pub mod Depth
use conpot.Prelude.{
  ℕ, zero, suc, ◌-◌, Bool, true, false, ◌&&◌, ◌||◌, Option, none, some, List, [], ◌∷◌, ◌++◌, length,
  drop, ◌==◌, bytes_eq, list_eq, if◌then◌else◌,
}
use conpot.Prelude.Bytes.{Bytes, codes, Result, ok, err, exception, value_error}
use conpot.Prelude.Dict
use conpot.Prelude.Dict.{Dict}
use conpot.Prelude.Exec.{Exec, pure, lift, raise, ◌>>=◌, ◌>>◌}
use conpot.Prelude.Text.{ℤ, pos, negsuc, int, str_int, decimal, lower, partition}
use conpot.Http.State.{
  Header, Node, Server, Request, Connection, World, Fetch, refused, cut, fetched,
}
use conpot.Http.Config.{
  elements, first, get_trigger_appendix, get_entity_headers, get_entity_trailers,
  get_status_headers, get_status_trailers, delay_for,
}
use conpot.Http.Template.{substitute_template_fields}

-- `status, headers, trailers, payload, chunks`
pub record Loaded : Type 0 where
  pub status : ℤ
  pub headers : List Header
  pub trailers : List Header
  pub payload : Bytes
  pub chunks : Bytes

-- The header that says how the payload is sent, and the chunks.
unfoldable pub transport : Option Bytes → Bytes → Header × Bytes
unfolding decimal
transport none payload = ((codes "Content-Length", decimal (length payload)), codes "0")
transport (some chunks) payload = ((codes "Transfer-Encoding", codes "chunked"), chunks)

abbrev or_empty : Option Bytes → Bytes
or_empty none = []
or_empty (some text) = text

-- A payload from the file system with the headers before it.
unfoldable pub deliver : ℤ → List Header → List Header → Bytes → Option Bytes → Loaded
unfolding transport
deliver status headers trailers payload chunked =
    let (header, chunks) = transport chunked payload in
    record {
      status = status;
      headers = headers ++ header ∷ [];
      trailers = trailers;
      payload = payload;
      chunks = chunks;
    }

-- The first header that says that the payload is chunked is left out.
unfoldable pub drop_chunked : List Header → List Header
unfolding lower
drop_chunked [] = []
drop_chunked ((name, value) ∷ headers) =
    let rest = drop_chunked headers in
    if bytes_eq (lower name) (codes "transfer-encoding") && bytes_eq (lower value) (codes "chunked")
    then headers
    else (name, value) ∷ rest

abbrev pub is_status : ℕ → ℤ → Bool
is_status n (pos m) = m == n
is_status n (negsuc m) = false

module _ (w : World) (server : Server) where
  -- The branch of `load_status` for the file system. The chunks are looked up among the nodes.
  unfoldable pub status_from_files : ℤ → List Header → Exec Connection Loaded
  unfolding deliver elements get_status_headers get_status_trailers substitute_template_fields
      str_int
  status_from_files status headers = do
    payload ← lift (substitute_template_fields w (or_empty (w.status_file (str_int status))))
    pure (
        deliver status (get_status_headers (str_int status) headers server)
          (get_status_trailers (str_int status) server) payload
          (first (elements (λ n. n.chunks) (str_int status) server.htdocs)))

  -- The answer with status 503 that needs no configuration.
  unfoldable pub minimal : List Header → Loaded
  minimal headers = record {
    status = pos 503;
    headers = headers ++ (codes "Content-Length", codes "0") ∷ [];
    trailers = [];
    payload = [];
    chunks = codes "0";
  }

  -- What a remote system answers for a status code; `fail` is what is done with an exception.
  unfoldable pub status_answer :
      (List Header → Exec Connection Loaded) → List Header → Fetch → Exec Connection Loaded
  unfolding drop_chunked
  status_answer fail headers refused = fail headers
  status_answer fail headers (cut hs) = fail hs
  status_answer fail headers (fetched remotestatus hs payload) = pure (record {
    status = remotestatus;
    headers = drop_chunked hs;
    trailers = [];
    payload = payload;
    chunks = codes "0";
  })

  -- The branch of `load_status` for a remote system, with what it does when that fails.
  unfoldable pub status_from_remote :
      (Dict Bytes Bytes → List Header → Exec Connection Loaded)
      → ℤ
      → Bytes
      → Bytes
      → Dict Bytes Bytes
      → List Header
      → Bytes
      → Option Bytes
      → Exec Connection Loaded
  unfolding minimal status_answer Dict.put
  status_from_remote again status target requeststring requestheaders headers method body =
      let sent =
        Dict.put (codes "connection") (codes "close")
          (Dict.put (codes "host") target requestheaders) in
      status_answer (λ hs. if is_status 503 status then pure (minimal hs) else again sent hs)
        headers (w.remote target method requeststring body sent)

  -- The source of a status code: the file system, or a remote system.
  unfoldable pub status_source :
      (Dict Bytes Bytes → List Header → Exec Connection Loaded)
      → ℤ
      → Bytes
      → Dict Bytes Bytes
      → List Header
      → Bytes
      → Option Bytes
      → Option Bytes
      → Exec Connection Loaded
  unfolding status_from_files status_from_remote
  status_source again status requeststring requestheaders headers method body none =
      status_from_files status headers
  status_source again status requeststring requestheaders headers method body (some target) =
      status_from_remote again status target requeststring requestheaders headers method body

  -- One call of `load_status`.
  unfoldable pub status_round :
      (Dict Bytes Bytes → List Header → Exec Connection Loaded)
      → ℤ
      → Bytes
      → Dict Bytes Bytes
      → List Header
      → Bytes
      → Option Bytes
      → Exec Connection Loaded
  unfolding elements delay_for status_source str_int
  status_round again status requeststring requestheaders headers method body = do
    delay_for w server (first (elements (λ n. n.tarpit) (str_int status) server.statuscodes))
    status_source again status requeststring requestheaders headers method body
        (first (elements (λ n. n.proxy) (str_int status) server.statuscodes))

  -- `load_status`; the fuel is the depth of calls that Python allows.
  unfoldable pub load_status :
      ℕ → ℤ → Bytes → Dict Bytes Bytes → List Header → Bytes → Option Bytes → Exec Connection Loaded
  unfolding status_round
  load_status zero status requeststring requestheaders headers method body = raise exception
  load_status (suc fuel) status requeststring requestheaders headers method body =
      status_round (λ sent hs. load_status fuel (pos 503) requeststring sent hs (codes "GET") none)
        status requeststring requestheaders headers method body

  -- `templated`
  unfoldable pub is_html : List Header → Bool
  unfolding lower
  is_html [] = false
  is_html ((name, value) ∷ headers) =
      (bytes_eq (lower name) (codes "content-type") && bytes_eq (lower value) (codes "text/html"))
      || is_html headers

  abbrev or_ok : Option Bytes → Result ℤ
  or_ok none = ok (pos 200)
  or_ok (some text) = elim (int text) [ none ↦ err value_error | some n ↦ ok n ]

  -- The name of the file below `htdocs`.
  abbrev relative : Bytes → Bytes
  relative [] = []
  relative (c ∷ name) = if c == b'/' then name else c ∷ name

  -- The payload of a file, with the tags of a page replaced.
  unfoldable pub file_payload : Bytes → List Header → Result Bytes
  unfolding is_html substitute_template_fields
  file_payload rqfilename headers =
      let payload = or_empty (w.htdocs_file (relative rqfilename)) in
      if is_html headers then substitute_template_fields w payload else ok payload

  -- The branch of `load_entity` for the file system.
  unfoldable pub entity_from_files : Bytes → List Header → Exec Connection Loaded
  unfolding deliver elements get_entity_headers get_entity_trailers int file_payload
  entity_from_files rqfilename headers = do
    status ← lift (or_ok (first (elements (λ n. n.status) rqfilename server.htdocs)))
    let headers' = get_entity_headers rqfilename headers server
    payload ← lift (file_payload rqfilename headers')
    pure (
        deliver status headers' (get_entity_trailers rqfilename server) payload
          (first (elements (λ n. n.chunks) rqfilename server.htdocs)))

  -- What a remote system answers for a node; an exception gives the status 503.
  unfoldable pub entity_answer :
      ℕ → Bytes → Dict Bytes Bytes → List Header → Fetch → Exec Connection Loaded
  unfolding load_status
  entity_answer fuel requeststring requestheaders headers refused =
      load_status fuel (pos 503) requeststring requestheaders headers (codes "GET") none
  entity_answer fuel requeststring requestheaders headers (cut hs) =
      load_status fuel (pos 503) requeststring requestheaders hs (codes "GET") none
  entity_answer fuel requeststring requestheaders headers (fetched status hs payload) =
      pure (record {
        status = status;
        headers = hs;
        trailers = [];
        payload = payload;
        chunks = codes "0";
      })

  -- The source of a node: the file system, or a remote system.
  unfoldable pub entity_source :
      ℕ → Bytes → Bytes → Dict Bytes Bytes → List Header → Option Bytes → Exec Connection Loaded
  unfolding entity_from_files entity_answer
  entity_source fuel name requeststring requestheaders headers none = entity_from_files name headers
  entity_source fuel name requeststring requestheaders headers (some target) =
      entity_answer fuel requeststring requestheaders headers
        (w.remote target (codes "GET") requeststring none [])

  -- The name after the alias and the trigger of a node.
  unfoldable pub entity_name : Bytes → Bytes
  unfolding partition elements get_trigger_appendix
  entity_name requeststring =
      let (rqfilename, rqparams) = partition b'?' requeststring in
      let name : Bytes = (elim (first (elements (λ n. n.alias) rqfilename server.htdocs)) [
        | none ↦ rqfilename
        | some alias ↦ alias
      ]) in
      elim (get_trigger_appendix name rqparams server) [
        | none ↦ name
        | some appendix ↦ if bytes_eq appendix [] then name else name ++ b'_' ∷ appendix
      ]

  unfoldable pub load_entity : ℕ → Bytes → Dict Bytes Bytes → List Header → Exec Connection Loaded
  unfolding entity_name elements delay_for entity_source
  load_entity fuel requeststring requestheaders headers = do
    let name = entity_name requeststring
    delay_for w server (first (elements (λ n. n.tarpit) name server.htdocs))
    entity_source fuel name requeststring requestheaders headers
        (first (elements (λ n. n.proxy) name server.htdocs))
