-- ===== src/Http/Handlers/Quiet.antt =====
-- Everything but `log` leaves the events of a connection as they are.
use conpot.Prelude.{ℕ, zero, suc, ◌≡◌, Option, none, some, List, [], ◌∷◌}
use conpot.Prelude.Bytes.{Bytes, codes}
use conpot.Prelude.Dict.{Dict}
use conpot.Prelude.Exec.{Exec, modify}
use conpot.Prelude.Exec.Keeps.{Keeps, keeps_rules, Keeps-bind}
use conpot.Prelude.Text.{ℤ, pos, negsuc}
use conpot.Http.State.{
  Header, Server, Request, Connection, World, Event, Delay, Fetch, refused, cut, fetched, write,
}
use conpot.Http.Config.{sleep, sleep_within, do_tarpit, delay_for}
use conpot.Http.Wire.{
  add, send_response, send_headers, write_chunk, send_widths, send_remainder, send_trailers,
  send_chunked, send_payload,
}
use conpot.Http.Load.{
  Loaded, status_from_files, status_from_remote, status_answer, status_source, status_round,
  load_status, entity_from_files, entity_answer, entity_source, load_entity,
}
use conpot.Http.Handlers.{
  read_n, read_some, read_length, read_body, send_head, load_page, load_disabled, headers_or_read,
}

module _ (es : List Event) where
  abbrev pub Quiet : Connection → Type 0
  Quiet c = c.events ≡ es

  pub Quiet-write : (text : Bytes) → Keeps Quiet (write text)
  unfolding write modify
  Quiet-write text = record { after = λ c q. q }

  Quiet-sleep : (d : Delay) → Keeps Quiet (sleep d)
  unfolding sleep modify
  Quiet-sleep d = record { after = λ c q. q }

  Quiet-read_n : (n : ℤ) → Keeps Quiet (read_n n)
  unfolding read_n
  Quiet-read_n (pos n) = record { after = λ c q. q }
  Quiet-read_n (negsuc n) = record { after = λ c q. q }

  Quiet-sleep_within : (w : World) (x y : Bytes) → Keeps Quiet (sleep_within w x y)
  unfolding sleep_within
  Quiet-sleep_within w [] y = search keeps_rules
  Quiet-sleep_within w (x ∷ xs) [] = search (keeps_rules, Quiet-sleep)
  Quiet-sleep_within w (x ∷ xs) (y ∷ ys) = search (keeps_rules, Quiet-sleep)

  Quiet-do_tarpit : (w : World) (delay : Bytes) → Keeps Quiet (do_tarpit w delay)
  unfolding do_tarpit
  Quiet-do_tarpit w delay = search Quiet-sleep_within

  Quiet-delay_for :
      (w : World) (server : Server) (node : Option Bytes) → Keeps Quiet (delay_for w server node)
  unfolding delay_for
  Quiet-delay_for w server none = search Quiet-do_tarpit
  Quiet-delay_for w server (some text) = search Quiet-do_tarpit

  Quiet-read_some : (n : Option ℤ) → Keeps Quiet (read_some n)
  Quiet-read_some none = search keeps_rules
  Quiet-read_some (some n) = Quiet-read_n n

  Quiet-read_length : (length : Option Bytes) → Keeps Quiet (read_length length)
  unfolding read_length
  Quiet-read_length none = search keeps_rules
  Quiet-read_length (some []) = search keeps_rules
  Quiet-read_length (some (c ∷ text)) = search (keeps_rules, Quiet-read_some)

  pub Quiet-read_body : (headers : Dict Bytes Bytes) → Keeps Quiet (read_body headers)
  unfolding read_body
  Quiet-read_body headers = search Quiet-read_length

  module _ (w : World) (server : Server) where
    Quiet-status_from_files :
        (status : ℤ) (headers : List Header)
        → Keeps Quiet (status_from_files w server status headers)
    unfolding status_from_files
    Quiet-status_from_files status headers = search keeps_rules

    Quiet-status_answer :
        (fail : List Header → Exec Connection Loaded) (headers : List Header) (answer : Fetch)
        → ((hs : List Header) → Keeps Quiet (fail hs))
        → Keeps Quiet (status_answer w server fail headers answer)
    unfolding status_answer
    Quiet-status_answer fail headers refused k = k headers
    Quiet-status_answer fail headers (cut hs) k = k hs
    Quiet-status_answer fail headers (fetched status hs payload) k = search keeps_rules

    Quiet-status_source :
        (again : Dict Bytes Bytes → List Header → Exec Connection Loaded) (status : ℤ)
        (requeststring : Bytes) (requestheaders : Dict Bytes Bytes) (headers : List Header)
        (method : Bytes) (body proxy : Option Bytes)
        → ((sent : Dict Bytes Bytes) (hs : List Header) → Keeps Quiet (again sent hs))
        → Keeps Quiet (
            status_source w server again status requeststring requestheaders headers method body
              proxy)
    unfolding status_source status_from_remote
    Quiet-status_source again status requeststring requestheaders headers method body none k =
        Quiet-status_from_files status headers
    Quiet-status_source again status requeststring requestheaders headers method body (some target)
          k =
        search (keeps_rules, Quiet-status_answer, k) depth 20

    pub Quiet-load_status :
        (fuel : ℕ) (status : ℤ) (requeststring : Bytes) (requestheaders : Dict Bytes Bytes)
        (headers : List Header) (method : Bytes) (body : Option Bytes)
        → Keeps Quiet
            (load_status w server fuel status requeststring requestheaders headers method body)
    unfolding load_status status_round
    Quiet-load_status zero status requeststring requestheaders headers method body =
        search keeps_rules
    Quiet-load_status (suc fuel) status requeststring requestheaders headers method body =
        Keeps-bind _ _ (Quiet-delay_for w server _) λ _.
          Quiet-status_source _ status requeststring requestheaders headers method body _
            λ sent hs. Quiet-load_status fuel (pos 503) requeststring sent hs (codes "GET") none

    Quiet-entity_from_files :
        (name : Bytes) (headers : List Header)
        → Keeps Quiet (entity_from_files w server name headers)
    unfolding entity_from_files
    Quiet-entity_from_files name headers = search keeps_rules

    Quiet-entity_answer :
        (fuel : ℕ) (requeststring : Bytes) (requestheaders : Dict Bytes Bytes)
        (headers : List Header) (answer : Fetch)
        → Keeps Quiet (entity_answer w server fuel requeststring requestheaders headers answer)
    unfolding entity_answer
    Quiet-entity_answer fuel requeststring requestheaders headers refused = search Quiet-load_status
    Quiet-entity_answer fuel requeststring requestheaders headers (cut hs) =
        search Quiet-load_status
    Quiet-entity_answer fuel requeststring requestheaders headers (fetched status hs payload) =
        search keeps_rules

    Quiet-entity_source :
        (fuel : ℕ) (name requeststring : Bytes) (requestheaders : Dict Bytes Bytes)
        (headers : List Header) (proxy : Option Bytes)
        → Keeps Quiet (entity_source w server fuel name requeststring requestheaders headers proxy)
    unfolding entity_source
    Quiet-entity_source fuel name requeststring requestheaders headers none =
        Quiet-entity_from_files name headers
    Quiet-entity_source fuel name requeststring requestheaders headers (some target) =
        search Quiet-entity_answer

    pub Quiet-load_page :
        (fuel : ℕ) (request : Request) (method : Bytes) (body : Option Bytes)
        → Keeps Quiet (load_page w server fuel request method body)
    unfolding load_page load_entity
    Quiet-load_page fuel request method body =
        search (keeps_rules, Quiet-delay_for, Quiet-entity_source, Quiet-load_status) depth 20

    pub Quiet-load_disabled :
        (fuel : ℕ) (request : Request) → Keeps Quiet (load_disabled w server fuel request)
    unfolding load_disabled
    Quiet-load_disabled fuel request = search Quiet-load_status

    Quiet-send_response :
        (request : Request) (code : ℤ) → Keeps Quiet (send_response w server request code)
    unfolding send_response
    Quiet-send_response request code = search (keeps_rules, Quiet-write)

    Quiet-send_headers :
        (request : Request) (headers : List Header) → Keeps Quiet (send_headers request headers)
    unfolding send_headers
    Quiet-send_headers request [] = search (keeps_rules, Quiet-write)
    Quiet-send_headers request ((name, value) ∷ headers) =
        Keeps-bind _ _ (search (keeps_rules, Quiet-write)) λ _. Quiet-send_headers request headers

    pub Quiet-send_head :
        (request : Request) (loaded : Loaded) → Keeps Quiet (send_head w server request loaded)
    unfolding send_head
    Quiet-send_head request loaded = search (keeps_rules, Quiet-send_response, Quiet-send_headers)

  Quiet-write_chunk : (size bytes : Bytes) → Keeps Quiet (write_chunk size bytes)
  unfolding write_chunk
  Quiet-write_chunk size bytes = search (keeps_rules, Quiet-write)

  Quiet-send_widths :
      (payload : Bytes) (pointer : ℤ) (texts : List Bytes)
      → Keeps Quiet (send_widths payload pointer texts)
  unfolding send_widths
  Quiet-send_widths payload pointer [] = search keeps_rules
  Quiet-send_widths payload pointer (text ∷ texts) = Keeps-bind _ _ (search keeps_rules) λ cwidth.
      Keeps-bind _ _ (search Quiet-write_chunk)
        λ _. Quiet-send_widths payload (add pointer cwidth) texts

  Quiet-send_remainder : (rest : Option (ℕ × Bytes)) → Keeps Quiet (send_remainder rest)
  unfolding send_remainder
  Quiet-send_remainder none = search keeps_rules
  Quiet-send_remainder (some (size, bytes)) = search Quiet-write_chunk

  Quiet-send_trailers : (trailers : List Header) → Keeps Quiet (send_trailers trailers)
  unfolding send_trailers
  Quiet-send_trailers [] = search Quiet-write
  Quiet-send_trailers ((name, value) ∷ trailers) =
      Keeps-bind _ _ (Quiet-write _) λ _. Quiet-send_trailers trailers

  pub Quiet-send_payload :
      (chunks payload : Bytes) (trailers : List Header)
      → Keeps Quiet (send_payload chunks payload trailers)
  unfolding send_payload send_chunked
  Quiet-send_payload chunks payload trailers =
      search
        (keeps_rules, Quiet-write, Quiet-send_widths, Quiet-send_remainder, Quiet-send_trailers)
        depth 20

  pub Quiet-headers_or_read :
      (w : World) (server : Server) (received : Option (Dict Bytes Bytes))
      → Keeps Quiet (headers_or_read w server received)
  unfolding headers_or_read
  Quiet-headers_or_read w server none = record { after = λ c q. q }
  Quiet-headers_or_read w server (some headers) = record { after = λ c q. q }
