-- ===== src/Http/Wire.antt =====
-- command_responder.py: the status line, the headers and the body as they are written.
pub mod Chunked
pub mod Sent
use conpot.Prelude.{
  ℕ, zero, suc, ◌+◌, ◌-◌, ◌/◌, ◌%◌, ◌<◌, Bool, true, false, Option, none, some, List, [], ◌∷◌, ◌++◌,
  length, take, drop, slice, ltb, bytes_eq, if◌then◌else◌,
}
use conpot.Prelude.Bytes.{Bytes, codes, Result, ok, err, value_error}
use conpot.Prelude.Exec.{Exec, pure, lift, raise, ◌>>=◌, ◌>>◌, when}
use conpot.Prelude.Text.{ℤ, pos, negsuc, int, str_int, split}
use conpot.Http.State.{Header, Server, Request, Connection, World, write}

abbrev pub crlf : Bytes
crlf = 13 ∷ 10 ∷ []

abbrev pub hex_digit : ℕ → ℕ
hex_digit n = if ltb n 10 then b'0' + n else b'A' + (n - 10)

-- The last digit is put down first. The fuel is more than the number.
unfoldable pub put_hex : ℕ → ℕ → Bytes → Bytes
put_hex zero n out = out
put_hex (suc fuel) n out =
    let rest = put_hex fuel (n / 16) (hex_digit (n % 16) ∷ out) in
    if ltb n 16 then hex_digit n ∷ out else rest

-- `format(n, 'x').upper()`
unfoldable pub hex : ℕ → Bytes
unfolding put_hex
hex n = put_hex (suc n) n []

unfoldable pub hex_int : ℤ → Bytes
unfolding hex
hex_int (pos n) = hex n
hex_int (negsuc n) = b'-' ∷ hex (suc n)

-- The sum of two integers.
unfoldable pub add : ℤ → ℤ → ℤ
add (pos a) (pos b) = pos (a + b)
add (pos a) (negsuc b) = if ltb b a then pos (a - suc b) else negsuc (b - a)
add (negsuc a) (pos b) = if ltb a b then pos (b - suc a) else negsuc (a - b)
add (negsuc a) (negsuc b) = negsuc (a + b + 1)

-- The place of an index of a slice: a negative one counts from the end.
abbrev pub place : ℕ → ℤ → ℕ
place len (pos n) = n
place len (negsuc n) = len - suc n

-- `payload[i:j]`
abbrev pub span : Bytes → ℤ → ℤ → Bytes
span payload i j = slice (place (length payload) i) (place (length payload) j) payload

-- `send_response`; the log is left out.
unfoldable pub send_response : World → Server → Request → ℤ → Exec Connection (Unit {0})
unfolding write str_int
send_response w server request code =
    if bytes_eq request.request_version (codes "HTTP/0.9")
    then pure tt
    else write (server.protocol_version ++ 32 ∷ str_int code ++ 32 ∷ w.reason code ++ crlf)

-- `self.send_header(name, value)` for each header, and `self.end_headers()`
unfoldable pub send_headers : Request → List Header → Exec Connection (Unit {0})
unfolding write
send_headers request [] =
    if bytes_eq request.request_version (codes "HTTP/0.9") then pure tt else write crlf
send_headers request ((name, value) ∷ headers) =
    let here =
      if bytes_eq request.request_version (codes "HTTP/0.9")
      then pure tt
      else write (name ++ b':' ∷ 32 ∷ value ++ crlf) in
    here >>= λ _. send_headers request headers

-- A chunk: its size, and its bytes.
unfoldable pub write_chunk : Bytes → Bytes → Exec Connection (Unit {0})
unfolding write
write_chunk size bytes = do write (size ++ crlf); write (bytes ++ crlf)

abbrev pub width_of : Option ℤ → Result ℤ
width_of none = err value_error
width_of (some n) = ok n

-- The loop over the widths; the result is the pointer.
unfoldable pub send_widths : Bytes → ℤ → List Bytes → Exec Connection ℤ
unfolding write_chunk int hex_int add
send_widths payload pointer [] = pure pointer
send_widths payload pointer (text ∷ texts) = do
  cwidth ← lift (width_of (int text))
  write_chunk (hex_int cwidth) (span payload pointer (add pointer cwidth))
  send_widths payload (add pointer cwidth) texts

-- What is left of a payload, if the pointer is not at its end or behind it: its size and its bytes.
abbrev pub remainder : Bytes → ℤ → Option (ℕ × Bytes)
remainder payload (pos n) =
    if ltb n (length payload) then some (length payload - n, drop n payload) else none
remainder payload (negsuc n) = some (length payload + suc n, drop (length payload - suc n) payload)

unfoldable pub send_remainder : Option (ℕ × Bytes) → Exec Connection (Unit {0})
unfolding write_chunk hex
send_remainder none = pure tt
send_remainder (some (size, bytes)) = write_chunk (hex size) bytes

unfoldable pub send_trailers : List Header → Exec Connection (Unit {0})
unfolding write
send_trailers [] = write crlf
send_trailers ((name, value) ∷ trailers) = do
  write (name ++ b':' ∷ 32 ∷ value ++ crlf)
  send_trailers trailers

unfoldable pub send_chunked : Bytes → Bytes → List Header → Exec Connection (Unit {0})
unfolding split send_widths send_remainder send_trailers write
send_chunked chunks payload trailers = do
  pointer ← send_widths payload (pos 0) (split b',' chunks)
  send_remainder (remainder payload pointer)
  write (b'0' ∷ crlf)
  send_trailers trailers

-- The payload as a whole or in chunks.
unfoldable pub send_payload : Bytes → Bytes → List Header → Exec Connection (Unit {0})
unfolding send_chunked write
send_payload chunks payload trailers =
    if bytes_eq chunks (codes "0") then write payload else send_chunked chunks payload trailers
