-- ===== src/Kamstrup/RequestParser.antt =====
-- request_parser.py. The loop of `get_request` walks over `self.bytes` by `position`; here `seen`
-- is what stands before the position and the last argument what stands from it on, so `del
-- self.bytes[position]` drops the head of the latter.
pub mod Framing
pub mod RoundTrip
use Prim.Native.Nat.{bit_xor}
use conpot.Prelude.{
  ℕ, ◌+◌, ◌-◌, Bool, true, false, not, ◌&&◌, ◌||◌, Option, none, some, List, [], ◌∷◌, ◌++◌, length,
  take, drop, slice, ◌==◌, if◌then◌else◌,
}
use conpot.Prelude.Bytes.{Bytes, Result, ok, err, ◌>>=◌}
use conpot.Kamstrup.Frame.{invert, at, valid_crc, request_magic, eot_magic, escape_byte}
use conpot.Kamstrup.Messages.{Request, make_request}

pub record Parser : Type 0 where
  pub bytes : Bytes
  pub parsing : Bool
  pub data_escaped : Bool

abbrev pub initial : Parser
initial = record { bytes = []; parsing = false; data_escaped = false }

unfoldable pub add_byte : ℕ → Parser → Parser
add_byte byte p = record p { bytes = p.bytes ++ byte ∷ [] }

-- `for x in raw_request: parser.add_byte(x)`
unfoldable pub add_bytes : Bytes → Parser → Parser
unfolding add_byte
add_bytes [] p = p
add_bytes (x ∷ xs) p = add_bytes xs (add_byte x p)

-- `self.bytes[3:-3]`
abbrev pub message_of : Bytes → Bytes
message_of bytes = slice 3 (length bytes - 3) bytes

module _ (crc16xmodem : Bytes → ℕ) where
  -- From `comm_address = self.bytes[1]` to `return result`. An exception leaves the bytes.
  unfoldable pub take_request : ℕ → Parser → Result (Option Request) × Parser
  take_request position p =
      elim (do
        comm_address ← at p.bytes 1
        command ← at p.bytes 2
        make_request comm_address command (message_of p.bytes)) [
          | ok request ↦ (ok (some request), record p { bytes = drop (position + 1) p.bytes })
          | err e ↦ (err e, p)
        ]

  -- At the end magic at `position`: a wrong checksum drops the bytes before the position and
  -- leaves the parsing mode, and the code goes on as after a right one.
  unfoldable pub end_of_frame : ℕ → Parser → Result (Option Request) × Parser
  unfolding take_request
  end_of_frame position p = elim (valid_crc crc16xmodem (slice 1 position p.bytes)) [
    | ok true ↦ take_request position p
    | ok false ↦ take_request position (record p { parsing = false; bytes = drop position p.bytes })
    | err e ↦ (err e, p)
  ]

  unfoldable pub scan : Bytes → Bool → Bool → Bytes → Result (Option Request) × Parser
  scan seen parsing data_escaped [] =
      (ok none, record { bytes = seen; parsing = parsing; data_escaped = data_escaped })
  scan seen parsing data_escaped (d ∷ rest) =
      let skipped = scan seen false data_escaped rest in
      let unescaped = scan (seen ++ invert d ∷ []) true false rest in
      let escaped = scan seen true true rest in
      let stopped =
        end_of_frame (length seen)
          (record { bytes = seen ++ d ∷ rest; parsing = true; data_escaped = false }) in
      let kept = scan (seen ++ d ∷ []) true false rest in
      if not parsing && not (d == request_magic)
      then skipped
      else if data_escaped
      then unescaped
      else if d == escape_byte
      then escaped
      else if d == eot_magic
      then stopped
      else kept

  unfoldable pub get_request : Parser → Result (Option Request) × Parser
  unfolding scan end_of_frame
  get_request p = scan [] p.parsing p.data_escaped p.bytes
