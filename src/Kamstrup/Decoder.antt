-- ===== src/Kamstrup/Decoder.antt =====
-- decoder_382.py: the decoder of captured meter traffic. The two directions have the same loop over
-- their own buffer, `decode` here; they differ in the magic and in what ends a frame. The texts
-- that the decoder builds are values here, with the numbers that are put into them; the names of
-- `REGISTERS` are not modelled.
pub mod RoundTrip
pub mod Fuel
use Prim.Native.Nat.{bit_xor}
use conpot.Prelude.{
  ℕ, zero, suc, ◌+◌, ◌-◌, ◌*◌, ◌^◌, Bool, true, false, not, ◌&&◌, Option, none, some, List, [], ◌∷◌,
  ◌++◌, length, drop, slice, ltb, ◌==◌, if◌then◌else◌,
}
use conpot.Prelude.Bytes.{Bytes, Result, ok, err, index_error, attribute_error, be16, ◌>>=◌}
use conpot.Kamstrup.Frame.{
  invert, at, valid_crc, request_magic, response_magic, eot_magic, escape_byte,
}

-- One direction of the decoder: `in_data`, `in_parsing`, `in_data_escaped`, or those of `out`.
pub record Channel : Type 0 where
  pub buffer : Bytes
  pub parsing : Bool
  pub data_escaped : Bool

abbrev pub initial : Channel
initial = record { buffer = []; parsing = false; data_escaped = false }

pub data Decoded : Type 0 where
  discarded : Decoded
  unknown_command : ℕ → Decoded
  get_type : ℕ → Decoded
  too_many_registers : ℕ → Decoded
  get_register : ℕ → List ℕ → Decoded
  login : ℕ → ℕ → Decoded
  invalid_register : ℕ → Decoded
  -- the communication address, and each register with its value
  register_response : ℕ → List (ℕ × ℕ) → Decoded

-- The loop `for count in range(register_count)` of `_decode_cmd_get_register`, from `position`.
unfoldable pub decode_registers : ℕ → ℕ → Bytes → Result (List ℕ)
decode_registers zero position buffer = ok []
decode_registers (suc count) position buffer = do
  hi ← at buffer position
  lo ← at buffer (position + 1)
  rest ← decode_registers count (position + 2) buffer
  ok (be16 hi lo ∷ rest)

-- `_decode_cmd_get_register`
unfoldable pub decode_cmd_get_register : ℕ → Bytes → Result Decoded
unfolding decode_registers
decode_cmd_get_register comm_address buffer = do
  register_count ← at buffer 3
  if ltb (length (drop 2 buffer)) register_count then ok (too_many_registers comm_address) else do
    registers ← decode_registers register_count 4 buffer
    ok (get_register comm_address registers)

-- `_decode_cmd_login`
unfoldable pub decode_cmd_login : ℕ → Bytes → Result Decoded
decode_cmd_login comm_address buffer = do
  hi ← at buffer 3
  lo ← at buffer 4
  ok (login comm_address (be16 hi lo))

-- The payload loop: `length` bytes, high byte first, added to `register_value`.
unfoldable pub read_value : ℕ → Bytes → ℕ → Result ℕ
read_value zero msg register_value = ok register_value
read_value (suc n) [] register_value = err index_error
read_value (suc n) (b ∷ msg) register_value = read_value n msg (register_value + b * 256 ^ n)

-- The loop `while i < len(msg)`; the list is `msg[i:]`, and the fuel bounds the rounds.
unfoldable pub read_values : ℕ → Bytes → Result (List (ℕ × ℕ))
unfolding read_value
read_values fuel [] = ok []
read_values zero (b ∷ msg) = ok []
read_values (suc fuel) (hi ∷ lo ∷ units ∷ length ∷ msg) = do
  register_value ← read_value length (drop 1 msg) 0
  rest ← read_values fuel (drop (1 + length) msg)
  ok ((be16 hi lo, register_value) ∷ rest)
read_values (suc fuel) _ = err index_error

-- `_decode_cmd_return_register` on `msg`; each round takes four bytes or more.
unfoldable pub decode_message : ℕ → Bytes → Result Decoded
unfolding read_values
decode_message comm_address [] = ok (invalid_register comm_address)
decode_message comm_address (b ∷ msg) = do
  values ← read_values (length (b ∷ msg)) (b ∷ msg)
  ok (register_response comm_address values)

unfoldable pub decode_cmd_return_register : ℕ → Bytes → Result Decoded
unfolding decode_message
decode_cmd_return_register comm_address buffer =
    decode_message comm_address (slice 3 (length buffer - 2) buffer)

-- What follows the checksum test of `decode_in`.
unfoldable pub decode_command : Bytes → Result Decoded
unfolding decode_cmd_get_register decode_cmd_login
decode_command buffer = do
  comm_address ← at buffer 1
  command ← at buffer 2
  if command == 0x01
      then ok (get_type comm_address)
      else if command == 0x10
      then decode_cmd_get_register comm_address buffer
      else if command == 0x92
      then decode_cmd_login comm_address buffer
      else ok (unknown_command command)

-- What follows the checksum test of `decode_out`.
unfoldable pub decode_response : Bytes → Result Decoded
unfolding decode_cmd_return_register
decode_response buffer = do
  comm_address ← at buffer 1
  command ← at buffer 2
  if command == 0x10
      then decode_cmd_return_register comm_address buffer
      else ok (unknown_command command)

module _ (crc16xmodem : Bytes → ℕ) where
  -- At the end magic. An exception leaves the buffer.
  unfoldable pub end_of_frame : (Bytes → Result Decoded) → Bytes → Result (Option Decoded) × Channel
  end_of_frame finish buffer = elim (valid_crc crc16xmodem (drop 1 buffer)) [
    | err e ↦ (err e, record { buffer = buffer; parsing = true; data_escaped = false })
    | ok false ↦
        (ok (some discarded), record { buffer = []; parsing = false; data_escaped = false })
    | ok true ↦ elim (finish buffer) [
      | ok decoded ↦
          (ok (some decoded), record { buffer = []; parsing = true; data_escaped = false })
      | err e ↦ (err e, record { buffer = buffer; parsing = true; data_escaped = false })
    ]
  ]

  -- The loop over the data. A byte before the magic ends it by an exception: the message for the
  -- log calls `encode` on a number.
  unfoldable pub decode :
      ℕ → (Bytes → Result Decoded) → Channel → Bytes → Result (Option Decoded) × Channel
  unfolding end_of_frame
  decode magic finish c [] = (ok none, c)
  decode magic finish c (d ∷ rest) =
      let unescaped =
        decode magic finish
          (record { buffer = c.buffer ++ invert d ∷ []; parsing = true; data_escaped = false })
          rest in
      let escaped =
        decode magic finish (record { buffer = c.buffer; parsing = true; data_escaped = true })
          rest in
      let stopped = end_of_frame finish c.buffer in
      let kept =
        decode magic finish
          (record { buffer = c.buffer ++ d ∷ []; parsing = true; data_escaped = false }) rest in
      if not c.parsing && not (d == magic)
      then (err attribute_error, c)
      else if c.data_escaped
      then unescaped
      else if d == escape_byte
      then escaped
      else if d == eot_magic
      then stopped
      else kept

  unfoldable pub decode_in : Channel → Bytes → Result (Option Decoded) × Channel
  unfolding decode decode_command
  decode_in = decode request_magic decode_command

  unfoldable pub decode_out : Channel → Bytes → Result (Option Decoded) × Channel
  unfolding decode decode_response
  decode_out = decode response_magic decode_response
