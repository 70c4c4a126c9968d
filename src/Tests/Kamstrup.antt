-- ===== src/Tests/Kamstrup.antt =====
-- conpot/protocols/kamstrup/meter_protocol at concrete inputs. The checksum here is the length.
use conpot.Prelude.{ℕ, ◌+◌, ◌%◌, ◌<◌, ◌≡◌, refl, true, false, some, [], ◌∷◌, ◌++◌, length, arith}
use conpot.Prelude.Bytes.{Bytes, codes, ok, err, index_error}
use conpot.Kamstrup.Frame.{escape, escape_inner, need_escape}
use conpot.Kamstrup.Messages.{
  Request, get_registers, request_unknown, Register, make_request, parse_register_bytes,
  serialize_registers,
}
use conpot.Kamstrup.Messages.Registers.{parse_register_bytes-short}
use conpot.Prelude.Dict
use conpot.Kamstrup.Messages
use conpot.Kamstrup.RequestParser
use conpot.Kamstrup.RequestParser.{add_bytes, get_request}
use conpot.Kamstrup.RequestParser.RoundTrip.{
  get_request_frame, get_request-bad_crc, get_request-escape,
}
use conpot.Kamstrup.Decoder
use conpot.Kamstrup.Decoder.{decode_out, register_response, read_values}
use conpot.Kamstrup.Decoder.Fuel.{read_values-fuel}
use conpot.Kamstrup.Decoder.RoundTrip.{decode_out-serialize_registers}
use conpot.Kamstrup.CommandResponder.{Responder, configure, respond}
use conpot.Kamstrup.CommandResponder.Answers.{respond-requested}
use conpot.Kamstrup.Server.{handle, received}
use conpot.Kamstrup.Server.Progress.{Ends, handle-Ends}

abbrev crc : Bytes → ℕ
crc m = length m % 65536

crc-lt : (m : Bytes) → crc m < 65536
crc-lt m = omega arith

abbrev message : Bytes
message = 1 ∷ 0x04 ∷ 0x06 ∷ []

abbrev request : Request
request = get_registers 0x3f message (1030 ∷ [])

make_request-message : make_request 0x3f 0x10 message ≡ ok request
unfolding make_request parse_register_bytes
make_request-message = refl

-- 0x06 is escaped.
abbrev frame : Bytes
frame = 0x80 ∷ 0x3f ∷ 0x10 ∷ 1 ∷ 0x04 ∷ 0x1b ∷ 0xf9 ∷ 0 ∷ 5 ∷ 0x0d ∷ []

escape-frame : escape (0x80 ∷ 0x3f ∷ 0x10 ∷ 1 ∷ 0x04 ∷ 0x06 ∷ 0 ∷ 5 ∷ 0x0d ∷ []) ≡ ok frame
unfolding escape need_escape
escape-frame = refl

get_request-escape_example :
    get_request crc (add_bytes ((7 ∷ []) ++ frame) RequestParser.initial)
    ≡ (ok (some request), record { bytes = []; parsing = true; data_escaped = false })
get_request-escape_example =
    get_request-escape crc 0x3f 0x10 message 0 5 (7 ∷ []) frame request (omega arith) (omega arith)
      refl escape-frame make_request-message

-- Two more bytes behind the frame move the cut of the message bytes.
get_request_frame_example :
    get_request crc (record {
      bytes =
          (7 ∷ [])
          ++ (0x80 ∷ (escape_inner (0x3f ∷ 0x20 ∷ 9 ∷ 0 ∷ 3 ∷ []) ++ (0x0d ∷ 0x80 ∷ 0x3f ∷ [])));
      parsing = false;
      data_escaped = false;
    })
    ≡ (
      ok (some (request_unknown 0x3f 0x20 (9 ∷ 0 ∷ 3 ∷ []))),
      record { bytes = 0x80 ∷ 0x3f ∷ []; parsing = true; data_escaped = false },
    )
unfolding make_request
get_request_frame_example =
    get_request_frame crc 0x3f 0x20 (9 ∷ []) 0 3 (7 ∷ []) (0x80 ∷ 0x3f ∷ [])
      (request_unknown 0x3f 0x20 (9 ∷ 0 ∷ 3 ∷ [])) (omega arith) (omega arith) refl refl

get_request-bad_crc_example :
    get_request crc (record {
      bytes = (7 ∷ []) ++ (0x80 ∷ (escape_inner (0x3f ∷ 0x20 ∷ 9 ∷ 0 ∷ 4 ∷ []) ++ (0x0d ∷ [])));
      parsing = false;
      data_escaped = false;
    })
    ≡ (err index_error, record { bytes = 0x0d ∷ []; parsing = false; data_escaped = false })
get_request-bad_crc_example =
    get_request-bad_crc crc 0x3f 0x20 (9 ∷ []) 0 4 (7 ∷ []) (omega arith) (omega arith)
      (omega arith)

parse_register_bytes-short_example : parse_register_bytes (2 ∷ 4 ∷ []) ≡ err index_error
parse_register_bytes-short_example =
    parse_register_bytes-short 2 (4 ∷ []) (omega arith) (omega arith)

abbrev voltage : Register
voltage = record {
  name = 1054;
  units = 33;
  length = 2;
  unknown = 0;
  databus_key = codes "voltage_1";
}

abbrev databus_value : Bytes → ℕ
databus_value key = 70000

serialize_registers-voltage :
    serialize_registers databus_value crc 0x3f (voltage ∷ [])
    ≡ ok (0x40 ∷ 0x3f ∷ 0x10 ∷ 4 ∷ 30 ∷ 33 ∷ 2 ∷ 0 ∷ 17 ∷ 112 ∷ 0 ∷ 9 ∷ 0x0d ∷ [])
unfolding serialize_registers Messages.serialize Messages.registers_bytes Messages.register_bytes
    escape need_escape
serialize_registers-voltage = refl

decode_out-serialize_registers_example :
    decode_out crc Decoder.initial
      ((0x40 ∷ 0x3f ∷ 0x10 ∷ 4 ∷ 30 ∷ 33 ∷ 2 ∷ 0 ∷ 17 ∷ 112 ∷ 0 ∷ 9 ∷ 0x0d ∷ []) ++ 1 ∷ [])
    ≡ (
      ok (some (register_response 0x3f ((1054, 4464) ∷ []))),
      record { buffer = []; parsing = true; data_escaped = false },
    )
decode_out-serialize_registers_example =
    decode_out-serialize_registers crc databus_value 0x3f (voltage ∷ [])
      (0x40 ∷ 0x3f ∷ 0x10 ∷ 4 ∷ 30 ∷ 33 ∷ 2 ∷ 0 ∷ 17 ∷ 112 ∷ 0 ∷ 9 ∷ 0x0d ∷ []) (1 ∷ [])
      (omega arith) (omega arith) crc-lt serialize_registers-voltage

abbrev meter : Responder
meter = record { registers = (1054, voltage) ∷ []; communication_address = 0x3f }

configure-meter : configure 0x3f (voltage ∷ []) ≡ ok meter
unfolding configure Dict.has Dict.put
configure-meter = refl

respond-requested_example :
    respond meter (get_registers 0x3f [] (7 ∷ 1054 ∷ [])) ≡ ok (some (voltage ∷ []))
respond-requested_example =
    respond-requested 0x3f (voltage ∷ []) meter [] (7 ∷ 1054 ∷ []) configure-meter

handle-Ends_example :
    Ends
      (received frame ∷ received [] ∷ [])
      (handle crc databus_value meter (received frame ∷ received [] ∷ [])).0
handle-Ends_example = handle-Ends crc databus_value meter (received frame ∷ received [] ∷ [])

read_values-fuel_example :
    read_values (6 + 9) (1 ∷ 2 ∷ 22 ∷ 1 ∷ 0 ∷ 7 ∷ []) ≡ read_values 6 (1 ∷ 2 ∷ 22 ∷ 1 ∷ 0 ∷ 7 ∷ [])
read_values-fuel_example = read_values-fuel 6 9 (1 ∷ 2 ∷ 22 ∷ 1 ∷ 0 ∷ 7 ∷ []) (omega arith)
