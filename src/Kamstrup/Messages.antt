-- ===== src/Kamstrup/Messages.antt =====
-- messages.py, register.py: requests as they are built from message bytes, and responses as they
-- are serialized. `x >> 8` is `x / 256` and `x & 0xff` is `x % 256`. The value of a register comes from the databus, the parameter `get_value`.
pub mod Values
pub mod Registers
use conpot.Prelude.{
  ℕ, zero, suc, ◌+◌, ◌-◌, ◌*◌, ◌/◌, ◌%◌, Bool, true, ◌&&◌, List, [], ◌∷◌, ◌++◌, length, ltb, ◌==◌,
  if◌then◌else◌,
}
use conpot.Prelude.Bytes.{
  Bytes, Result, ok, err, index_error, value_error, exception, be16, guard, ◌>>=◌, ◌>>◌,
}
use conpot.Kamstrup.Frame.{escape, response_magic, eot_magic}
use mathlib.Core.Bool.{not}

-- The classes `KamstrupRequestGetRegisters` and `KamstrupRequestUnknown`, with their fields.
pub data Request : Type 0 where
  get_registers : (communication_address : ℕ) (message_bytes : Bytes) (registers : List ℕ) → Request
  request_unknown : (communication_address command : ℕ) (message_bytes : Bytes) → Request

-- `KamstrupRequestGetRegisters.command_byte`
abbrev pub command_byte : ℕ
command_byte = 0x10

-- The loop of `_parse_register_bytes`: `count` registers of two bytes.
unfoldable pub read_registers : ℕ → Bytes → Result (List ℕ)
read_registers zero message = ok []
read_registers (suc count) (hi ∷ lo ∷ message) = do
  registers ← read_registers count message
  ok (be16 hi lo ∷ registers)
read_registers (suc count) _ = err index_error

unfoldable pub parse_register_bytes : Bytes → Result (List ℕ)
unfolding read_registers
parse_register_bytes [] = err index_error
parse_register_bytes (register_count ∷ message) = do
  guard (not (ltb (length message * 2) register_count)) exception
  read_registers register_count message

-- The constructors that `request_map` and its default choose between.
unfoldable pub make_request : ℕ → ℕ → Bytes → Result Request
make_request comm_address command message =
    if command == command_byte
    then (do
      registers ← parse_register_bytes message
      ok (get_registers comm_address message registers))
    else ok (request_unknown comm_address command message)

-- register.py
pub record Register : Type 0 where
  pub name : ℕ
  pub units : ℕ
  pub length : ℕ
  pub unknown : ℕ
  pub databus_key : Bytes

-- The loop that takes the least significant byte `length` times, and its reversal.
unfoldable pub pack_value : ℕ → ℕ → Bytes
pack_value zero value = []
pack_value (suc n) value = pack_value n (value / 256) ++ value % 256 ∷ []

-- `chr` takes every item of the list.
abbrev pub all_chr : Bytes → Bool
all_chr [] = true
all_chr (b ∷ bs) = ltb b 256 && all_chr bs

module _ (crc16xmodem : Bytes → ℕ) where
  -- `KamstrupResponseBase.serialize`: `chr(item)` raises for an item above 255.
  unfoldable pub serialize : ℕ → Bytes → Result Bytes
  serialize communication_address message = do
    let body = communication_address ∷ message
    guard (all_chr body) value_error
    let crc = crc16xmodem body
    escape (response_magic ∷ (body ++ (crc / 256 ∷ crc % 256 ∷ eot_magic ∷ [])))

module _ (get_value : Bytes → ℕ) where
  -- What `KamstrupResponseRegister.serialize` appends for one register.
  unfoldable pub register_bytes : Register → Bytes
  unfolding pack_value
  register_bytes r =
      r.name / 256
      ∷ r.name % 256
      ∷ r.units
      ∷ r.length
      ∷ r.unknown
      ∷ pack_value r.length (get_value r.databus_key)

  unfoldable pub registers_bytes : List Register → Bytes
  registers_bytes [] = []
  registers_bytes (r ∷ rs) = register_bytes r ++ registers_bytes rs

  -- `KamstrupResponseRegister.serialize`
  unfoldable pub serialize_registers : (Bytes → ℕ) → ℕ → List Register → Result Bytes
  serialize_registers crc16xmodem communication_address registers =
      serialize crc16xmodem communication_address (command_byte ∷ registers_bytes registers)
