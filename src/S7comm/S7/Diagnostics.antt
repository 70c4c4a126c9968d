-- ===== src/S7comm/S7/Diagnostics.antt =====
-- s7.py: `handle` and the answers to requests for system status lists. The lists of the template
-- are a parameter, as is the databus, which is asked for texts here.
pub mod Sizes
use conpot.Prelude.{
  ℕ, zero, suc, ◌+◌, ◌-◌, Bool, true, false, not, ◌||◌, ◌&&◌, Option, none, some, List, [], ◌∷◌,
  ◌++◌, length, take, drop, slice, replicate, leb, ltb, ◌==◌, if◌then◌else◌, list_eq,
}
use conpot.Prelude.Bytes.{
  Bytes, codes, Result, ok, err, parse_exception, struct_error, type_error, key_error, pack_h, be16,
  guard, ◌>>=◌, ◌>>◌,
}
use conpot.Prelude.Dict.{Dict, get}
use conpot.S7comm.S7.{S7}

-- `pack('ns', text)`: cut to n bytes, and filled with zeros.
unfoldable pub fixed : ℕ → Bytes → Bytes
fixed n s = take n (s ++ replicate n 0)

-- One field of a format: `H`, or `ns`; and what is packed into one.
pub data Field : Type 0 where
  short : Field
  string : ℕ → Field

pub data Argument : Type 0 where
  number : ℕ → Argument
  text : Bytes → Argument

unfoldable pub pack_field : Field → Argument → Result Bytes
unfolding fixed
pack_field short (number n) = pack_h n
pack_field (string n) (text s) = ok (fixed n s)
pack_field short (text s) = err struct_error
pack_field (string n) (number m) = err struct_error

-- `struct.pack(format, *arguments)`
unfoldable pub pack_fields : List Field → List Argument → Result Bytes
unfolding pack_field
pack_fields [] [] = ok []
pack_fields (field ∷ fields) (argument ∷ arguments) = do
  first ← pack_field field argument
  rest ← pack_fields fields arguments
  ok (first ++ rest)
pack_fields _ _ = err struct_error

-- `!HHHHH20sHHH`, the format of the three identifications.
abbrev pub identification_format : List Field
identification_format =
    short ∷ short ∷ short ∷ short ∷ short ∷ string 20 ∷ short ∷ short ∷ short ∷ []

-- `d[k]`
abbrev pub at_key {ℓ} : {V : Type ℓ} → Bytes → Dict Bytes V → Result V
at_key k d = elim (get k d) [ none ↦ err key_error | some v ↦ ok v ]

-- `pack('!BBBBBBBB', …)` of both answers.
abbrev pub ssl_resp_params : Bytes
ssl_resp_params = 0x00 ∷ 0x01 ∷ 0x12 ∷ 0x08 ∷ 0x12 ∷ 0x84 ∷ 0x01 ∷ 0x01 ∷ []

-- `pack('!BBH', 0xff, 0x09, len(ssl_resp_data))` and the data behind it.
unfoldable pub with_head : Bytes → Result Bytes
with_head ssl_resp_data = do
  size ← pack_h (length ssl_resp_data)
  ok (0xff ∷ 0x09 ∷ (size ++ ssl_resp_data))

-- What `handle` returns: parameters and data, `0x00, 0x00`, or nothing.
pub data Answer : Type 0 where
  answer : Bytes → Bytes → Answer
  zeros no_answer : Answer

-- What an identification packs, in the order of its format.
abbrev pub identification_fields : (index : ℕ) → Argument → Argument → Argument → List Argument
identification_fields index mlfb state rest =
    number 17
    ∷ number index
    ∷ number 28
    ∷ number 1
    ∷ number index
    ∷ mlfb
    ∷ number 0
    ∷ state
    ∷ rest
    ∷ []

-- The data of an identification, with the head in front.
unfoldable pub identification : (index : ℕ) → Argument → Argument → Argument → Result Bytes
unfolding pack_fields with_head
identification index mlfb state rest =
    pack_fields identification_format (identification_fields index mlfb state rest) >>= with_head

module _ (ssl_lists : Dict Bytes (Dict Bytes Bytes)) (get_value : Bytes → Result Bytes) where
  -- `self.data_bus.get_value(current_ssl[item])`
  unfoldable pub ssl_value : Dict Bytes Bytes → Bytes → Result Bytes
  ssl_value current_ssl item = do key ← at_key item current_ssl; get_value key

  -- `request_ssl_17`; the index is `''` where the request holds none, and then has no `hex`.
  unfoldable pub request_ssl_17 : Option ℕ → Result Bytes
  unfolding identification ssl_value
  request_ssl_17 data_ssl_index = do
    current_ssl ← at_key (codes "W#16#xy11") ssl_lists
    elim data_ssl_index [
      | none ↦ err type_error
      | some index ↦
          if index == 1
          then (do
            mlfb ← ssl_value current_ssl (codes "W#16#0001")
            identification 1 (text mlfb) (number 0) (number 0))
          else if index == 6
          then (do
            mlfb ← ssl_value current_ssl (codes "W#16#0006")
            identification 6 (text mlfb) (text (codes "V3")) (number 0x539))
          else if index == 7
          then identification 7 (number 0) (text (codes "V3")) (number 0x53a)
          else ok []
    ]

  -- One record of `request_ssl_28`: its index, a text of fixed size and the reserved bytes.
  unfoldable pub module_data : Dict Bytes Bytes → ℕ → Bytes → ℕ → Result Bytes
  unfolding ssl_value fixed
  module_data current_ssl index item size = do
    value ← ssl_value current_ssl item
    ok (0 ∷ index ∷ (fixed size value ++ replicate (32 - size) 0))

  -- `request_ssl_28`
  unfoldable pub request_ssl_28 : Option ℕ → Result Bytes
  unfolding module_data with_head
  request_ssl_28 data_ssl_index = do
    current_ssl ← at_key (codes "W#16#xy1C") ssl_lists
    index ← elim data_ssl_index [ none ↦ err struct_error | some i ↦ pack_h i ]
    d1 ← module_data current_ssl 0x01 (codes "W#16#0001") 24
    d2 ← module_data current_ssl 0x02 (codes "W#16#0002") 24
    d3 ← module_data current_ssl 0x03 (codes "W#16#0003") 32
    d4 ← module_data current_ssl 0x04 (codes "W#16#0004") 26
    d5 ← module_data current_ssl 0x05 (codes "W#16#0005") 24
    d7 ← module_data current_ssl 0x07 (codes "W#16#0007") 32
    da ← module_data current_ssl 0x0a (codes "W#16#000A") 20
    db ← module_data current_ssl 0x0b (codes "W#16#000B") 32
    with_head (
        0
        ∷ 28
        ∷ (index ++ (0 ∷ 34 ∷ 0 ∷ 8 ∷ (d1 ++ (d2 ++ (d3 ++ (d4 ++ (d5 ++ (d7 ++ (da ++ db))))))))))

  -- `unpack('!H', bytes[:2])[0]`
  abbrev word : Bytes → Result ℕ
  word (hi ∷ lo ∷ _) = ok (be16 hi lo)
  word _ = err struct_error

  -- The loop `while chunk`; there are methods for the lists 17 and 28. A round takes four bytes
  -- or more; the fuel bounds the rounds.
  unfoldable pub diagnostics_chunks : ℕ → Bytes → Result Answer
  unfolding request_ssl_17 request_ssl_28
  diagnostics_chunks fuel [] = ok zeros
  diagnostics_chunks zero (b ∷ chunk) = ok no_answer
  diagnostics_chunks (suc fuel) (error_code ∷ data_type ∷ n1 ∷ n0 ∷ chunk) = do
    let next_bytes = be16 n1 n0
    ssl_id ← if ltb 0 next_bytes then (do w ← word chunk; ok (some w)) else ok none
    ssl_index ← if ltb 1 next_bytes then (do w ← word (drop 2 chunk); ok (some w)) else ok none
    let rest = diagnostics_chunks fuel (drop next_bytes chunk)
    elim ssl_id [
      | none ↦ rest
      | some id ↦
          if id == 17
          then (do d ← request_ssl_17 ssl_index; ok (answer ssl_resp_params d))
          else if id == 28
          then (do d ← request_ssl_28 ssl_index; ok (answer ssl_resp_params d))
          else rest
    ]
  diagnostics_chunks (suc fuel) _ = err parse_exception

  unfoldable pub request_diagnostics : S7 → Result Answer
  unfolding diagnostics_chunks
  request_diagnostics p = do
    guard (leb 8 (length p.parameters)) parse_exception
    diagnostics_chunks (length p.payload) p.payload

  -- `self.param in self.param_mapping`, beside 0.
  abbrev pub not_implemented : ℕ → Bool
  not_implemented param =
      param == 0x04 || (param == 0x05 || ((leb 0x1a param && leb param 0x1f) || param == 0x28))

  -- `handle`: a parameter that has no method gives `None`.
  unfoldable pub handle : S7 → ℕ → Result Answer
  unfolding request_diagnostics
  handle p param =
      if param == 0x00
      then request_diagnostics p
      else if not_implemented param
      then err parse_exception
      else ok no_answer
