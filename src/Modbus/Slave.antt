-- ===== src/Modbus/Slave.antt =====
-- `handle_request` and `_device_info` of slave.py. What the package modbus_tk implements is a
-- parameter: the functions behind `_fn_code_map`, over a state of their own, the codes that have
-- one, those that may be broadcast, and the number `ILLEGAL_FUNCTION`. The lock is left out.
pub mod Replies
use conpot.Prelude.{
  ℕ, ◌+◌, Bool, true, false, not, ◌&&◌, List, [], ◌∷◌, ◌++◌, length, ltb, if◌then◌else◌,
}
use conpot.Prelude.Bytes.{Bytes, Result, ok, err, struct_error, pack_b, ◌>>=◌}

-- How a function of the map ends.
pub data Call : Type 0 where
  returned : Bytes → Call
  modbus_error : ℕ → Call
  call_struct_error : Call

-- How `handle_request` ends: with a response, or with an exception that it does not catch.
pub data Raised : Type 0 where
  index_error out_of_format invalid_request no_response : Raised

pub data Reply : Type 0 where
  response : Bytes → Reply
  raised : Raised → Reply

pub record Library (S : Type 0) : Type 0 where
  pub in_fn_code_map : ℕ → Bool
  pub can_broadcast : ℕ → Bool
  pub illegal_function : ℕ
  pub call : ℕ → Bytes → S → Call × S

-- `struct.pack(">BB", self.function_code + 128, e.get_exception_code())`
unfoldable pub error_response : ℕ → ℕ → Reply
error_response function_code code =
    if ltb (function_code + 128) 256 && ltb code 256
    then response ((function_code + 128) ∷ code ∷ [])
    else raised out_of_format

-- What follows the call of the function.
unfoldable pub finish : Bool → ℕ → Call → Reply
unfolding error_response
finish broadcast function_code (returned []) = raised no_response
finish broadcast function_code (returned (b ∷ bs)) =
    if broadcast then response [] else response (function_code ∷ b ∷ bs)
finish broadcast function_code (modbus_error code) = error_response function_code code
finish broadcast function_code call_struct_error = error_response function_code 3

module _ {S : Type 0} (lib : Library S) where
  unfoldable pub handle_request : Bytes → Bool → S → Reply × S
  unfolding finish
  handle_request [] broadcast s = (raised index_error, s)
  handle_request (function_code ∷ arguments) broadcast s =
      if not (lib.in_fn_code_map function_code)
      then (error_response function_code lib.illegal_function, s)
      else if broadcast && not (lib.can_broadcast function_code)
      then (raised invalid_request, s)
      else let (c, s') = lib.call function_code (function_code ∷ arguments) s in
        (finish broadcast function_code c, s')

-- One object of the device information: its number, its length and its bytes.
unfoldable pub device_object : ℕ → Bytes → Result Bytes
device_object i object = do size ← pack_b (length object); ok (i ∷ (size ++ object))

-- `_device_info`; `request_pdu[2:4]` must have two bytes.
unfoldable pub device_info : Bytes → Bytes → Bytes → Bytes → Result Bytes
unfolding device_object
device_info vendor_name product_code revision (b0 ∷ b1 ∷ req_device_id ∷ req_object_id ∷ rest) = do
  vendor ← device_object 0 vendor_name
  product ← device_object 1 product_code
  version ← device_object 2 revision
  ok (0x0e ∷ req_device_id ∷ 0x01 ∷ 0x00 ∷ 0x00 ∷ 3 ∷ (vendor ++ (product ++ version)))
device_info vendor_name product_code revision _ = err struct_error
