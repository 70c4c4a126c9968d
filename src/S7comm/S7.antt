-- ===== src/S7comm/S7.antt =====
-- s7.py: the S7 packet. The answers to SSL requests stand in `Diagnostics`.
pub mod RoundTrip
pub mod Diagnostics
use conpot.Prelude.{
  ℕ, zero, suc, ◌+◌, Bool, true, false, not, ◌||◌, List, [], ◌∷◌, ◌++◌, length, take, drop, slice,
  ◌==◌, if◌then◌else◌,
}
use conpot.Prelude.Bytes.{
  Bytes, Result, ok, err, parse_exception, assemble_exception, struct_error, pack_b, pack_h, be16,
  guard, ◌>>=◌, ◌>>◌,
}

-- `result_info` is a number in a new packet, and the tuple that `unpack` returns in a parsed one.
pub data ResultInfo : Type 0 where
  number tuple : ℕ → ResultInfo

pub record S7 : Type 0 where
  pub magic : ℕ
  pub pdu_type : ℕ
  pub reserved : ℕ
  pub request_id : ℕ
  pub param_length : ℕ
  pub data_length : ℕ
  pub result_info : ResultInfo
  pub parameters : Bytes
  pub payload : Bytes

-- `S7(pdu_type, reserved, request_id, result_info, parameters, data)`; the field `payload` is the
-- source's `data`.
unfoldable pub new : ℕ → ℕ → ℕ → ℕ → Bytes → Bytes → S7
new pdu_type reserved request_id result_info parameters payload = record {
  magic = 0x32;
  pdu_type = pdu_type;
  reserved = reserved;
  request_id = request_id;
  param_length = length parameters;
  data_length = length payload;
  result_info = number result_info;
  parameters = parameters;
  payload = payload;
}

-- `self.pdu_type in (2, 3)`: the packet has the additional result information.
abbrev pub has_result_info : ℕ → Bool
has_result_info pdu_type = pdu_type == 2 || pdu_type == 3

-- `self.pdu_type in self.pdu_mapping`
abbrev pub known_pdu : ℕ → Bool
known_pdu pdu_type = pdu_type == 1 || (pdu_type == 2 || (pdu_type == 3 || pdu_type == 7))

-- `__len__`
unfoldable pub packet_size : S7 → ℕ
packet_size p =
    if has_result_info p.pdu_type
    then 12 + p.param_length + p.data_length
    else 10 + p.param_length + p.data_length

-- A tuple is no integer for the format `H`.
abbrev pub pack_result_info : ResultInfo → Result Bytes
pack_result_info (number n) = pack_h n
pack_result_info (tuple n) = err struct_error

-- The fields that both formats begin with.
unfoldable pub pack_header : S7 → Result Bytes
pack_header p = do
  magic ← pack_b p.magic
  pdu_type ← pack_b p.pdu_type
  reserved ← pack_h p.reserved
  request_id ← pack_h p.request_id
  param_length ← pack_h p.param_length
  data_length ← pack_h p.data_length
  ok (magic ++ (pdu_type ++ (reserved ++ (request_id ++ (param_length ++ data_length)))))

unfoldable pub pack : S7 → Result Bytes
unfolding pack_header
pack p =
    if not (known_pdu p.pdu_type)
    then err assemble_exception
    else if has_result_info p.pdu_type
    then (do
      header ← pack_header p
      result_info ← pack_result_info p.result_info
      ok (header ++ (result_info ++ (p.parameters ++ p.payload))))
    else (do header ← pack_header p; ok (header ++ (p.parameters ++ p.payload)))

-- `self.parameters` and `self.data` are cut out of the packet behind the header, and the first
-- parameter byte is `self.param`, which is returned beside the packet.
unfoldable pub parse_body : S7 → Bytes → Result (S7 × ℕ)
parse_body p body =
    let parameters = take p.param_length body in
    let parsed = record p {
      parameters = parameters;
      payload = slice p.param_length (p.param_length + p.data_length) body;
    } in
    elim parameters [ [] ↦ err parse_exception | param ∷ _ ↦ ok (parsed, param) ]

-- The result information of a packet that has one.
unfoldable pub parse_result_info : S7 → Bytes → Result (S7 × ℕ)
unfolding parse_body
parse_result_info p (hi ∷ lo ∷ body) =
    parse_body (record p { result_info = tuple (be16 hi lo) }) body
parse_result_info p _ = err struct_error

-- `S7().parse(packet)`; `packet[10:]` is `rest`.
unfoldable pub parse : Bytes → Result (S7 × ℕ)
unfolding parse_result_info
parse (magic ∷ pdu_type ∷ r1 ∷ r0 ∷ i1 ∷ i0 ∷ p1 ∷ p0 ∷ d1 ∷ d0 ∷ rest) =
    let p : S7 = record {
      magic = magic;
      pdu_type = pdu_type;
      reserved = be16 r1 r0;
      request_id = be16 i1 i0;
      param_length = be16 p1 p0;
      data_length = be16 d1 d0;
      result_info = number 0;
      parameters = [];
      payload = [];
    } in
    if not (magic == 0x32)
    then err parse_exception
    else if has_result_info pdu_type
    then parse_result_info p rest
    else parse_body p rest
parse _ = err parse_exception
