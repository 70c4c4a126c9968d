-- ===== src/S7comm/Cotp.antt =====
-- cotp.py: the packet between TPKT and S7, and the connection request and confirm packets.
pub mod RoundTrip
pub mod Dissect
use conpot.Prelude.{
  ℕ, zero, suc, ◌+◌, List, [], ◌∷◌, ◌++◌, length, take, drop, slice, ◌==◌, if◌then◌else◌, Bool,
  true, false,
}
use conpot.Prelude.Bytes.{
  Bytes, Result, ok, err, parse_exception, struct_error, pack_b, pack_h, be16, ◌>>=◌,
}

pub record Cotp : Type 0 where
  pub packet_length : ℕ
  pub tpdu_type : ℕ
  pub opt_field : ℕ
  pub payload : Bytes
  pub trailer : Bytes

-- `COTP(tpdu_type, opt_field, payload, trailer)`; `240` is `0xf0`.
unfoldable pub new : ℕ → ℕ → Bytes → Bytes → Cotp
new tpdu_type opt_field payload trailer = record {
  packet_length = if tpdu_type == 240 then 2 else 1 + length payload;
  tpdu_type = tpdu_type;
  opt_field = opt_field;
  payload = payload;
  trailer = trailer;
}

unfoldable pub pack : Cotp → Result Bytes
pack p =
    if p.tpdu_type == 0xf0
    then (do
      packet_length ← pack_b p.packet_length
      tpdu_type ← pack_b p.tpdu_type
      opt_field ← pack_b p.opt_field
      ok (packet_length ++ (tpdu_type ++ (opt_field ++ (p.payload ++ p.trailer)))))
    else (do
      packet_length ← pack_b p.packet_length
      tpdu_type ← pack_b p.tpdu_type
      ok (packet_length ++ (tpdu_type ++ (p.payload ++ p.trailer))))

-- `COTP().parse(packet)`: the option field of a packet that has none is the new object's, 0.
unfoldable pub parse : Bytes → Result Cotp
parse (packet_length ∷ tpdu_type ∷ third ∷ rest) =
    let packet = packet_length ∷ tpdu_type ∷ third ∷ rest in
    ok (record {
      packet_length = packet_length;
      tpdu_type = tpdu_type;
      opt_field = if tpdu_type == 0xf0 then third else 0;
      payload =
          if tpdu_type == 0xf0
          then slice 3 (1 + packet_length) packet
          else slice 2 (1 + packet_length) packet;
      trailer = drop (1 + packet_length) packet;
    })
parse _ = err parse_exception

-- `COTPConnectionPacket`, and so `COTP_ConnectionConfirm` and `COTP_ConnectionRequest`.
pub record ConnectionPacket : Type 0 where
  pub dst_ref : ℕ
  pub src_ref : ℕ
  pub opt_field : ℕ
  pub src_tsap : ℕ
  pub dst_tsap : ℕ
  pub tpdu_size : ℕ

-- What one parameter of the variable header sets.
unfoldable pub set_param : ℕ → ℕ → ConnectionPacket → Result ConnectionPacket
set_param code value p =
    if code == 0xc1
    then ok (record p { src_tsap = value })
    else if code == 0xc2
    then ok (record p { dst_tsap = value })
    else if code == 0xc0
    then ok (record p { tpdu_size = value })
    else err parse_exception

-- `unpack(param_unpack_structure, chunk[2:2 + chunk_param_length])` on what follows the length.
unfoldable pub param_value : ℕ → Bytes → Result ℕ
param_value param_length chunk =
    if param_length == 1
    then elim chunk [ [] ↦ err struct_error | b ∷ _ ↦ ok b ]
    else if param_length == 2
    then elim chunk [
      | [] ↦ err struct_error
      | hi ∷ more ↦ elim more [ [] ↦ err struct_error | lo ∷ _ ↦ ok (be16 hi lo) ]
    ]
    else err parse_exception

-- The loop over the variable header. `unpack('!BB', chunk[:2])` is not guarded, so one last byte
-- raises the error of `struct`. A round takes three bytes or more; the fuel bounds the rounds.
unfoldable pub dissect_params : ℕ → Bytes → ConnectionPacket → Result ConnectionPacket
unfolding param_value set_param
dissect_params fuel [] p = ok p
dissect_params zero (b ∷ chunk) p = ok p
dissect_params (suc fuel) (code ∷ param_length ∷ chunk) p = do
  value ← param_value param_length chunk
  p' ← set_param code value p
  dissect_params fuel (drop param_length chunk) p'
dissect_params (suc fuel) (b ∷ []) p = err struct_error

-- `COTP_ConnectionRequest().dissect(packet)`
unfoldable pub dissect : Bytes → Result ConnectionPacket
unfolding dissect_params
dissect (d1 ∷ d0 ∷ s1 ∷ s0 ∷ opt_field ∷ chunk) = dissect_params (length chunk) chunk (record {
  dst_ref = be16 d1 d0;
  src_ref = be16 s1 s0;
  opt_field = opt_field;
  src_tsap = 0;
  dst_tsap = 0;
  tpdu_size = 0;
})
dissect _ = err parse_exception

-- The part that both `assemble` methods pack.
unfoldable pub assemble_tsaps : ConnectionPacket → Result Bytes
assemble_tsaps p = do
  dst_ref ← pack_h p.dst_ref
  src_ref ← pack_h p.src_ref
  opt_field ← pack_b p.opt_field
  src_tsap ← pack_h p.src_tsap
  dst_tsap ← pack_h p.dst_tsap
  ok (dst_ref ++ (src_ref ++ (opt_field ++ (0xc1 ∷ 0x02 ∷ (src_tsap ++ (0xc2 ∷ 0x02 ∷ dst_tsap))))))

-- `COTP_ConnectionConfirm.assemble`
unfoldable pub assemble_confirm : ConnectionPacket → Result Bytes
unfolding assemble_tsaps
assemble_confirm p = assemble_tsaps p

-- `COTP_ConnectionRequest.assemble`
unfoldable pub assemble_request : ConnectionPacket → Result Bytes
unfolding assemble_tsaps
assemble_request p = do
  front ← assemble_tsaps p
  tpdu_size ← pack_b p.tpdu_size
  ok (front ++ (0xc0 ∷ 0x01 ∷ tpdu_size))
