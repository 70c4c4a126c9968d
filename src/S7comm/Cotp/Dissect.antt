-- ===== src/S7comm/Cotp/Dissect.antt =====
-- Connection packets that the server assembles, read by its own `dissect`.
use conpot.Prelude.{
  ℕ, zero, suc, suc-add, drop, ◌+◌, ◌≤◌, length-drop, ◌<◌, ◌≡◌, refl, ap, [], ◌∷◌, arith, length,
}
use conpot.Prelude.Bytes.{Bytes, Result, ok, pack_b-eq-ok, pack_h-eq-ok, be16_split, ◌>>=◌}
use mathlib.Core.Path.{fun_ext}
use conpot.S7comm.Cotp.{
  ConnectionPacket, dissect, dissect_params, param_value, set_param, assemble_confirm,
  assemble_request,
}

-- The fields fit the bytes of the header.
pub record Fits (p : ConnectionPacket) : Type 0 where
  pub dst_ref_fits : p.dst_ref < 65536
  pub src_ref_fits : p.src_ref < 65536
  pub opt_field_fits : p.opt_field < 256
  pub src_tsap_fits : p.src_tsap < 65536
  pub dst_tsap_fits : p.dst_tsap < 65536
  pub tpdu_size_fits : p.tpdu_size < 256

-- A connection request is read back field by field.
dissect-assemble_request : (p : ConnectionPacket) → Fits p → (assemble_request p >>= dissect) ≡ ok p
unfolding assemble_request dissect
dissect-assemble_request p f = rw (pack_h-eq-ok p.dst_ref f.dst_ref_fits) (
    rw (pack_h-eq-ok p.src_ref f.src_ref_fits) (
      rw (pack_b-eq-ok p.opt_field f.opt_field_fits) (
        rw (pack_h-eq-ok p.src_tsap f.src_tsap_fits) (
          rw (pack_h-eq-ok p.dst_tsap f.dst_tsap_fits) (
            rw (pack_b-eq-ok p.tpdu_size f.tpdu_size_fits) (
              rw (
                be16_split p.dst_ref,
                be16_split p.src_ref,
                be16_split p.src_tsap,
                be16_split p.dst_tsap,
              )))))))

-- A connection confirm is read back without its size, which it does not carry.
dissect-assemble_confirm :
    (p : ConnectionPacket)
    → Fits p
    → (assemble_confirm p >>= dissect) ≡ ok (record p { tpdu_size = 0 })
unfolding assemble_confirm dissect
dissect-assemble_confirm p f = rw (pack_h-eq-ok p.dst_ref f.dst_ref_fits) (
    rw (pack_h-eq-ok p.src_ref f.src_ref_fits) (
      rw (pack_b-eq-ok p.opt_field f.opt_field_fits) (
        rw (pack_h-eq-ok p.src_tsap f.src_tsap_fits) (
          rw (pack_h-eq-ok p.dst_tsap f.dst_tsap_fits) (
            rw (
              be16_split p.dst_ref,
              be16_split p.src_ref,
              be16_split p.src_tsap,
              be16_split p.dst_tsap,
            ))))))

-- With the fuel that `dissect` gives, the loop ends with the chunk: more fuel changes nothing.
dissect_params-fuel :
    (fuel extra : ℕ) (chunk : Bytes) (p : ConnectionPacket)
    → length chunk ≤ fuel
    → dissect_params (fuel + extra) chunk p ≡ dissect_params fuel chunk p
unfolding dissect_params
dissect_params-fuel fuel extra [] p h = refl
dissect_params-fuel zero extra (b ∷ chunk) p h = absurd (omega arith)
dissect_params-fuel (suc fuel) extra (b ∷ []) p h = rw (suc-add fuel extra)
dissect_params-fuel (suc fuel) extra (code ∷ n ∷ chunk) p h =
    let same = fun_ext λ (p' : ConnectionPacket).
      dissect_params-fuel fuel extra (drop n chunk) p' (omega (arith, length-drop n chunk)) in
    rw (suc-add fuel extra) (
      ap
        (λ (g : ConnectionPacket → Result ConnectionPacket).
          param_value n chunk >>= λ value. set_param code value p >>= g)
        same)
