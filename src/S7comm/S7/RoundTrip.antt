-- ===== src/S7comm/S7/RoundTrip.antt =====
-- Reading back S7 packets that were packed.
use conpot.Prelude.{
  ℕ, suc, ◌+◌, ◌<◌, ◌≡◌, refl, [], ◌∷◌, ◌++◌, append_assoc, arith, length, take, slice,
  take-append_length, drop-append_length, take-append, if◌then◌else◌, true, Bool-cases, inl, inr,
}
use conpot.Prelude.Bytes.{Bytes, ok, pack_b-eq-ok, pack_h-eq-ok, be16_split, ◌>>=◌}
use conpot.S7comm.S7.{
  S7, ResultInfo, number, tuple, new, has_result_info, known_pdu, pack, pack_header, parse,
  parse_body, parse_result_info,
}

-- The sizes and numbers of a packet fit the header's fields.
pub record Fits (reserved request_id result_info : ℕ) (parameters payload : Bytes) : Type 0 where
  pub reserved_fits : reserved < 65536
  pub request_id_fits : request_id < 65536
  pub result_info_fits : result_info < 65536
  pub parameters_fit : length parameters < 65536
  pub payload_fits : length payload < 65536

abbrev number_of : ResultInfo → ℕ
number_of (number n) = n
number_of (tuple n) = n

-- What is read back: the result information as a tuple, where the packet has one.
abbrev pub read_back : S7 → S7
read_back p = record p {
  result_info = if has_result_info p.pdu_type then tuple (number_of p.result_info) else number 0;
}

parse_body_lem :
    (p : S7) (b : ℕ) (parameters payload rest : Bytes)
    → p.param_length ≡ suc (length parameters)
    → p.data_length ≡ length payload
    → parse_body p ((b ∷ parameters) ++ (payload ++ rest))
      ≡ ok (record p { parameters = b ∷ parameters; payload = payload }, b)
unfolding parse_body
parse_body_lem p b parameters payload rest n m =
    let front : take (suc (length parameters)) (b ∷ (parameters ++ (payload ++ rest)))
        ≡ b ∷ parameters =
      take-append_length (b ∷ parameters) (payload ++ rest) in
    let back : slice (suc (length parameters)) (suc (length parameters) + length payload)
          (b ∷ (parameters ++ (payload ++ rest)))
        ≡ payload =
      rw (take-append (length payload) (b ∷ parameters) (payload ++ rest))
        (rw (take-append_length payload rest) (drop-append_length (b ∷ parameters) payload)) in
    rw (n, m) (rw back (rw (take-append_length parameters (payload ++ rest))))

-- A packet of a known type whose parameters have a first byte is read back as it was made, with
-- that byte as its function code, whatever follows it. The result information comes back as the
-- tuple that `unpack` returns, or as 0 where the type has none.
pub parse-pack :
    (pdu_type reserved request_id result_info b : ℕ) (parameters payload rest : Bytes)
    → known_pdu pdu_type ≡ true
    → Fits reserved request_id result_info (b ∷ parameters) payload
    → (pack (new pdu_type reserved request_id result_info (b ∷ parameters) payload) >>= λ packet.
        parse (packet ++ rest))
      ≡ ok (read_back (new pdu_type reserved request_id result_info (b ∷ parameters) payload), b)
unfolding pack new pack_header parse parse_result_info
parse-pack pdu_type reserved request_id result_info b parameters payload rest known f =
    let packet = new pdu_type reserved request_id result_info (b ∷ parameters) payload in
    let small : pdu_type < 256 = ground arith in
    elim (Bool-cases (has_result_info pdu_type)) [
      | inl h ↦
          rw (known, h)
            (rw
              (
                pack_b-eq-ok pdu_type small,
                pack_h-eq-ok reserved f.reserved_fits,
                pack_h-eq-ok request_id f.request_id_fits,
                pack_h-eq-ok (length (b ∷ parameters)) f.parameters_fit,
                pack_h-eq-ok (length payload) f.payload_fits,
                pack_h-eq-ok result_info f.result_info_fits,
              )
              (rw
                (
                  h,
                  be16_split result_info,
                  be16_split reserved,
                  be16_split request_id,
                  be16_split (length (b ∷ parameters)),
                  be16_split (length payload),
                  append_assoc parameters payload rest,
                )
                (parse_body_lem
                  (record packet { result_info = tuple result_info; parameters = []; payload = [] })
                  b parameters payload rest refl refl)))
      | inr h ↦
          rw (known, h)
            (rw
              (
                pack_b-eq-ok pdu_type small,
                pack_h-eq-ok reserved f.reserved_fits,
                pack_h-eq-ok request_id f.request_id_fits,
                pack_h-eq-ok (length (b ∷ parameters)) f.parameters_fit,
                pack_h-eq-ok (length payload) f.payload_fits,
              )
              (rw
                (
                  h,
                  be16_split reserved,
                  be16_split request_id,
                  be16_split (length (b ∷ parameters)),
                  be16_split (length payload),
                  append_assoc parameters payload rest,
                )
                (parse_body_lem
                  (record packet { result_info = number 0; parameters = []; payload = [] }) b
                  parameters payload rest refl refl)))
    ]
