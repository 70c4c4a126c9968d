-- ===== src/S7comm/Cotp/RoundTrip.antt =====
-- Reading back COTP packets that were packed.
use conpot.Prelude.{
  ℕ, suc, ◌+◌, ◌<◌, ◌≡◌, ◌≢◌, [], ◌∷◌, ◌++◌, arith, length, take-append_length, drop-append_length,
  ◌==◌, false,
}
use conpot.Prelude.Bytes.{Bytes, ok, pack_b-eq-ok, ◌>>=◌}
use conpot.S7comm.Cotp.{new, pack, parse}

-- A data packet is read back with the whole payload as the trailer, behind the option field.
parse-pack_data :
    (opt_field : ℕ) (payload trailer : Bytes)
    → opt_field < 256
    → (pack (new 0xf0 opt_field payload trailer) >>= parse)
      ≡ ok (new 0xf0 opt_field [] (payload ++ trailer))
unfolding pack parse new
parse-pack_data opt_field payload trailer h = rw (pack_b-eq-ok opt_field h)

-- Any other packet is read back as it was made, with the option field 0, if its payload has a
-- byte and fits the length field.
parse-pack_other :
    (tpdu_type opt_field b : ℕ) (payload trailer : Bytes)
    → tpdu_type ≢ 0xf0
    → tpdu_type < 256
    → length payload + 2 < 256
    → (pack (new tpdu_type opt_field (b ∷ payload) trailer) >>= parse)
      ≡ ok (new tpdu_type 0 (b ∷ payload) trailer)
unfolding pack parse new
parse-pack_other tpdu_type opt_field b payload trailer ne t n =
    let other : (tpdu_type == 0xf0) ≡ false = ground arith in
    let size : 1 + suc (length payload) ≡ suc (suc (length payload)) = omega arith in
    let cut : 1 + suc (suc (length payload)) ≡ suc (suc (suc (length payload))) = omega arith in
    rw (other, size)
      (rw (pack_b-eq-ok (suc (suc (length payload))) (omega arith), pack_b-eq-ok tpdu_type t)
        (rw (other, cut)
          (rw (take-append_length payload trailer, drop-append_length payload trailer))))
