-- ===== src/S7comm/Tpkt/RoundTrip.antt =====
-- Reading back a packet that was packed.
use conpot.Prelude.{
  ℕ, suc, ◌+◌, ◌<◌, ◌/◌, ◌%◌, ◌≡◌, sym, ◌∙◌, ◌∷◌, ◌++◌, arith, length, take, take-append,
}
use conpot.Prelude.Bytes.{Bytes, ok, pack_b-eq-ok, pack_h-eq-ok, be16_split, ok-injective}
use conpot.S7comm.Tpkt.{new, pack, parse}

-- The bytes of a packet whose payload fits the length field.
pub pack-new :
    (version : ℕ) (payload : Bytes)
    → version < 256
    → length payload + 4 < 65536
    → pack (new version payload)
      ≡ ok (version ∷ 0 ∷ (length payload + 4) / 256 ∷ (length payload + 4) % 256 ∷ payload)
unfolding pack new
pack-new version payload v n = rw (pack_b-eq-ok version v, pack_h-eq-ok (length payload + 4) n)

-- A packed packet is read back with its version and its length. The length counts the header, and
-- the payload is cut behind the header, so up to four bytes that follow the packet come with it.
pub parse-pack_tpkt :
    (version : ℕ) (payload rest packet : Bytes)
    → version < 256
    → length payload + 4 < 65536
    → pack (new version payload) ≡ ok packet
    → parse (packet ++ rest)
      ≡ ok (record (new version payload) { payload = payload ++ take 4 rest })
unfolding parse new
parse-pack_tpkt version payload rest packet v n packed =
    let n' : ℕ = length payload + 4 in
    let same : version ∷ 0 ∷ n' / 256 ∷ n' % 256 ∷ payload ≡ packet =
      ok-injective (sym (pack-new version payload v n) ∙ packed) in
    let long : 4 + (length payload + 4) ≡ suc (suc (suc (suc (length payload + 4)))) =
      omega arith in
    rw (← same) (rw (be16_split n') (rw (long, take-append 4 payload rest)))
