-- ===== src/S7comm/Tpkt.antt =====
-- tpkt.py: the outermost packet.
pub mod RoundTrip
use conpot.Prelude.{ℕ, ◌+◌, List, [], ◌∷◌, ◌++◌, length, take, drop, slice}
use conpot.Prelude.Bytes.{Bytes, Result, ok, err, parse_exception, pack_b, pack_h, be16, ◌>>=◌}

pub record Tpkt : Type 0 where
  pub version : ℕ
  pub reserved : ℕ
  pub packet_length : ℕ
  pub payload : Bytes

-- `TPKT(version, payload)`
unfoldable pub new : ℕ → Bytes → Tpkt
new version payload = record {
  version = version;
  reserved = 0;
  packet_length = length payload + 4;
  payload = payload;
}

unfoldable pub pack : Tpkt → Result Bytes
pack p = do
  version ← pack_b p.version
  reserved ← pack_b p.reserved
  packet_length ← pack_h p.packet_length
  ok (version ++ (reserved ++ (packet_length ++ p.payload)))

-- `parse`: `packet[:4]` must have four bytes.
unfoldable pub parse : Bytes → Result Tpkt
parse (version ∷ reserved ∷ hi ∷ lo ∷ rest) = ok (record {
  version = version;
  reserved = reserved;
  packet_length = be16 hi lo;
  payload = slice 4 (4 + be16 hi lo) (version ∷ reserved ∷ hi ∷ lo ∷ rest);
})
parse _ = err parse_exception
