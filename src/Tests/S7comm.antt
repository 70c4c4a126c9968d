-- ===== src/Tests/S7comm.antt =====
-- conpot/protocols/s7comm at concrete inputs.
use conpot.Prelude.{ℕ, ◌≡◌, ◌≢◌, ◌⊎◌, refl, some, [], ◌∷◌, ◌++◌, length, replicate, take, arith}
use conpot.Prelude.Bytes.{Bytes, codes, Result, ok, err, ◌>>=◌}
use conpot.Prelude.Dict
use conpot.Prelude.Dict.{Dict}
use conpot.S7comm.Tpkt
use conpot.S7comm.Tpkt.RoundTrip.{parse-pack_tpkt}
use conpot.S7comm.Cotp.{ConnectionPacket}
use conpot.S7comm.S7
use conpot.S7comm.S7.RoundTrip.{read_back, parse-pack}
use conpot.S7comm.Server.{Connection, handle, recv_all}
use conpot.S7comm.Server.Log.{IsLogged, handle-responses}
use conpot.S7comm.S7.Diagnostics.{request_ssl_17, request_ssl_28}
use conpot.S7comm.S7.Diagnostics.Sizes.{request_ssl_17-answers}

pack-tpkt : Tpkt.pack (Tpkt.new 3 (1 ∷ 2 ∷ [])) ≡ ok (3 ∷ 0 ∷ 0 ∷ 6 ∷ 1 ∷ 2 ∷ [])
unfolding Tpkt.pack Tpkt.new
pack-tpkt = refl

parse-pack_tpkt_example :
    Tpkt.parse ((3 ∷ 0 ∷ 0 ∷ 6 ∷ 1 ∷ 2 ∷ []) ++ 9 ∷ 8 ∷ [])
    ≡ ok (record (Tpkt.new 3 (1 ∷ 2 ∷ [])) { payload = (1 ∷ 2 ∷ []) ++ take 4 (9 ∷ 8 ∷ []) })
parse-pack_tpkt_example =
    parse-pack_tpkt 3 (1 ∷ 2 ∷ []) (9 ∷ 8 ∷ []) (3 ∷ 0 ∷ 0 ∷ 6 ∷ 1 ∷ 2 ∷ []) (omega arith)
      (omega arith) pack-tpkt

abbrev connection : ConnectionPacket
connection = record {
  dst_ref = 0;
  src_ref = 4;
  opt_field = 0;
  src_tsap = 0x100;
  dst_tsap = 0x102;
  tpdu_size = 10;
}

parse-pack_example :
    (S7.pack (S7.new 3 0 77 0 (0xf0 ∷ 1 ∷ []) (5 ∷ [])) >>= λ packet. S7.parse (packet ++ 9 ∷ []))
    ≡ ok (read_back (S7.new 3 0 77 0 (0xf0 ∷ 1 ∷ []) (5 ∷ [])), 0xf0)
parse-pack_example = parse-pack 3 0 77 0 0xf0 (1 ∷ []) (5 ∷ []) (9 ∷ []) refl (omega arith)

abbrev names : Dict Bytes Bytes
names =
    (codes "W#16#0001", codes "system")
    ∷ (codes "W#16#0002", codes "module")
    ∷ (codes "W#16#0003", codes "plant")
    ∷ (codes "W#16#0004", codes "c")
    ∷ (codes "W#16#0005", codes "serial")
    ∷ (codes "W#16#0007", codes "type")
    ∷ (codes "W#16#000A", codes "oem")
    ∷ (codes "W#16#000B", codes "place")
    ∷ []

abbrev ssl_lists : Dict Bytes (Dict Bytes Bytes)
ssl_lists = (codes "W#16#xy1C", names) ∷ (codes "W#16#xy11", names) ∷ []

abbrev get_value : Bytes → Result Bytes
get_value key = ok key

-- A component identification.
abbrev identified : Bytes
identified =
    0xff
    ∷ 9
    ∷ 0
    ∷ 36
    ∷ 0
    ∷ 17
    ∷ 0
    ∷ 1
    ∷ 0
    ∷ 28
    ∷ 0
    ∷ 1
    ∷ 0
    ∷ 1
    ∷ (codes "system" ++ (replicate 14 0 ++ (0 ∷ 0 ∷ 0 ∷ 0 ∷ 0 ∷ 0 ∷ [])))

request_ssl_17-identified : request_ssl_17 ssl_lists get_value (some 1) ≡ ok identified
unfolding request_ssl_17 Dict.get
request_ssl_17-identified = refl

request_ssl_17-answers_example :
    ((◌≡◌ {A = ℕ} 1 1) × (length identified ≡ 40))
    ⊎ ((◌≢◌ {A = ℕ} 1 1) × (◌≢◌ {A = ℕ} 1 6) × (◌≢◌ {A = ℕ} 1 7) × (identified ≡ []))
request_ssl_17-answers_example =
    request_ssl_17-answers ssl_lists get_value 1 identified request_ssl_17-identified

abbrev of_ok : Result Bytes → Bytes
of_ok (ok d) = d
of_ok (err e) = []

request_ssl_28-ok :
    request_ssl_28 ssl_lists get_value (some 28)
    ≡ ok (of_ok (request_ssl_28 ssl_lists get_value (some 28)))
unfolding request_ssl_28 Dict.get
request_ssl_28-ok = refl

-- A connection request in two pieces, and the end of the connection.
abbrev client : Connection
client = record {
  pieces =
      (3 ∷ 0 ∷ [])
      ∷ (0 ∷ 22 ∷ 17 ∷ 0xe0 ∷ 0 ∷ 0 ∷ 0 ∷ 4 ∷ 0 ∷ 0xc1 ∷ 2 ∷ 1 ∷ 0 ∷ 0xc2 ∷ 2 ∷ 1 ∷ 2 ∷ 0xc0 ∷ 1
          ∷ 10 ∷ [])
      ∷ [];
  sent = [];
  events = [];
}

-- The first four bytes are gathered from both pieces.
head_gathered : (recv_all 4 client.pieces).0 ≡ 3 ∷ 0 ∷ 0 ∷ 22 ∷ []
unfolding recv_all
head_gathered = refl

handle-responses_example : IsLogged (handle [] (λ b. ok b) 5 client).1
handle-responses_example = handle-responses [] (λ b. ok b) 5 client refl
