-- ===== src/Ipmi/Payload.antt =====
-- fakesession.py and ipmi_server.py: checksums, padding, and the packets of version 2.0 and 1.5.
pub mod RoundTrip
use conpot.Prelude.{
  ℕ, zero, suc, ◌+◌, ◌-◌, ◌*◌, ◌/◌, ◌%◌, ◌^◌, Bool, true, false, ◌&&◌, ◌||◌, Option, none, some,
  List, [], ◌∷◌, ◌++◌, length, take, drop, slice, get_elem?, replicate, ltb, ◌==◌, if◌then◌else◌,
}
use conpot.Prelude.Bytes.{
  Bytes, Result, ok, err, struct_error, index_error, exception, ◌>>=◌, ◌>>◌, guard,
}
use conpot.Ipmi.State.{FakeSession, Packages, attribute, Version, v15, v20}

abbrev pub sum : Bytes → ℕ
sum [] = 0
sum (b ∷ bs) = b + sum bs

-- `x ^ 0xff`: the low eight bits change.
abbrev xor_ff : ℕ → ℕ
xor_ff x = x / 256 * 256 + (255 - x % 256)

-- `_checksum`
unfoldable pub checksum : Bytes → ℕ
checksum bs = (xor_ff (sum bs) + 1) % 256

-- `x | w` for a power of two.
abbrev pub set_bit : ℕ → ℕ → ℕ
set_bit w x = if x / w % 2 == 1 then x else x + w

-- `x & w` for a power of two, as a test.
abbrev pub has_bit : ℕ → ℕ → Bool
has_bit w x = x / w % 2 == 1

-- `xs[i]`
abbrev pub at : Bytes → ℕ → Result ℕ
at bs i = elim (get_elem? bs i) [ none ↦ err index_error | some b ↦ ok b ]

-- `xs[-n:]` and `xs[:-n]` for a positive `n`
abbrev pub last : ℕ → Bytes → Bytes
last n bs = drop (length bs - n) bs

abbrev pub but_last : ℕ → Bytes → Bytes
but_last n bs = take (length bs - n) bs

abbrev all_bytes : Bytes → Bool
all_bytes [] = true
all_bytes (b ∷ bs) = ltb b 256 && all_bytes bs

-- `struct.pack('%dB' % len(bs), *bs)`
abbrev pub pack_bytes : Bytes → Result Bytes
pack_bytes bs = if all_bytes bs then ok bs else err struct_error

-- `struct.pack('<I', n)` and `struct.unpack('<I', bs)[0]`
abbrev pub pack_le32 : ℕ → Result Bytes
pack_le32 n =
    if ltb n (2 ^ 32)
    then ok (n % 256 ∷ n / 256 % 256 ∷ n / 65536 % 256 ∷ n / 16777216 ∷ [])
    else err struct_error

abbrev pub unpack_le32 : Bytes → Result ℕ
unpack_le32 (a ∷ b ∷ c ∷ d ∷ []) = ok (a + 256 * b + 65536 * c + 16777216 * d)
unpack_le32 _ = err struct_error

-- The padding up to a multiple of `n`.
abbrev pub padding : ℕ → ℕ → ℕ
padding n len = if len % n == 0 then 0 else n - len % n

-- `while padval <= neededpad: newdata.append(padval); padval += 1`
abbrev pub count_up : ℕ → ℕ → Bytes
count_up zero padval = []
count_up (suc left) padval = padval ∷ count_up left (padval + 1)

-- `_aespad`
unfoldable pub aespad : Bytes → Bytes
aespad bs =
    let neededpad = padding 16 (length bs + 1) in bs ++ count_up neededpad 1 ++ neededpad ∷ []

-- What `_ipmi20` does after decryption.
unfoldable pub unpad : Bytes → Result Bytes
unpad bs = at (last 1 bs) 0 >>= λ pad. ok (but_last (pad + 1) bs)

-- The type of the payload with the bits for integrity and confidentiality.
unfoldable pub type_byte : FakeSession → ℕ → ℕ
type_byte s payload_type =
    let signed = (if s.integrityalgo then set_bit 64 payload_type else payload_type) in
    if s.confalgo then set_bit 128 signed else signed

-- The size of the payload and the payload, encrypted where the session says so.
unfoldable pub payload_part : Packages → FakeSession → Bytes → Bytes → Result Bytes
unfolding aespad
payload_part pk s iv payload =
    if s.confalgo
    then (do
      let size = length payload + padding 16 (length payload + 1) + 17
      key ← attribute s.aeskey
      plain ← pack_bytes (aespad payload)
      crypted ← pk.aes_encrypt key iv plain
      ok (size % 256 ∷ size / 256 ∷ iv ++ crypted))
    else ok (length payload % 256 ∷ length payload / 256 ∷ payload)

-- The padding and the code of authentication after a message.
unfoldable pub sign : Packages → FakeSession → Bytes → Result Bytes
sign pk s message =
    if s.integrityalgo
    then (do
      let pad = padding 4 (length message - 2)
      let padded = message ++ replicate pad 0xff ++ pad ∷ 7 ∷ []
      key ← attribute s.k1
      integrity ← pack_bytes (drop 4 padded)
      ok (padded ++ take 12 (pk.hmac_sha1 key integrity)))
    else ok message

-- A packet of version 2.0.
unfoldable pub packet_v20 : Packages → FakeSession → Bytes → Bytes → ℕ → Result Bytes
unfolding payload_part sign type_byte
packet_v20 pk s iv payload payload_type = do
  guard (if payload_type == 2 then false else true) exception
  sid ← pack_le32 s.sessionid
  seq ← pack_le32 s.sequencenumber
  part ← payload_part pk s iv payload
  message ←
      sign pk s (0x6 ∷ 0 ∷ 0xff ∷ 0x7 ∷ s.authtype ∷ type_byte s payload_type ∷ sid ++ seq ++ part)
  pack_bytes message

-- The lengths that get a byte of padding.
abbrev legacy_pad : ℕ → Bool
legacy_pad n = n == 56 || (n == 84 || (n == 112 || (n == 128 || n == 156)))

-- A packet of version 1.5.
unfoldable pub packet_v15 : Packages → FakeSession → Bytes → Result Bytes
packet_v15 pk s payload = do
  seq ← pack_le32 s.sequencenumber
  sid ← pack_le32 s.sessionid
  let code = (if s.authtype == 0 then [] else pk.ipmi15_authcode s payload)
  let message = 0x6 ∷ 0 ∷ 0xff ∷ 0x7 ∷ s.authtype ∷ seq ++ sid ++ code ++ length payload ∷ payload
  pack_bytes (if legacy_pad (34 + length message) then message ++ 0 ∷ [] else message)

unfoldable pub packet : Packages → FakeSession → Bytes → Bytes → ℕ → Result Bytes
unfolding packet_v20 packet_v15
packet pk s iv payload payload_type = elim s.ipmiversion [
  | v20 ↦ packet_v20 pk s iv payload payload_type
  | v15 ↦ packet_v15 pk s payload
]
