-- ===== src/Ipmi/Server/Packets.antt =====
-- A packet that `send_payload` makes with keys is one that `_ipmi20` takes with the same keys.
use conpot.Prelude.{
  ℕ, ◌+◌, ◌-◌, ◌*◌, ◌/◌, ◌%◌, ◌≡◌, refl, sym, ap, ap₂, ◌∙◌, true, some, [], ◌∷◌, ◌++◌, length, take,
  drop, slice, replicate, bytes_eq_iff, arith, length-append, take-append_length,
  drop-append_length, take-append, append_assoc, length-take,
}
use mathlib.Core.Path.{subst}
use conpot.Prelude.Bytes.{Bytes, ok, >>=-ok, ok-injective}
use conpot.Ipmi.State.{FakeSession, Packages}
use conpot.Ipmi.Payload.{
  at, last, but_last, pack_bytes, pack_le32, unpack_le32, padding, aespad, unpad, payload_part,
  sign, packet_v20, type_byte,
}
use conpot.Ipmi.Payload.RoundTrip.{unpad-aespad, length-aespad, drop-last, take-but_last}
use conpot.Ipmi.Server.{code_fits, payload_of}

pack_le32-ok :
    (n : ℕ) (x : Bytes)
    → pack_le32 n ≡ ok x
    → (x ≡ n % 256 ∷ n / 256 % 256 ∷ n / 65536 % 256 ∷ n / 16777216 ∷ []) × (unpack_le32 x ≡ ok n)
pack_le32-ok n x h =
    let bytes : x ≡ n % 256 ∷ n / 256 % 256 ∷ n / 65536 % 256 ∷ n / 16777216 ∷ [] = ground arith in
    (bytes, rw bytes (ap ok (omega arith)))

pack_bytes-ok : (bs x : Bytes) → pack_bytes bs ≡ ok x → x ≡ bs
pack_bytes-ok bs x h = ground arith

-- A slice after the first part of a list.
slice-append :
    (pre rest : Bytes) (n : ℕ) → slice (length pre) (length pre + n) (pre ++ rest) ≡ take n rest
slice-append pre rest n = rw (take-append n pre rest) (drop-append_length pre (take n rest))

payload_of-eq :
    (pk : Packages) (key iv c p payload raw : Bytes) (lo hi : ℕ)
    → at raw 14 ≡ ok lo
    → at raw 15 ≡ ok hi
    → slice 16 (16 + (lo + hi * 256)) raw ≡ payload
    → slice 16 32 raw ≡ iv
    → drop 16 payload ≡ c
    → pk.aes_decrypt key iv c ≡ ok p
    → payload_of pk (some key) raw 192 ≡ unpad p
unfolding payload_of
payload_of-eq pk key iv c p payload raw lo hi e f g i j d = rw (e, f, g, i, j, d)

-- A session with both keys.
abbrev pub secured : FakeSession → Bytes → Bytes → FakeSession
secured t k1 key = record t {
  integrityalgo = true;
  confalgo = true;
  k1 = some k1;
  aeskey = some key;
}

-- What a receiver with the same keys reads in a packet of the type 0.
abbrev pub Reads : Packages → FakeSession → Bytes → Bytes → Bytes → Bytes → Type 0
Reads pk t k1 key payload out =
    (at out 5 ≡ ok 192)
    × (code_fits pk k1 out ≡ true)
    × (unpack_le32 (slice 6 10 out) ≡ ok t.sessionid)
    × (unpack_le32 (slice 10 14 out) ≡ ok t.sequencenumber)
    × (payload_of pk (some key) out 192 ≡ ok payload)

module _ (pk : Packages) (t : FakeSession) (k1 key iv : Bytes)
    (decrypts : (plain crypted : Bytes)
      → pk.aes_encrypt key iv plain ≡ ok crypted
      → (pk.aes_decrypt key iv crypted ≡ ok plain) × (length crypted ≡ length plain))
    (digests : (k message : Bytes) → length (pk.hmac_sha1 k message) ≡ 20)
    (iv_bytes : length iv ≡ 16) where
  abbrev size_of : Bytes → ℕ
  size_of payload = length payload + padding 16 (length payload + 1) + 17

  -- What encryption adds to a packet.
  payload_part-ok :
      (payload part : Bytes)
      → payload_part pk (secured t k1 key) iv payload ≡ ok part
      → (crypted : Bytes) × (part ≡ size_of payload % 256 ∷ size_of payload / 256 ∷ iv ++ crypted)
        × (pk.aes_decrypt key iv crypted ≡ ok (aespad payload))
        × (length crypted + 16 ≡ size_of payload)
  unfolding payload_part
  payload_part-ok payload part h =
      let (plain, e, h1) = >>=-ok (pack_bytes (aespad payload)) h in
      let (crypted, f, h2) = >>=-ok (pk.aes_encrypt key iv plain) h1 in
      let plain_is : plain ≡ aespad payload = pack_bytes-ok _ _ e in
      let (back, len) = decrypts plain crypted f in
      (
        crypted,
        sym (ok-injective h2),
        subst (λ (p : Bytes). pk.aes_decrypt key iv crypted ≡ ok p) plain_is back,
        omega (arith, length-aespad payload, ap length plain_is),
      )

  abbrev padded : Bytes → ℕ → Bytes
  padded message pad = message ++ replicate pad 0xff ++ pad ∷ 7 ∷ []

  -- What a signature adds to a packet.
  sign-ok :
      (message signed : Bytes)
      → sign pk (secured t k1 key) message ≡ ok signed
      → (pad : ℕ) × (signed
          ≡ padded message pad ++ take 12 (pk.hmac_sha1 k1 (drop 4 (padded message pad))))
  unfolding sign
  sign-ok message signed h =
      let pad = padding 4 (length message - 2) in
      let (integrity, e, h1) = >>=-ok (pack_bytes (drop 4 (padded message pad))) h in
      (
        pad,
        subst (λ (m : Bytes). signed ≡ padded message pad ++ take 12 (pk.hmac_sha1 k1 m))
            (pack_bytes-ok _ _ e) (sym (ok-injective h1)),
      )

  -- The first fourteen bytes of a packet of the type 0.
  abbrev head : Bytes → Bytes → Bytes
  head sid seq = 0x6 ∷ 0 ∷ 0xff ∷ 0x7 ∷ t.authtype ∷ 192 ∷ sid ++ seq

  packet_v20-ok :
      (payload out : Bytes)
      → packet_v20 pk (secured t k1 key) iv payload 0 ≡ ok out
      → (sid seq part : Bytes) × (pack_le32 t.sessionid ≡ ok sid)
        × (pack_le32 t.sequencenumber ≡ ok seq)
        × (payload_part pk (secured t k1 key) iv payload ≡ ok part)
        × (sign pk (secured t k1 key) (head sid seq ++ part) ≡ ok out)
  unfolding packet_v20 type_byte
  packet_v20-ok payload out h =
      let (sid, e, h1) = >>=-ok (pack_le32 t.sessionid) h in
      let (seq, f, h2) = >>=-ok (pack_le32 t.sequencenumber) h1 in
      let (part, g, h3) = >>=-ok (payload_part pk (secured t k1 key) iv payload) h2 in
      let (message, i, h4) = >>=-ok (sign pk (secured t k1 key) (head sid seq ++ part)) h3 in
      (
        sid,
        seq,
        part,
        e,
        f,
        g,
        subst (λ (m : Bytes). sign pk (secured t k1 key) (head sid seq ++ part) ≡ ok m)
            (sym (pack_bytes-ok message out h4)) i,
      )

  code_fits-signed :
      (front : Bytes) → code_fits pk k1 (front ++ take 12 (pk.hmac_sha1 k1 (drop 4 front))) ≡ true
  code_fits-signed front =
      let code = take 12 (pk.hmac_sha1 k1 (drop 4 front)) in
      let twelve : length code ≡ 12 =
        omega (arith, length-take 12 (pk.hmac_sha1 k1 (drop 4 front)), digests k1 (drop 4 front)) in
      let ends : last 12 (front ++ code) ≡ code =
        subst (λ (n : ℕ). last n (front ++ code) ≡ code) twelve (drop-last front code) in
      let begins : but_last 12 (front ++ code) ≡ front =
        subst (λ (n : ℕ). but_last n (front ++ code) ≡ front) twelve (take-but_last front code) in
      (bytes_eq_iff (last 12 (front ++ code))
          (take 12 (pk.hmac_sha1 k1 (drop 4 (but_last 12 (front ++ code)))))).1
        (ends ∙ ap (λ (m : Bytes). take 12 (pk.hmac_sha1 k1 (drop 4 m))) (sym begins))

  framed :
      (a b c d e f g h lo hi : ℕ) (crypted rest payload : Bytes)
      → pk.aes_decrypt key iv crypted ≡ ok (aespad payload)
      → length crypted + 16 ≡ lo + hi * 256
      → payload_of pk
          (some key)
          (head (a ∷ b ∷ c ∷ d ∷ []) (e ∷ f ∷ g ∷ h ∷ []) ++ lo ∷ hi ∷ ((iv ++ crypted) ++ rest))
          192
        ≡ ok payload
  framed a b c d e f g h lo hi crypted rest payload decrypted size =
      let pre : Bytes = head (a ∷ b ∷ c ∷ d ∷ []) (e ∷ f ∷ g ∷ h ∷ []) ++ lo ∷ hi ∷ [] in
      let body : Bytes = iv ++ crypted in
      let len : length body ≡ lo + hi * 256 =
        omega (arith, length-append iv crypted, iv_bytes, size) in
      let whole : slice 16 (16 + (lo + hi * 256)) (pre ++ (body ++ rest)) ≡ body =
        slice-append pre (body ++ rest) (lo + hi * 256)
        ∙ subst (λ (n : ℕ). take n (body ++ rest) ≡ body) len (take-append_length body rest) in
      let first : slice 16 32 (pre ++ (body ++ rest)) ≡ iv =
        slice-append pre (body ++ rest) 16
        ∙ subst (λ (n : ℕ). take n (body ++ rest) ≡ iv) iv_bytes
            (ap (take (length iv)) (append_assoc iv crypted rest)
              ∙ take-append_length iv (crypted ++ rest)) in
      let after : drop 16 body ≡ crypted =
        subst (λ (n : ℕ). drop n body ≡ crypted) iv_bytes (drop-append_length iv crypted) in
      payload_of-eq pk key iv crypted (aespad payload) body (pre ++ (body ++ rest)) lo hi refl refl
        whole first after decrypted
      ∙ unpad-aespad payload

  abbrev signed_packet : Bytes → Bytes
  signed_packet front = front ++ take 12 (pk.hmac_sha1 k1 (drop 4 front))

  regroup :
      (body fill pad code : Bytes)
      → ((body ++ fill) ++ pad) ++ code ≡ body ++ ((fill ++ pad) ++ code)
  regroup body fill pad code = simp (append_assoc)

  Reads-framed :
      (a b c d e f g h lo hi pad : ℕ) (crypted payload : Bytes)
      → unpack_le32 (a ∷ b ∷ c ∷ d ∷ []) ≡ ok t.sessionid
      → unpack_le32 (e ∷ f ∷ g ∷ h ∷ []) ≡ ok t.sequencenumber
      → pk.aes_decrypt key iv crypted ≡ ok (aespad payload)
      → length crypted + 16 ≡ lo + hi * 256
      → Reads pk t k1 key payload (
          signed_packet (
            padded
              (head (a ∷ b ∷ c ∷ d ∷ []) (e ∷ f ∷ g ∷ h ∷ []) ++ lo ∷ hi ∷ (iv ++ crypted))
              pad))
  Reads-framed a b c d e f g h lo hi pad crypted payload sid seq decrypted size =
      let sixteen : Bytes → Bytes =
        λ rest. head (a ∷ b ∷ c ∷ d ∷ []) (e ∷ f ∷ g ∷ h ∷ []) ++ lo ∷ hi ∷ rest in
      let front : Bytes = padded (sixteen (iv ++ crypted)) pad in
      let code : Bytes = take 12 (pk.hmac_sha1 k1 (drop 4 front)) in
      (
        refl,
        code_fits-signed front,
        sid,
        seq,
        subst (λ (rest : Bytes). payload_of pk (some key) (sixteen rest) 192 ≡ ok payload)
            (sym (regroup (iv ++ crypted) (replicate pad 0xff) (pad ∷ 7 ∷ []) code))
            (framed a b c d e f g h lo hi crypted ((replicate pad 0xff ++ pad ∷ 7 ∷ []) ++ code)
              payload decrypted size),
      )

  -- A packet of type 0 that `send_payload` makes for a session with both keys is read back by a
  -- receiver with the same keys: its code fits, and its identity, its sequence number and its payload
  -- are those that were sent. Decryption undoes encryption and keeps the length, a digest has 20
  -- bytes, and the initial vector 16.
  pub read-packet_v20 :
      (payload out : Bytes)
      → packet_v20 pk (secured t k1 key) iv payload 0 ≡ ok out
      → Reads pk t k1 key payload out
  read-packet_v20 payload out made =
      let (sid, seq, part, e, f, g, signed) = packet_v20-ok payload out made in
      let (crypted, part_is, decrypted, size) = payload_part-ok payload part g in
      let (pad, out_is) = sign-ok (head sid seq ++ part) out signed in
      let (sid_is, sid_read) = pack_le32-ok t.sessionid sid e in
      let (seq_is, seq_read) = pack_le32-ok t.sequencenumber seq f in
      subst (Reads pk t k1 key payload)
        (sym (
          out_is
          ∙ ap signed_packet
              (ap (λ (m : Bytes). padded m pad) (ap₂ ◌++◌ (ap₂ head sid_is seq_is) part_is))))
        (Reads-framed _ _ _ _ _ _ _ _ (size_of payload % 256) (size_of payload / 256) pad crypted
          payload (subst (λ (x : Bytes). unpack_le32 x ≡ ok t.sessionid) sid_is sid_read)
          (subst (λ (x : Bytes). unpack_le32 x ≡ ok t.sequencenumber) seq_is seq_read) decrypted
          (omega (arith, size)))
