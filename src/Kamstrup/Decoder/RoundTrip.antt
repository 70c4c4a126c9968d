-- ===== src/Kamstrup/Decoder/RoundTrip.antt =====
-- The decoder on the meter's own responses.
use native.Mathlib.Nat.{pow-suc}
use conpot.Prelude.{
  ℕ, zero, suc, ◌+◌, ◌-◌, ◌*◌, ◌^◌, ◌<◌, ◌≤◌, ◌/◌, ◌%◌, ◌≡◌, ◌≢◌, refl, sym, ap, ◌∙◌, true, false,
  some, List, [], ◌∷◌, ◌++◌, map, append-nil, append_assoc, arith, length, length-append, ltb, drop,
  take-append_length, drop-append_length, ==_refl,
}
use conpot.Prelude.Bytes.{
  ok-injective, Bytes, IsBytes, IsBytes-append, Result, ok, be16, be16_split,
}
use conpot.Kamstrup.Frame.{escape, need_escape, escape_inner, response_magic, eot_magic}
use conpot.Kamstrup.Frame.Escape.{invert-invert, escape-ends, valid_crc-append}
use conpot.Kamstrup.Messages.{
  Register, all_chr, command_byte, pack_value, register_bytes, registers_bytes, serialize,
  serialize_registers,
}
use conpot.Kamstrup.Messages.Values.{
  all_chr-IsBytes, split_mod, length-pack_value, pack_value-IsBytes,
}
use conpot.Kamstrup.Decoder.{
  decode_message, decode_response, initial, Decoded, register_response, invalid_register,
  read_value, read_values, decode, end_of_frame, decode_out,
}

pow_pos : (n : ℕ) → 0 < 256 ^ n
pow_pos zero = omega arith
pow_pos (suc n) = rw (pow-suc 256 n) (omega (arith, pow_pos n))

-- Reading the bytes of a value adds the value.
read_value-pack_value :
    (n k value : ℕ) (rest : Bytes) (acc : ℕ)
    → read_value (n + k) (pack_value n value ++ rest) acc
      ≡ read_value k rest (acc + value % 256 ^ n * 256 ^ k)
unfolding pack_value read_value
read_value-pack_value zero k value rest acc =
    let none_left : value % 1 ≡ 0 = omega arith in
    let sum : acc + value % 1 * 256 ^ k ≡ acc = rw none_left (omega arith) in
    let count : 0 + k ≡ k = omega arith in rw (count, sum)
read_value-pack_value (suc n) k value rest acc =
    let count : suc n + k ≡ n + suc k = omega arith in
    let sum : acc + value / 256 % 256 ^ n * 256 ^ suc k + value % 256 * 256 ^ k
        ≡ acc + value % 256 ^ suc n * 256 ^ k =
      rw (pow-suc 256 k, pow-suc 256 n)
        (omega (arith, ap (λ (t : ℕ). t * 256 ^ k) (split_mod value (256 ^ n) (pow_pos n)))) in
    rw (count, append_assoc (pack_value n (value / 256)) (value % 256 ∷ []) rest)
      (read_value-pack_value n (suc k) (value / 256) (value % 256 ∷ rest) acc
        ∙ ap (read_value k rest) sum)

-- What a response tells of a register: its number, and its value as far as its length holds it.
abbrev pub reading : (Bytes → ℕ) → Register → ℕ × ℕ
reading get_value r = (r.name, get_value r.databus_key % 256 ^ r.length)

-- The fields of a register that a response carries fit their bytes.
pub record Fits (r : Register) : Type 0 where
  pub name_fits : r.name < 65536
  pub units_fits : r.units < 256
  pub length_fits : r.length < 256
  pub unknown_fits : r.unknown < 256

abbrev pub AllFit : List Register → Type 0
AllFit [] = Unit
AllFit (r ∷ rs) = Fits r × AllFit rs

-- What a response is decoded to: one that no requested register is in has a text of its own.
abbrev pub decoded_response : (Bytes → ℕ) → ℕ → List Register → Decoded
decoded_response get_value comm_address [] = invalid_register comm_address
decoded_response get_value comm_address (r ∷ rs) =
    register_response comm_address (map (reading get_value) (r ∷ rs))

decode_message-ok :
    (comm_address : ℕ) (msg : Bytes) (values : List (ℕ × ℕ))
    → msg ≢ []
    → read_values (length msg) msg ≡ ok values
    → decode_message comm_address msg ≡ ok (register_response comm_address values)
unfolding decode_message
decode_message-ok comm_address [] values ne h = absurd (ne refl)
decode_message-ok comm_address (b ∷ msg) values ne h = rw h

module _ (get_value : Bytes → ℕ) where
  read_value-register :
      (r : Register) (rest : Bytes)
      → read_value r.length (pack_value r.length (get_value r.databus_key) ++ rest) 0
        ≡ ok (get_value r.databus_key % 256 ^ r.length)
  unfolding read_value
  read_value-register r rest =
      let count : r.length + 0 ≡ r.length = omega arith in
      let value : 0 + get_value r.databus_key % 256 ^ r.length * 1
          ≡ get_value r.databus_key % 256 ^ r.length =
        omega arith in
      rw count at (read_value-pack_value r.length 0 (get_value r.databus_key) rest 0 ∙ ap ok value)

  drop-register :
      (r : Register) (u : ℕ) (rest : Bytes)
      → drop (1 + r.length) (u ∷ (pack_value r.length (get_value r.databus_key) ++ rest)) ≡ rest
  drop-register r u rest =
      let n : 1 + r.length ≡ suc (length (pack_value r.length (get_value r.databus_key))) =
        omega (arith, length-pack_value r.length (get_value r.databus_key)) in
      rw n (drop-append_length (pack_value r.length (get_value r.databus_key)) rest)

  read_values-registers_bytes :
      (rs : List Register) (fuel : ℕ)
      → length rs ≤ fuel
      → read_values fuel (registers_bytes get_value rs) ≡ ok (map (reading get_value) rs)
  unfolding read_values registers_bytes register_bytes
  read_values-registers_bytes [] fuel h = refl
  read_values-registers_bytes (r ∷ rs) zero h = absurd (omega arith)
  read_values-registers_bytes (r ∷ rs) (suc fuel) h =
      rw (read_value-register r (registers_bytes get_value rs)) (
        rw (
          drop-register r r.unknown (registers_bytes get_value rs),
          read_values-registers_bytes rs fuel (omega arith),
          be16_split r.name,
        ))

  registers_bytes-ne : (r : Register) (rs : List Register) → registers_bytes get_value (r ∷ rs) ≢ []
  unfolding registers_bytes register_bytes
  registers_bytes-ne r rs h = cc

  length-registers_bytes : (rs : List Register) → length rs ≤ length (registers_bytes get_value rs)
  unfolding registers_bytes register_bytes
  length-registers_bytes [] = omega arith
  length-registers_bytes (r ∷ rs) = omega (
    arith,
    length-registers_bytes rs,
    length-append (pack_value r.length (get_value r.databus_key)) (registers_bytes get_value rs),
  )

  registers_bytes-IsBytes :
      (rs : List Register) → AllFit rs → IsBytes (registers_bytes get_value rs)
  unfolding registers_bytes register_bytes
  registers_bytes-IsBytes [] h = tt
  registers_bytes-IsBytes (r ∷ rs) h =
      let tail =
        IsBytes-append (pack_value r.length (get_value r.databus_key))
          (registers_bytes get_value rs) (pack_value-IsBytes r.length (get_value r.databus_key))
          (registers_bytes-IsBytes rs h.1) in
      let f = h.0 in
      (
        omega (arith, f.name_fits),
        (omega arith, (f.units_fits, (f.length_fits, (f.unknown_fits, tail)))),
      )

  decode_message-registers :
      (comm_address : ℕ) (rs : List Register)
      → decode_message comm_address (registers_bytes get_value rs)
        ≡ ok (decoded_response get_value comm_address rs)
  unfolding decode_message registers_bytes
  decode_message-registers comm_address [] = refl
  decode_message-registers comm_address (r ∷ rs) =
      let read =
        read_values-registers_bytes (r ∷ rs) (length (registers_bytes get_value (r ∷ rs)))
          (length-registers_bytes (r ∷ rs)) in
      decode_message-ok comm_address (registers_bytes get_value (r ∷ rs))
        (map (reading get_value) (r ∷ rs)) (registers_bytes-ne r rs) read

  -- What the decoder makes of the bytes between a response's magic and its end.
  decode_response-registers :
      (comm_address hi lo : ℕ) (rs : List Register)
      → decode_response (
          response_magic
          ∷ comm_address
          ∷ command_byte
          ∷ (registers_bytes get_value rs ++ hi ∷ lo ∷ []))
        ≡ ok (decoded_response get_value comm_address rs)
  unfolding decode_response
  decode_response-registers comm_address hi lo rs =
      let bytes = registers_bytes get_value rs in
      let n : length (response_magic ∷ comm_address ∷ command_byte ∷ (bytes ++ hi ∷ lo ∷ [])) - 2
          ≡ suc (suc (suc (length bytes))) =
        omega (arith, length-append bytes (hi ∷ lo ∷ [])) in
      rw (n, take-append_length bytes (hi ∷ lo ∷ [])) (decode_message-registers comm_address rs)

module _ (crc16xmodem : Bytes → ℕ) (magic : ℕ) (finish : Bytes → Result Decoded) where
  -- Escaped bytes go into the buffer as the bytes themselves.
  decode-escape_inner :
      (xs buffer rest : Bytes)
      → IsBytes xs
      → decode crc16xmodem magic finish
          (record { buffer = buffer; parsing = true; data_escaped = false })
          (escape_inner xs ++ rest)
        ≡ decode crc16xmodem magic finish
            (record { buffer = buffer ++ xs; parsing = true; data_escaped = false })
            rest
  unfolding decode escape_inner need_escape
  decode-escape_inner [] buffer rest h = rw append-nil
  decode-escape_inner (x ∷ xs) buffer rest h = ground (
    arith,
    decode-escape_inner xs (buffer ++ x ∷ []) rest h.1,
    invert-invert x h.0,
    append_assoc buffer (x ∷ []) xs,
  )

module _ (crc16xmodem : Bytes → ℕ) (finish : Bytes → Result Decoded) where
  -- A frame with a right checksum is handed over whole, without its end magic.
  decode_frame :
      (body rest : Bytes) (hi lo : ℕ) (decoded : Decoded)
      → IsBytes (body ++ hi ∷ lo ∷ [])
      → be16 hi lo ≡ crc16xmodem body
      → finish (response_magic ∷ (body ++ hi ∷ lo ∷ [])) ≡ ok decoded
      → decode crc16xmodem response_magic finish initial
          (response_magic ∷ (escape_inner (body ++ hi ∷ lo ∷ []) ++ (eot_magic ∷ rest)))
        ≡ (ok (some decoded), record { buffer = []; parsing = true; data_escaped = false })
  unfolding decode
  decode_frame body rest hi lo decoded b crc fin =
      decode-escape_inner crc16xmodem response_magic finish (body ++ hi ∷ lo ∷ [])
        (response_magic ∷ []) (eot_magic ∷ rest) b
      ∙ rw (valid_crc-append crc16xmodem body hi lo, end_of_frame)
          (rw (crc, ==_refl) (rw (fin, end_of_frame)))

-- A response that the meter serializes, whose address and fields fit their bytes, is decoded to the
-- registers that went into it, each with its value cut to its length, whatever follows the response;
-- one without registers is decoded to the text for an invalid register.
pub decode_out-serialize_registers :
    (crc16xmodem get_value : Bytes → ℕ) (comm_address : ℕ) (rs : List Register) (frame rest : Bytes)
    → comm_address < 256
    → AllFit rs
    → ((message : Bytes) → crc16xmodem message < 65536)
    → serialize_registers get_value crc16xmodem comm_address rs ≡ ok frame
    → decode_out crc16xmodem initial (frame ++ rest) ≡ (
      ok (some (decoded_response get_value comm_address rs)),
      record { buffer = []; parsing = true; data_escaped = false },
    )
unfolding decode_out serialize_registers serialize
decode_out-serialize_registers crc16xmodem get_value comm_address rs frame rest c fits small made =
    let bytes = registers_bytes get_value rs in
    let body : Bytes = comm_address ∷ command_byte ∷ bytes in
    let crc : ℕ = crc16xmodem body in
    let xs : Bytes = body ++ crc / 256 ∷ crc % 256 ∷ [] in
    let chars : all_chr bytes ≡ true =
      all_chr-IsBytes bytes (registers_bytes-IsBytes get_value rs fits) in
    let address : ltb comm_address 256 ≡ true = ground arith in
    let framed : escape (response_magic ∷ (body ++ (crc / 256 ∷ crc % 256 ∷ eot_magic ∷ [])))
        ≡ ok frame =
      rw (address, chars) at made in
    let tail : body ++ (crc / 256 ∷ crc % 256 ∷ eot_magic ∷ []) ≡ xs ++ eot_magic ∷ [] =
      sym (append_assoc body (crc / 256 ∷ crc % 256 ∷ []) (eot_magic ∷ [])) in
    let same : response_magic ∷ (escape_inner xs ++ eot_magic ∷ []) ≡ frame =
      ok-injective (sym (escape-ends response_magic xs eot_magic) ∙ rw (← tail) framed) in
    let whole : frame ++ rest ≡ response_magic ∷ (escape_inner xs ++ (eot_magic ∷ rest)) =
      rw (← same)
        (ap (◌∷◌ response_magic) (append_assoc (escape_inner xs) (eot_magic ∷ []) rest)) in
    let hi_fits : crc / 256 < 256 = omega (arith, small body) in
    let lo_fits : crc % 256 < 256 = omega arith in
    rw whole (
      decode_frame crc16xmodem decode_response body rest (crc / 256) (crc % 256)
        (decoded_response get_value comm_address rs)
        (
          c,
          (
            omega arith,
            IsBytes-append bytes (crc / 256 ∷ crc % 256 ∷ [])
                (registers_bytes-IsBytes get_value rs fits) (hi_fits, (lo_fits, tt)),
          ),
        )
        (be16_split crc)
        (decode_response-registers get_value comm_address (crc / 256) (crc % 256) rs))
