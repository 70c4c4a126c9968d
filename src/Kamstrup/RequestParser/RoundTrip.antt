-- ===== src/Kamstrup/RequestParser/RoundTrip.antt =====
-- Requests on the wire against the requests that the parser returns.
use conpot.Prelude.{
  ℕ, suc, ◌+◌, ◌-◌, ◌≡◌, refl, sym, ◌∙◌, ◌≢◌, true, false, some, [], ◌∷◌, ◌++◌, append-nil,
  append_assoc, arith, length, length-append, take, drop, take-append_length, drop-append,
  drop-append_length, take-append, slice, ◌==◌, ==_refl,
}
use conpot.Prelude.Bytes.{ok-injective, Bytes, IsBytes, ok, err, index_error, be16}
use conpot.Kamstrup.Frame.{at, escape, escape_inner, valid_crc, eot_magic, request_magic}
use conpot.Kamstrup.Frame.Escape.{escape-ends, valid_crc-append}
use conpot.Kamstrup.Messages.{Request, make_request}
use conpot.Kamstrup.RequestParser.{
  Parser, initial, add_bytes, end_of_frame, take_request, get_request, message_of,
}
use conpot.Kamstrup.RequestParser.Framing.{NoMagic, scan_frame}

module _ (crc16xmodem : Bytes → ℕ) (position : ℕ) (p : Parser) where
  take_request-ok :
      (a b : ℕ) (r : Request)
      → at p.bytes 1 ≡ ok a
      → at p.bytes 2 ≡ ok b
      → make_request a b (message_of p.bytes) ≡ ok r
      → take_request crc16xmodem position p
        ≡ (ok (some r), record p { bytes = drop (position + 1) p.bytes })
  unfolding take_request
  take_request-ok a b r x y z = rw (x, take_request) (rw (y, take_request) (rw (z, take_request)))

  end_of_frame_valid :
      valid_crc crc16xmodem (slice 1 position p.bytes) ≡ ok true
      → end_of_frame crc16xmodem position p ≡ take_request crc16xmodem position p
  unfolding end_of_frame
  end_of_frame_valid h = rw (h, end_of_frame)

  end_of_frame_invalid :
      valid_crc crc16xmodem (slice 1 position p.bytes) ≡ ok false
      → end_of_frame crc16xmodem position p
        ≡ take_request crc16xmodem position
            (record p { parsing = false; bytes = drop position p.bytes })
  unfolding end_of_frame
  end_of_frame_invalid h = rw (h, end_of_frame)

add_bytes-bytes : (xs : Bytes) (p : Parser) → add_bytes xs p ≡ record p { bytes = p.bytes ++ xs }
unfolding add_bytes
add_bytes-bytes [] p = rw append-nil
add_bytes-bytes (x ∷ xs) p =
    add_bytes-bytes xs (record p { bytes = p.bytes ++ x ∷ [] }) ∙ rw append_assoc

==_ne : (a b : ℕ) → a ≢ b → (a == b) ≡ false
==_ne a b h = ground arith

module _ (crc16xmodem : Bytes → ℕ) (comm_address command : ℕ) (message : Bytes) (hi lo : ℕ) where
  -- What stands between the magics of a request.
  abbrev contents : Bytes
  contents = comm_address ∷ command ∷ (message ++ hi ∷ lo ∷ [])

  -- The parser's buffer at the end magic.
  abbrev buffer : Bytes → Bytes
  buffer rest = request_magic ∷ (contents ++ (eot_magic ∷ rest))

  -- The message bytes that the parser cuts out of its buffer.
  abbrev pub cut : Bytes → Bytes
  cut rest = take (length message + length rest) (message ++ (hi ∷ lo ∷ eot_magic ∷ rest))

  message_of-buffer : (rest : Bytes) → message_of (buffer rest) ≡ cut rest
  message_of-buffer rest =
      let tail : (message ++ hi ∷ lo ∷ []) ++ (eot_magic ∷ rest)
          ≡ message ++ (hi ∷ lo ∷ eot_magic ∷ rest) =
        append_assoc message (hi ∷ lo ∷ []) (eot_magic ∷ rest) in
      let n : length (buffer rest) - 3 ≡ suc (suc (suc (length message + length rest))) =
        rw tail (omega (arith, length-append message (hi ∷ lo ∷ eot_magic ∷ rest))) in
      rw n (rw tail refl)

  -- The parser's state at the end magic.
  abbrev at_end_magic : Bytes → Parser
  at_end_magic rest = record { bytes = buffer rest; parsing = true; data_escaped = false }

  valid_crc-buffer :
      (rest : Bytes)
      → valid_crc crc16xmodem (slice 1 (suc (length contents)) (buffer rest))
        ≡ ok (be16 hi lo == crc16xmodem (comm_address ∷ command ∷ message))
  valid_crc-buffer rest =
      rw (take-append_length contents (eot_magic ∷ rest))
        (valid_crc-append crc16xmodem (comm_address ∷ command ∷ message) hi lo)

  take_request-buffer :
      (rest : Bytes) (r : Request)
      → make_request comm_address command (cut rest) ≡ ok r
      → take_request crc16xmodem (suc (length contents)) (at_end_magic rest)
        ≡ (ok (some r), record { bytes = rest; parsing = true; data_escaped = false })
  take_request-buffer rest r h =
      let n : suc (length contents) + 1 ≡ suc (length contents + 1) = omega arith in
      let left : drop (suc (length contents) + 1) (buffer rest) ≡ rest =
        rw n (drop-append 1 contents (eot_magic ∷ rest)) in
      take_request-ok crc16xmodem (suc (length contents)) (at_end_magic rest) comm_address command r
        refl refl (rw (message_of-buffer rest) h)
      ∙ rw left

  -- Whatever bytes without a request magic come first, a request with a right checksum is
  -- returned and taken off the buffer, and what follows it stays. The message bytes are cut at
  -- the end of the whole buffer, so bytes of what follows move the cut.
  pub get_request_frame :
      (noise rest : Bytes) (r : Request)
      → IsBytes contents
      → NoMagic noise
      → be16 hi lo ≡ crc16xmodem (comm_address ∷ command ∷ message)
      → make_request comm_address command (cut rest) ≡ ok r
      → get_request crc16xmodem (record {
        bytes = noise ++ (request_magic ∷ (escape_inner contents ++ (eot_magic ∷ rest)));
        parsing = false;
        data_escaped = false;
      })
        ≡ (ok (some r), record { bytes = rest; parsing = true; data_escaped = false })
  unfolding get_request
  get_request_frame noise rest r b n crc made =
      scan_frame crc16xmodem contents noise rest b n
      ∙ end_of_frame_valid crc16xmodem (suc (length contents)) (at_end_magic rest)
          (valid_crc-buffer rest ∙ rw (crc, ==_refl))
      ∙ take_request-buffer rest r made

  -- A frame with a wrong checksum and nothing behind it: the parser goes on as after a right one,
  -- and reads past the end of the bytes that it has left.
  pub get_request-bad_crc :
      (noise : Bytes)
      → IsBytes contents
      → NoMagic noise
      → be16 hi lo ≢ crc16xmodem (comm_address ∷ command ∷ message)
      → get_request crc16xmodem (record {
        bytes = noise ++ (request_magic ∷ (escape_inner contents ++ (eot_magic ∷ [])));
        parsing = false;
        data_escaped = false;
      })
        ≡ (
          err index_error,
          record { bytes = eot_magic ∷ []; parsing = false; data_escaped = false },
        )
  unfolding get_request
  get_request-bad_crc noise b n wrong =
      scan_frame crc16xmodem contents noise [] b n
      ∙ end_of_frame_invalid crc16xmodem (suc (length contents)) (at_end_magic [])
          (valid_crc-buffer [] ∙ rw (==_ne _ _ wrong))
      ∙ rw (drop-append_length contents (eot_magic ∷ [])) (unfold take_request in refl)

  -- A request that is framed as the meter frames its responses, sent to a new parser behind noise
  -- without a request magic, is the request that the parser returns, and nothing of it is left.
  pub get_request-escape :
      (noise frame : Bytes) (r : Request)
      → IsBytes contents
      → NoMagic noise
      → be16 hi lo ≡ crc16xmodem (comm_address ∷ command ∷ message)
      → escape (request_magic ∷ (contents ++ eot_magic ∷ [])) ≡ ok frame
      → make_request comm_address command message ≡ ok r
      → get_request crc16xmodem (add_bytes (noise ++ frame) initial)
        ≡ (ok (some r), record { bytes = []; parsing = true; data_escaped = false })
  get_request-escape noise frame r b n crc framed made =
      let same : request_magic ∷ escape_inner contents ++ eot_magic ∷ [] ≡ frame =
        ok-injective (sym (escape-ends request_magic contents eot_magic) ∙ framed) in
      let whole : cut [] ≡ message =
        take-append 0 message (hi ∷ lo ∷ eot_magic ∷ []) ∙ append-nil message in
      rw (add_bytes-bytes (noise ++ frame) initial, ← same)
        (get_request_frame noise [] r b n crc (rw whole made))
