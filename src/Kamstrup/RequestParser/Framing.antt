-- ===== src/Kamstrup/RequestParser/Framing.antt =====
-- The parser on escaped frames.
use conpot.Prelude.{
  ℕ, suc, ◌≡◌, refl, ◌∙◌, ◌≢◌, true, false, [], ◌∷◌, ◌++◌, append-nil, append_assoc, arith, length,
}
use conpot.Prelude.Bytes.{Bytes, IsBytes}
use conpot.Kamstrup.Frame.{need_escape, escape_inner, eot_magic, request_magic}
use conpot.Kamstrup.Frame.Escape.{invert-invert}
use conpot.Kamstrup.RequestParser.{scan, end_of_frame}

-- No byte of the list opens a request.
abbrev pub NoMagic : Bytes → Type 0
NoMagic [] = Unit
NoMagic (b ∷ bs) = (b ≢ request_magic) × NoMagic bs

module _ (crc16xmodem : Bytes → ℕ) where
  -- Escaped bytes are read back as the bytes themselves.
  pub scan-escape_inner :
      (xs seen rest : Bytes)
      → IsBytes xs
      → scan crc16xmodem seen true false (escape_inner xs ++ rest)
        ≡ scan crc16xmodem (seen ++ xs) true false rest
  unfolding scan escape_inner need_escape
  scan-escape_inner [] seen rest h = rw append-nil
  scan-escape_inner (x ∷ xs) seen rest h = ground (
    arith,
    scan-escape_inner xs (seen ++ x ∷ []) rest h.1,
    invert-invert x h.0,
    append_assoc seen (x ∷ []) xs,
  )

  -- Bytes before the first request magic are skipped.
  pub scan_noise :
      (noise rest : Bytes)
      → NoMagic noise
      → scan crc16xmodem [] false false (noise ++ rest) ≡ scan crc16xmodem [] false false rest
  unfolding scan
  scan_noise [] rest h = refl
  scan_noise (x ∷ noise) rest h = ground (arith, scan_noise noise rest h.1)

  -- At the end magic of an escaped frame the parser hands over the bytes between the magics.
  pub scan_frame :
      (xs noise rest : Bytes)
      → IsBytes xs
      → NoMagic noise
      → scan crc16xmodem [] false false
          (noise ++ (request_magic ∷ (escape_inner xs ++ (eot_magic ∷ rest))))
        ≡ end_of_frame crc16xmodem (suc (length xs)) (record {
          bytes = request_magic ∷ (xs ++ (eot_magic ∷ rest));
          parsing = true;
          data_escaped = false;
        })
  unfolding scan
  scan_frame xs noise rest h n =
      scan_noise noise (request_magic ∷ (escape_inner xs ++ (eot_magic ∷ rest))) n
      ∙ scan-escape_inner xs (request_magic ∷ []) (eot_magic ∷ rest) h
