-- ===== src/Kamstrup/Server/Progress.antt =====
-- The loops of a connection: each request that the parser returns takes bytes off its buffer.
use conpot.Prelude.{
  ℕ, zero, suc, ◌+◌, ◌<◌, ◌≡◌, ◌≢◌, refl, Bool, true, false, ◌&&◌, some, List, [], ◌∷◌, ◌++◌,
  length, length-append, length-drop, drop, arith,
}
use conpot.Prelude.Bytes.{Bytes, ok}
use conpot.Kamstrup.Frame.{invert}
use conpot.Kamstrup.Messages.{Request}
use conpot.Kamstrup.RequestParser.{Parser, add_bytes, scan, end_of_frame, take_request, get_request}
use conpot.Kamstrup.CommandResponder.{Responder}
use conpot.Kamstrup.Server.{
  Connection, Ended, broke, waiting, out_of_fuel, raised, Arrival, inactive, timed_out, received,
  Round, again, ended, round, answer, serve, handle_arrivals, handle,
}

-- A break or an exception.
abbrev pub HasEnded : Ended → Type 0
HasEnded e = (e ≢ out_of_fuel) × (e ≢ waiting)

-- One of the rounds meets the end of the connection.
abbrev pub has_end : List Arrival → Bool
has_end [] = false
has_end (inactive ∷ arrivals) = true
has_end (timed_out ∷ arrivals) = true
has_end (received [] ∷ arrivals) = true
has_end (received (b ∷ bs) ∷ arrivals) = has_end arrivals

abbrev pub is_waiting : Ended → Bool
is_waiting waiting = true
is_waiting _ = false

-- The fuel did not run out, and it does not wait where a round meets the end.
abbrev pub Ends : List Arrival → Ended → Type 0
Ends arrivals e = (e ≢ out_of_fuel) × ((has_end arrivals && is_waiting e) ≡ false)

and_false : (b : Bool) → (b && false) ≡ false
and_false b = ground arith

module _ (crc16xmodem : Bytes → ℕ) where
  take_request-length :
      (position : ℕ) (bytes : Bytes) (parsing data_escaped : Bool) (r : Request) (p' : Parser)
      → take_request crc16xmodem position
          (record { bytes = bytes; parsing = parsing; data_escaped = data_escaped })
        ≡ (ok (some r), p')
      → length p'.bytes < length bytes
  unfolding take_request
  take_request-length position [] parsing data_escaped r p' h = cc
  take_request-length position (x ∷ xs) parsing data_escaped r p' h =
      ground (arith, length-drop (position + 1) (x ∷ xs))

  end_of_frame-length :
      (position : ℕ) (bytes : Bytes) (parsing data_escaped : Bool) (r : Request) (p' : Parser)
      → end_of_frame crc16xmodem position
          (record { bytes = bytes; parsing = parsing; data_escaped = data_escaped })
        ≡ (ok (some r), p')
      → length p'.bytes < length bytes
  unfolding end_of_frame
  end_of_frame-length position bytes parsing data_escaped r p' h = ground (
    arith,
    take_request-length position bytes parsing data_escaped r p',
    take_request-length position (drop position bytes) false data_escaped r p',
    length-drop position bytes,
  )

  scan-length :
      (seen : Bytes) (parsing data_escaped : Bool) (rest : Bytes) (r : Request) (p' : Parser)
      → scan crc16xmodem seen parsing data_escaped rest ≡ (ok (some r), p')
      → length p'.bytes < length seen + length rest
  unfolding scan
  scan-length seen parsing data_escaped [] r p' h = cc
  scan-length seen parsing data_escaped (d ∷ rest) r p' h = ground (
    arith,
    scan-length seen false data_escaped rest r p',
    scan-length (seen ++ invert d ∷ []) true false rest r p',
    scan-length seen true true rest r p',
    scan-length (seen ++ d ∷ []) true false rest r p',
    end_of_frame-length (length seen) (seen ++ d ∷ rest) true false r p',
    length-append seen (invert d ∷ []),
    length-append seen (d ∷ []),
    length-append seen (d ∷ rest),
  )

  get_request-length :
      (p : Parser) (r : Request)
      → (get_request crc16xmodem p).0 ≡ ok (some r)
      → length (get_request crc16xmodem p).1.bytes < length p.bytes
  unfolding get_request
  get_request-length p r h =
      let (request, p') = scan crc16xmodem [] p.parsing p.data_escaped p.bytes in
      omega (arith, scan-length [] p.parsing p.data_escaped p.bytes r p' (λ i. (h i, p')))

module _ (crc16xmodem get_value : Bytes → ℕ) (responder : Responder) where
  answer-parser :
      (r : Request) (c : Connection)
      → (answer crc16xmodem get_value responder r c).1.parser ≡ c.parser
  unfolding answer
  answer-parser r c = ground arith

  round-length :
      (c c' : Connection)
      → round crc16xmodem get_value responder c ≡ (again, c')
      → length c'.parser.bytes < length c.parser.bytes
  unfolding round
  round-length c c' h = grind (arith, get_request-length, answer-parser)

  -- A round that ends does so by a break or an exception.
  round-ended :
      (c c' : Connection) (e : Ended)
      → round crc16xmodem get_value responder c ≡ (ended e, c')
      → HasEnded e
  unfolding round
  round-ended c c' e h = (ground arith, ground arith)

  serve-ends :
      (fuel : ℕ) (c : Connection)
      → length c.parser.bytes < fuel
      → HasEnded (serve crc16xmodem get_value responder fuel c).0
  unfolding serve
  serve-ends zero c h = absurd (omega arith)
  serve-ends (suc fuel) c h =
      let (r, c') = round crc16xmodem get_value responder c in
      served r c' (λ d. serve-ends fuel d) refl
    where
      served :
          (r : Round) (c' : Connection)
          → ((d : Connection)
              → length d.parser.bytes < fuel
              → HasEnded (serve crc16xmodem get_value responder fuel d).0)
          → round crc16xmodem get_value responder c ≡ (r, c')
          → HasEnded
              (elim r as (λ _. Ended × Connection) [
                | again ↦ serve crc16xmodem get_value responder fuel c'
                | ended e ↦ (e, c')
              ]).0
      served again c' ih q = ih c' (omega (arith, round-length c c' q))
      served (ended e) c' ih q = round-ended c c' e q

  after_serve : List Arrival → Ended → Connection → Ended × Connection
  after_serve arrivals end c = elim end [
    | broke ↦ handle_arrivals crc16xmodem get_value responder arrivals c
    | other ↦ (other, c)
  ]

  handle_arrivals-Ends :
      (arrivals : List Arrival) (c : Connection)
      → Ends arrivals (handle_arrivals crc16xmodem get_value responder arrivals c).0
  unfolding handle_arrivals after_serve
  handle_arrivals-Ends [] c = (λ h. cc, refl)
  handle_arrivals-Ends (inactive ∷ arrivals) c = (λ h. cc, refl)
  handle_arrivals-Ends (timed_out ∷ arrivals) c = (λ h. cc, refl)
  handle_arrivals-Ends (received [] ∷ arrivals) c = (λ h. cc, refl)
  handle_arrivals-Ends (received (b ∷ bs) ∷ arrivals) c =
      let fed = record c { parser = add_bytes (b ∷ bs) c.parser } in
      let (end, c') = serve crc16xmodem get_value responder (suc (length fed.parser.bytes)) fed in
      after end c' (λ d. handle_arrivals-Ends arrivals d)
        (serve-ends (suc (length fed.parser.bytes)) fed (omega arith))
    where
      after :
          (end : Ended) (c' : Connection)
          → ((d : Connection)
              → Ends arrivals (handle_arrivals crc16xmodem get_value responder arrivals d).0)
          → HasEnded end
          → Ends arrivals (after_serve arrivals end c').0
      after broke c' ih h = ih c'
      after waiting c' ih h = absurd (h.1 refl)
      after out_of_fuel c' ih h = absurd (h.0 refl)
      after (raised e) c' ih h = (λ q. cc, and_false (has_end arrivals))

  -- Whatever the rounds of a connection meet, its loops never run on by themselves; and once the client
  -- has closed the connection, the socket has timed out or a reboot has stopped the server, it has
  -- ended, by a break or by an exception, and waits for nothing.
  pub handle-Ends :
      (arrivals : List Arrival) → Ends arrivals (handle crc16xmodem get_value responder arrivals).0
  unfolding handle
  handle-Ends arrivals = handle_arrivals-Ends arrivals _
