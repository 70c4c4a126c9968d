-- ===== src/Http/Wire/Sent.antt =====
-- What `send_chunked` writes.
use conpot.Prelude.{
  ℕ, zero, suc, ◌+◌, ◌≤◌, ◌≡◌, refl, sym, ap, ◌∙◌, Option, none, some, List, [], ◌∷◌, ◌++◌, length,
  take, drop, slice, arith, append_assoc, append-nil, length-take, length-drop,
}
use mathlib.Core.Path.{subst}
use conpot.Prelude.Bytes.{Bytes, Result, ok}
use conpot.Prelude.Exec.{Exec, pure, lift, modify, resume, ◌>>=◌}
use conpot.Prelude.Text.{pos, int, split}
use conpot.Http.State.{Header, Connection, write}
use conpot.Http.Wire.{
  crlf, hex, hex_int, add, write_chunk, send_widths, remainder, send_remainder, send_trailers,
  send_chunked, width_of,
}
use conpot.Http.Wire.Chunked.{decode, chunk_text, prepend, decode-chunk, decode-end}

-- A method that succeeds with a value, and only writes a text.
pub record Writes {A : Type 0} (method : Exec Connection A) (a : A) (text : Bytes) : Type 0 where
  pub run : (c : Connection) → method c ≡ (ok a, record c { wfile = c.wfile ++ text })

Writes-write : (text : Bytes) → Writes (write text) tt text
unfolding write modify
Writes-write text = record { run = λ c. refl }

Writes-pure : {A : Type 0} (a : A) → Writes (pure a) a []
unfolding pure
Writes-pure a = record {
  run = λ c. ap (λ (t : Bytes). (ok a, record c { wfile = t })) (sym (append-nil c.wfile));
}

Writes-bind :
    {A B : Type 0} (method : Exec Connection A) (next : A → Exec Connection B) (a : A) (b : B)
    (text more : Bytes)
    → Writes method a text
    → Writes (next a) b more
    → Writes (method >>= next) b (text ++ more)
unfolding ◌>>=◌
Writes-bind method next a b text more h k = record {
  run = λ c.
      ap (resume next) (h.run c)
      ∙ k.run (record c { wfile = c.wfile ++ text })
      ∙ ap (λ (t : Bytes). (ok b, record c { wfile = t })) (append_assoc c.wfile text more);
}

Writes-lift :
    {A B : Type 0} (r : Result A) (next : A → Exec Connection B) (a : A) (b : B) (text : Bytes)
    → r ≡ ok a
    → Writes (next a) b text
    → Writes (lift r >>= next) b text
unfolding ◌>>=◌ lift
Writes-lift {A} r next a b text e k = record {
  run = λ c. ap (λ (q : Result A). resume next (q, c)) e ∙ k.run c;
}

Writes-chunk :
    (size bytes : Bytes) → Writes (write_chunk size bytes) tt ((size ++ crlf) ++ (bytes ++ crlf))
unfolding write_chunk
Writes-chunk size bytes =
    Writes-bind (write (size ++ crlf)) _ tt tt (size ++ crlf) (bytes ++ crlf)
      (Writes-write (size ++ crlf)) (Writes-write (bytes ++ crlf))

-- The widths that the texts of a list stand for; none is zero.
abbrev pub Widths : List Bytes → List ℕ → Type 0
Widths [] [] = Unit
Widths (t ∷ ts) (n ∷ ns) = (int t ≡ some (pos (suc n))) × Widths ts ns
Widths _ _ = ⊥

abbrev pub total : List ℕ → ℕ
total [] = 0
total (n ∷ ns) = suc n + total ns

-- The chunks of a payload.
abbrev pub chunk_texts : Bytes → List ℕ → Bytes
chunk_texts p [] = []
chunk_texts p (n ∷ ns) = chunk_text (suc n) (take (suc n) p) ++ chunk_texts (drop (suc n) p) ns

zero_sum : (k : ℕ) → 0 + k ≡ k
zero_sum k = omega arith

suc_sum : (k n : ℕ) → suc k + n ≡ suc (k + n)
suc_sum k n = omega arith

drop-nil : (n : ℕ) → drop {A = ℕ} n [] ≡ []
drop-nil zero = refl
drop-nil (suc n) = refl

drop-drop : (k n : ℕ) (p : Bytes) → drop n (drop k p) ≡ drop (k + n) p
drop-drop zero n p = ap (λ (m : ℕ). drop m p) (sym (zero_sum n))
drop-drop (suc k) n [] = drop-nil n ∙ sym (drop-nil (suc k + n))
drop-drop (suc k) n (x ∷ p) = drop-drop k n p ∙ ap (λ (m : ℕ). drop m (x ∷ p)) (sym (suc_sum k n))

take-nil : (n : ℕ) → take {A = ℕ} n [] ≡ []
take-nil zero = refl
take-nil (suc n) = refl

slice-drop : (k n : ℕ) (p : Bytes) → slice k (k + n) p ≡ take n (drop k p)
slice-drop zero n p = ap (λ (m : ℕ). take m p) (zero_sum n)
slice-drop (suc k) n [] = ap (drop (suc k)) (take-nil (suc k + n)) ∙ sym (take-nil n)
slice-drop (suc k) n (x ∷ p) =
    ap (λ (m : ℕ). drop (suc k) (take m (x ∷ p))) (suc_sum k n) ∙ slice-drop k n p

take-split : (k n : ℕ) (p : Bytes) → take k p ++ take n (drop k p) ≡ take (k + n) p
take-split zero n p = ap (λ (m : ℕ). take m p) (sym (zero_sum n))
take-split (suc k) n [] = take-nil n ∙ sym (take-nil (suc k + n))
take-split (suc k) n (x ∷ p) =
    ap (◌∷◌ x) (take-split k n p) ∙ ap (λ (m : ℕ). take m (x ∷ p)) (sym (suc_sum k n))

take-drop : (k : ℕ) (p : Bytes) → take k p ++ drop k p ≡ p
take-drop zero p = refl
take-drop (suc k) [] = refl
take-drop (suc k) (x ∷ p) = ap (◌∷◌ x) (take-drop k p)

Writes-Widths :
    (payload : Bytes) (k : ℕ) (texts : List Bytes) (ns : List ℕ)
    → Widths texts ns
    → Writes
        (send_widths payload (pos k) texts)
        (pos (k + total ns))
        (chunk_texts (drop k payload) ns)
unfolding send_widths hex_int add
Writes-Widths payload k [] [] h =
    subst (λ (m : ℕ). Writes (pure (pos k)) (pos m) []) (plus_zero k) (Writes-pure (pos k))
  where
    plus_zero : (m : ℕ) → m ≡ m + 0
    plus_zero m = omega arith
Writes-Widths payload k [] (n ∷ ns) h = elim h [ ]
Writes-Widths payload k (t ∷ texts) [] h = elim h [ ]
Writes-Widths payload k (t ∷ texts) (n ∷ ns) (e, h) =
    Writes-lift (width_of (int t)) _ (pos (suc n)) (pos (k + total (n ∷ ns))) _ (ap width_of e) (
      Writes-bind (write_chunk (hex (suc n)) (slice k (k + suc n) payload)) _ tt
        (pos (k + total (n ∷ ns))) (chunk_text (suc n) (take (suc n) (drop k payload)))
        (chunk_texts (drop (suc n) (drop k payload)) ns)
        (subst
          (λ (b : Bytes).
            Writes (write_chunk (hex (suc n)) (slice k (k + suc n) payload)) tt
              (chunk_text (suc n) b))
          (slice-drop k (suc n) payload) (Writes-chunk (hex (suc n)) (slice k (k + suc n) payload)))
        (subst
          (λ (b : Bytes).
            Writes (send_widths payload (pos (k + suc n)) texts) (pos (k + total (n ∷ ns)))
              (chunk_texts b ns))
          (sym (drop-drop k (suc n) payload))
          (subst
            (λ (m : ℕ).
              Writes (send_widths payload (pos (k + suc n)) texts) (pos m)
                (chunk_texts (drop (k + suc n) payload) ns))
            (assoc_lem k (suc n) (total ns)) (Writes-Widths payload (k + suc n) texts ns h))))
  where
    assoc_lem : (a b d : ℕ) → a + b + d ≡ a + (b + d)
    assoc_lem a b d = omega arith

-- What is left of a payload, with its size.
abbrev rest_of : Bytes → Option (ℕ × Bytes)
rest_of [] = none
rest_of (x ∷ p) = some (length (x ∷ p), x ∷ p)

remainder-drop : (m : ℕ) (payload : Bytes) → remainder payload (pos m) ≡ rest_of (drop m payload)
remainder-drop zero [] = ground arith
remainder-drop zero (x ∷ p) = ground arith
remainder-drop (suc m) [] = ground arith
remainder-drop (suc m) (x ∷ p) = ground (arith, remainder-drop m p)

abbrev rest_text : Bytes → Bytes
rest_text [] = []
rest_text (x ∷ p) = chunk_text (length (x ∷ p)) (x ∷ p)

Writes-rest : (p : Bytes) → Writes (send_remainder (rest_of p)) tt (rest_text p)
unfolding send_remainder
Writes-rest [] = Writes-pure tt
Writes-rest (x ∷ p) = Writes-chunk (hex (length (x ∷ p))) (x ∷ p)

-- The lines of the trailers, and the empty line.
abbrev pub trailer_lines : List Header → Bytes
trailer_lines [] = crlf
trailer_lines ((name, value) ∷ trailers) =
    (name ++ b':' ∷ 32 ∷ value ++ crlf) ++ trailer_lines trailers

Writes-trailers :
    (trailers : List Header) → Writes (send_trailers trailers) tt (trailer_lines trailers)
unfolding send_trailers
Writes-trailers [] = Writes-write crlf
Writes-trailers ((name, value) ∷ trailers) =
    Writes-bind (write (name ++ b':' ∷ 32 ∷ value ++ crlf)) _ tt tt
      (name ++ b':' ∷ 32 ∷ value ++ crlf) (trailer_lines trailers)
      (Writes-write (name ++ b':' ∷ 32 ∷ value ++ crlf)) (Writes-trailers trailers)

-- All that is written.
abbrev body_text : Bytes → List ℕ → List Header → Bytes
body_text payload ns trailers =
    chunk_texts payload ns
    ++ (rest_text (drop (total ns) payload) ++ (b'0' ∷ 13 ∷ 10 ∷ trailer_lines trailers))

Writes-send_chunked :
    (chunks payload : Bytes) (trailers : List Header) (ns : List ℕ)
    → Widths (split b',' chunks) ns
    → Writes (send_chunked chunks payload trailers) tt (body_text payload ns trailers)
unfolding send_chunked
Writes-send_chunked chunks payload trailers ns h =
    Writes-bind (send_widths payload (pos 0) (split b',' chunks)) _ (pos (total ns)) tt
      (chunk_texts payload ns) _
      (subst
        (λ (m : ℕ).
          Writes (send_widths payload (pos 0) (split b',' chunks)) (pos m) (chunk_texts payload ns))
        (zero_sum (total ns)) (Writes-Widths payload 0 (split b',' chunks) ns h))
      (Writes-bind (send_remainder (remainder payload (pos (total ns)))) _ tt tt
        (rest_text (drop (total ns) payload)) (b'0' ∷ 13 ∷ 10 ∷ trailer_lines trailers)
        (subst
          (λ (o : Option (ℕ × Bytes)).
            Writes (send_remainder o) tt (rest_text (drop (total ns) payload)))
          (sym (remainder-drop (total ns) payload)) (Writes-rest (drop (total ns) payload)))
        (Writes-bind (write (b'0' ∷ crlf)) _ tt tt (b'0' ∷ crlf) (trailer_lines trailers)
          (Writes-write (b'0' ∷ crlf)) (Writes-trailers trailers)))

prepend-prepend :
    (a b : Bytes) (o : Option (Bytes × Bytes)) → prepend a (prepend b o) ≡ prepend (a ++ b) o
prepend-prepend a b none = refl
prepend-prepend a b (some (p, left)) = ap (λ (t : Bytes). some (t, left)) (sym (append_assoc a b p))

abbrev more : List ℕ → ℕ → ℕ
more [] fuel = fuel
more (n ∷ ns) fuel = suc (more ns fuel)

decode-chunk_texts :
    (p : Bytes) (ns : List ℕ) (fuel : ℕ) (tail : Bytes)
    → total ns ≤ length p
    → decode (more ns fuel) (chunk_texts p ns ++ tail)
      ≡ prepend (take (total ns) p) (decode fuel tail)
decode-chunk_texts p [] fuel tail h = nothing (decode fuel tail)
  where
    nothing : (o : Option (Bytes × Bytes)) → o ≡ prepend [] o
    nothing none = refl
    nothing (some (q, left)) = refl
decode-chunk_texts p (n ∷ ns) fuel tail h =
    ap (decode (more (n ∷ ns) fuel))
      (append_assoc (chunk_text (suc n) (take (suc n) p)) (chunk_texts (drop (suc n) p) ns) tail)
    ∙ decode-chunk (more ns fuel) n (take (suc n) p) (chunk_texts (drop (suc n) p) ns ++ tail)
        (omega (arith, length-take (suc n) p))
    ∙ ap (prepend (take (suc n) p))
        (decode-chunk_texts (drop (suc n) p) ns fuel tail (omega (arith, length-drop (suc n) p)))
    ∙ prepend-prepend (take (suc n) p) (take (total ns) (drop (suc n) p)) (decode fuel tail)
    ∙ ap (λ (t : Bytes). prepend t (decode fuel tail)) (take-split (suc n) (total ns) p)

decode-rest : (p end : Bytes) → decode 2 (rest_text p ++ (b'0' ∷ 13 ∷ 10 ∷ end)) ≡ some (p, end)
decode-rest [] end = decode-end 1 end
decode-rest (x ∷ p) end =
    decode-chunk 1 (length p) (x ∷ p) (b'0' ∷ 13 ∷ 10 ∷ end) refl
    ∙ ap (prepend (x ∷ p)) (decode-end 0 end)
    ∙ ap (λ (t : Bytes). some (t, end)) (append-nil (x ∷ p))

-- A payload that is sent in chunks, all of whose widths are positive and fit the payload together, is
-- read back by a client, whatever the trailers are; these follow it. Nothing but the text is changed.
pub decode-send_chunked :
    (chunks payload : Bytes) (trailers : List Header) (ns : List ℕ) (c : Connection)
    → Widths (split b',' chunks) ns
    → total ns ≤ length payload
    → (text : Bytes) × (send_chunked chunks payload trailers c
        ≡ (ok tt, record c { wfile = c.wfile ++ text }))
      × (decode (length ns + 2) text ≡ some (payload, trailer_lines trailers))
decode-send_chunked chunks payload trailers ns c h fits = (
  body_text payload ns trailers,
  (Writes-send_chunked chunks payload trailers ns h).run c,
  ap (λ (m : ℕ). decode m (body_text payload ns trailers)) (sym (more-add ns))
      ∙ decode-chunk_texts payload ns 2 _ fits
      ∙ ap (prepend (take (total ns) payload))
          (decode-rest (drop (total ns) payload) (trailer_lines trailers))
      ∙ ap (λ (t : Bytes). some (t, trailer_lines trailers)) (take-drop (total ns) payload),
)
  where
    more-add : (ms : List ℕ) → more ms 2 ≡ length ms + 2
    more-add [] = refl
    more-add (m ∷ ms) = omega (arith, more-add ms)
