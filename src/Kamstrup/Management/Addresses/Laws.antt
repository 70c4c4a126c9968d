-- ===== src/Kamstrup/Management/Addresses/Laws.antt =====
-- What the three parsers accept.
use conpot.Prelude.{
  ℕ, ◌≤◌, ◌≡◌, Option, none, some, [], ◌∷◌, leb, ◌⊎◌, inl, inr, refl, sym, ap, ◌∙◌, Bool, true,
  false, ◌&&◌, List, arith, length, ltb, ◌==◌, ==_iff, Bool-cases, if◌then◌else◌,
}
use conpot.Prelude.Bytes.{Bytes, Result, ok, err, >>=-ok, ok-injective}
use conpot.Prelude.Text.{contains, split, join, ℤ, pos, negsuc, int, decimal}
use conpot.Prelude.Text.Laws.{join-split, int-decimal}
use conpot.Kamstrup.Management.Addresses.{
  to_int, octets_fit, thirds, no_address, join_texts, join_numbers, parse_ip, parse_port,
}

-- `int` reads the text as a number from 0 to 255.
abbrev pub IsOctet : Bytes → Type 0
IsOctet s = (n : ℕ) × (int s ≡ some (pos n)) × (n ≤ 255)

abbrev pub AllOctets : List Bytes → Type 0
AllOctets [] = Unit
AllOctets (octet ∷ octets) = IsOctet octet × AllOctets octets

-- Four parts between dots, each a number from 0 to 255.
abbrev pub IsAddress : Bytes → Type 0
IsAddress s = (length (split b'.' s) ≡ 4) × AllOctets (split b'.' s)

octets_fit-AllOctets : (octets : List Bytes) → octets_fit octets ≡ ok true → AllOctets octets
unfolding octets_fit
octets_fit-AllOctets [] h = tt
octets_fit-AllOctets (octet ∷ octets) h = first (int octet) refl λ q. octets_fit-AllOctets octets q
  where
    first :
        (o : Option ℤ)
        → int octet ≡ o
        → (octets_fit octets ≡ ok true → AllOctets octets)
        → AllOctets (octet ∷ octets)
    first none e ih = cc (rw (e, octets_fit, to_int) at h)
    first (some (negsuc n)) e ih = cc (rw (e, octets_fit, to_int) at h)
    first (some (pos n)) e ih = elim (Bool-cases (leb n 255)) [
      | inl fits ↦
          ((n, e, ground arith), ih (rw (fits, octets_fit) at (rw (e, octets_fit, to_int) at h)))
      | inr large ↦ cc (rw (large, octets_fit) at (rw (e, octets_fit, to_int) at h))
    ]

AllOctets-octets_fit : (octets : List Bytes) → AllOctets octets → octets_fit octets ≡ ok true
unfolding octets_fit
AllOctets-octets_fit [] h = refl
AllOctets-octets_fit (octet ∷ octets) ((n, e, small), rest) =
    let fits : leb n 255 ≡ true = ground arith in
    rw (e, octets_fit, to_int) (rw (fits, octets_fit) (AllOctets-octets_fit octets rest))

join_texts-fit :
    (octets : List Bytes) (r : Bytes) (fit : Result Bool)
    → octets_fit octets ≡ fit
    → length octets ≡ 4
    → join_texts octets ≡ ok r
    → (r ≡ no_address) ⊎ ((r ≡ join b'.' octets) × (octets_fit octets ≡ ok true))
unfolding join_texts
join_texts-fit octets r (ok true) e l h = inr (sym (ok-injective (rw (l, e, join_texts) at h)), e)
join_texts-fit octets r (ok false) e l h = inl (sym (ok-injective (rw (l, e, join_texts) at h)))
join_texts-fit octets r (err x) e l h = cc (rw (l, e, join_texts) at h)

join_texts-ok :
    (octets : List Bytes) (r : Bytes)
    → join_texts octets ≡ ok r
    → (r ≡ no_address)
      ⊎ ((r ≡ join b'.' octets) × (length octets ≡ 4) × (octets_fit octets ≡ ok true))
unfolding join_texts
join_texts-ok octets r h = elim (Bool-cases (length octets == 4)) [
  | inl four ↦
      let l = (==_iff (length octets) 4).0 four in
      elim (join_texts-fit octets r (octets_fit octets) refl l h) [
        | inl e ↦ inl e
        | inr (e, f) ↦ inr (e, l, f)
      ]
  | inr other ↦ inl (sym (ok-injective (rw (other, join_texts) at h)))
]

join_numbers-ok : (ns : List ℤ) (r : Bytes) → join_numbers ns ≡ ok r → r ≡ no_address
unfolding join_numbers
join_numbers-ok ns r h = ground arith

-- A text without a dot, such as the form of 12 digits that the help texts offer, is never read as an
-- address: what it gives is the default, if it does not raise.
pub parse_ip-no_dot : (s r : Bytes) → contains b'.' s ≡ false → parse_ip s ≡ ok r → r ≡ no_address
unfolding parse_ip
parse_ip-no_dot s r dot h =
    let (ns, read, joined) = >>=-ok {step = join_numbers} (thirds s) (rw (dot, parse_ip) at h) in
    join_numbers-ok ns r joined

-- What is parsed is the default, or it is the text itself and that is four parts between dots, each of
-- which `int` reads as a number from 0 to 255.
pub parse_ip-ok : (s r : Bytes) → parse_ip s ≡ ok r → (r ≡ no_address) ⊎ ((r ≡ s) × IsAddress s)
unfolding parse_ip
parse_ip-ok s r h = elim (Bool-cases (contains b'.' s)) [
  | inl dot ↦ elim (join_texts-ok (split b'.' s) r (rw (dot, parse_ip) at h)) [
    | inl e ↦ inl e
    | inr (e, l, f) ↦ inr (e ∙ join-split b'.' s, (l, octets_fit-AllOctets (split b'.' s) f))
  ]
  | inr dot ↦ inl (parse_ip-no_dot s r dot h)
]

-- An address with dots is read as it is.
pub parse_ip-IsAddress : (s : Bytes) → contains b'.' s ≡ true → IsAddress s → parse_ip s ≡ ok s
unfolding parse_ip join_texts
parse_ip-IsAddress s dot (l, octets) =
    let fit = AllOctets-octets_fit (split b'.' s) octets in
    rw (dot, l, fit) (ap ok (join-split b'.' s))

-- Every printed port is read back, and every other printed number is read as 0.
pub parse_port-decimal :
    (n : ℕ) → parse_port (decimal n) ≡ (if ltb 0 n && ltb n 65536 then n else 0)
unfolding parse_port
parse_port-decimal n = rw (int-decimal n, parse_port) (ground arith)
