-- ===== src/Kamstrup/Management/Addresses.antt =====
-- `parse_ip`, `parse_port` and `try_parse_uint` of commands.py.
pub mod Laws
use conpot.Prelude.{
  ℕ, zero, suc, Bool, true, false, not, ◌&&◌, Option, none, some, List, [], ◌∷◌, length, take, drop,
  ltb, leb, ◌==◌, if◌then◌else◌,
}
use conpot.Prelude.Bytes.{Bytes, codes, Exc, Result, ok, err, value_error, type_error, ◌>>=◌}
use conpot.Prelude.Text.{contains, split, join, ℤ, pos, negsuc, int}
use conpot.Kamstrup.Management.{Object, text, number}

-- `int(text)`
unfoldable pub to_int : Bytes → Result ℤ
to_int s = elim (int s) [ none ↦ err value_error | some n ↦ ok n ]

-- `[int(ip_string[i:i + 3]) for i in range(0, len(ip_string), 3)]`
unfoldable pub thirds : Bytes → Result (List ℤ)
unfolding to_int
thirds [] = ok []
thirds (a ∷ []) = do n ← to_int (a ∷ []); ok (n ∷ [])
thirds (a ∷ b ∷ []) = do n ← to_int (a ∷ b ∷ []); ok (n ∷ [])
thirds (a ∷ b ∷ c ∷ s) = do n ← to_int (a ∷ b ∷ c ∷ []); rest ← thirds s; ok (n ∷ rest)

abbrev pub is_octet : ℤ → Bool
is_octet (pos n) = leb n 255
is_octet (negsuc n) = false

-- The loop over the octets as texts: it stops at the first that is out of range.
unfoldable pub octets_fit : List Bytes → Result Bool
unfolding to_int
octets_fit [] = ok true
octets_fit (octet ∷ octets) = do
  n ← to_int octet
  let rest = octets_fit octets
  if is_octet n then rest else ok false

-- The loop over numbers.
unfoldable pub numbers_fit : List ℤ → Bool
numbers_fit [] = true
numbers_fit (n ∷ ns) = is_octet n && numbers_fit ns

abbrev pub no_address : Bytes
no_address = codes "0.0.0.0"

-- `parse_ip` behind the split at dots.
unfoldable pub join_texts : List Bytes → Result Bytes
unfolding octets_fit
join_texts octets =
    if not (length octets == 4)
    then ok no_address
    else (do fit ← octets_fit octets; ok (if fit then join b'.' octets else no_address))

-- `parse_ip` behind the cut into threes: `'.'.join(octets)` of numbers raises.
unfoldable pub join_numbers : List ℤ → Result Bytes
unfolding numbers_fit
join_numbers octets =
    if not (length octets == 4)
    then ok no_address
    else if numbers_fit octets
    then err type_error
    else ok no_address

unfoldable pub parse_ip : Bytes → Result Bytes
unfolding join_texts join_numbers thirds
parse_ip ip_string =
    if contains b'.' ip_string
    then join_texts (split b'.' ip_string)
    else thirds ip_string >>= join_numbers

-- `parse_port`
unfoldable pub parse_port : Bytes → ℕ
parse_port port_string = elim (int port_string) [
  | some (pos port) ↦ if ltb 0 port && ltb port 65536 then port else 0
  | some (negsuc _) ↦ 0
  | none ↦ 0
]

-- `try_parse_uint`: a text that is no integer gives the text "0".
unfoldable pub try_parse_uint : Bytes → (min_value max_value : ℕ) → Object
try_parse_uint uint_string min_value max_value = elim (int uint_string) [
  | some (pos value) ↦
      number (if ltb value min_value then 0 else if ltb max_value value then 0 else value)
  | some (negsuc _) ↦ number 0
  | none ↦ text (codes "0")
]
