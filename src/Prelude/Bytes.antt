-- ===== src/Prelude/Bytes.antt =====
-- Bytes, text literals as bytes, Python's exceptions as values, and the formats `B` and `H` of
-- the module `struct` in network byte order.
use Prim.Native.Char.{code}
use Prim.Native.Nat.{ℕ, ◌+◌, ◌*◌, ◌/◌, ◌%◌, ◌<◌}
use Prim.Native.String.{String}
use mathlib.Core.Bool.{Bool, true, false}
use mathlib.Core.List.{List, [], ◌∷◌, ◌++◌}
use mathlib.Core.Path.{◌≡◌, refl}
use native.Mathlib.Omega.{arith}
use conpot.Prelude.Tests.{ltb, if◌then◌else◌}

abbrev pub Bytes : Type 0
Bytes = List ℕ

-- The bytes of an ASCII text.
abbrev pub codes : String → Bytes
codes String.[] = []
codes (String.◌∷◌ c s) = code c ∷ codes s

-- Every number of the list is a byte.
abbrev pub IsBytes : Bytes → Type 0
IsBytes [] = Unit
IsBytes (b ∷ bs) = (b < 256) × IsBytes bs

pub IsBytes-append : (xs ys : Bytes) → IsBytes xs → IsBytes ys → IsBytes (xs ++ ys)
IsBytes-append [] ys h k = k
IsBytes-append (x ∷ xs) ys h k = (h.0, IsBytes-append xs ys h.1 k)

-- What Python code raises here.
pub data Exc : Type 0 where
  struct_error index_error key_error type_error attribute_error assertion_error value_error : Exc
  parse_exception assemble_exception : Exc
  -- `raise Exception(…)`
  exception : Exc

pub data Result {ℓ} (A : Type ℓ) : Type ℓ where
  ok : A → Result A
  err : Exc → Result A

infixl 5 ◌>>=◌
-- An exception ends the block; otherwise the next step gets the value.
abbrev pub ◌>>=◌ {ℓ κ} : {X : Type ℓ} {Y : Type κ} → Result X → (X → Result Y) → Result Y
err exc >>= next = err exc
ok x >>= next = next x

infixl 5 ◌>>◌
-- A statement whose value is not used.
abbrev pub ◌>>◌ {ℓ} : {Y : Type ℓ} → Result (Unit {0}) → Result Y → Result Y
ok _ >> next = next
err exc >> next = err exc

-- `if not test: raise e`, and so `assert test` with `assertion_error`.
abbrev pub guard : Bool → Exc → Result (Unit {0})
guard true e = ok tt
guard false e = err e

-- `struct.pack('!B', n)`: a number out of range raises.
abbrev pub pack_b : ℕ → Result Bytes
pack_b n = if ltb n 256 then ok (n ∷ []) else err struct_error

-- `struct.pack('!H', n)`.
abbrev pub pack_h : ℕ → Result Bytes
pack_h n = if ltb n 65536 then ok (n / 256 ∷ n % 256 ∷ []) else err struct_error

-- The number that two bytes in network order stand for.
abbrev pub be16 : ℕ → ℕ → ℕ
be16 hi lo = hi * 256 + lo

pub pack_b-eq-ok : (n : ℕ) → n < 256 → pack_b n ≡ ok (n ∷ [])
pack_b-eq-ok n h = ground arith

pub pack_h-eq-ok : (n : ℕ) → n < 65536 → pack_h n ≡ ok (n / 256 ∷ n % 256 ∷ [])
pack_h-eq-ok n h = ground arith

pub be16_split : (n : ℕ) → be16 (n / 256) (n % 256) ≡ n
be16_split n = omega arith

pub ok-injective {ℓ} : {A : Type ℓ} {a b : A} → ok a ≡ ok b → a ≡ b
ok-injective h = cc

-- What a successful block says of its first step.
pub >>=-ok {ℓ κ} :
    {X : Type ℓ} {Y : Type κ} {step : X → Result Y} {y : Y} (r : Result X)
    → (r >>= step) ≡ ok y
    → (x : X) × (r ≡ ok x) × (step x ≡ ok y)
>>=-ok (ok x) eq = (x, refl, eq)
>>=-ok (err _) eq = cc
