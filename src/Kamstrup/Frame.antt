-- ===== src/Kamstrup/Frame.antt =====
-- kamstrup_constants.py, the escaping of messages.py, and the checksum test that
-- request_parser.py and decoder_382.py both hold. The function `crc16xmodem` of the package
-- crc16 is a parameter.
pub mod Escape
use Prim.Native.Nat.{bit_xor}
use conpot.Prelude.{
  ℕ, ◌+◌, ◌-◌, Bool, true, false, ◌||◌, Option, none, some, List, [], ◌∷◌, ◌++◌, length, get_elem?,
  take, leb, ◌==◌, if◌then◌else◌,
}
use conpot.Prelude.Bytes.{Bytes, Result, ok, err, index_error, be16, ◌>>=◌}

abbrev pub request_magic : ℕ
request_magic = 0x80

abbrev pub response_magic : ℕ
response_magic = 0x40

abbrev pub eot_magic : ℕ
eot_magic = 0x0d

abbrev pub escape_byte : ℕ
escape_byte = 0x1b

-- `c in NEED_ESCAPE`
unfoldable pub need_escape : ℕ → Bool
need_escape c =
    c == 0x06
    || (c == eot_magic || (c == escape_byte || (c == response_magic || c == request_magic)))

-- `c ^ 0xff`
abbrev pub invert : ℕ → ℕ
invert c = bit_xor c 0xff

-- The loop of `escape` over `message[1:-1]`.
unfoldable pub escape_inner : Bytes → Bytes
escape_inner [] = []
escape_inner (c ∷ cs) =
    if need_escape c then escape_byte ∷ invert c ∷ escape_inner cs else c ∷ escape_inner cs

-- `message[-1]` of a message with first byte `m`.
abbrev pub last : ℕ → Bytes → ℕ
last m [] = m
last m (c ∷ cs) = last c cs

-- `KamstrupResponseBase.escape`: everything but the leading and the trailing magic.
unfoldable pub escape : Bytes → Result Bytes
unfolding escape_inner
escape [] = err index_error
escape (m ∷ ms) = ok (m ∷ escape_inner (take (length ms - 1) ms) ++ last m ms ∷ [])

-- An index into a list of bytes.
abbrev pub at : Bytes → ℕ → Result ℕ
at bytes i = elim (get_elem? bytes i) [ none ↦ err index_error | some b ↦ ok b ]

-- `bytes[-k]`
abbrev pub at_end : Bytes → ℕ → Result ℕ
at_end bytes k = if leb k (length bytes) then at bytes (length bytes - k) else err index_error

module _ (crc16xmodem : Bytes → ℕ) where
  unfoldable pub valid_crc : Bytes → Result Bool
  valid_crc message = do
    hi ← at_end message 2
    lo ← at_end message 1
    ok (be16 hi lo == crc16xmodem (take (length message - 2) message))
