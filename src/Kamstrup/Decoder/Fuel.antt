-- ===== src/Kamstrup/Decoder/Fuel.antt =====
-- The loop of `_decode_cmd_return_register` on its fuel.
use conpot.Prelude.{
  ℕ, zero, suc, ◌+◌, ◌≤◌, ◌≡◌, refl, [], ◌∷◌, arith, suc-add, length, drop, length-drop,
}
use conpot.Prelude.Bytes.{Bytes}
use conpot.Kamstrup.Decoder.{read_values}

-- With the fuel that `decode_message` gives, the loop ends with the message: more fuel changes
-- nothing.
pub read_values-fuel :
    (fuel extra : ℕ) (msg : Bytes)
    → length msg ≤ fuel
    → read_values (fuel + extra) msg ≡ read_values fuel msg
unfolding read_values
read_values-fuel fuel extra [] h = refl
read_values-fuel zero extra (b ∷ msg) h = absurd (omega arith)
read_values-fuel (suc fuel) extra (hi ∷ []) h = rw (suc-add fuel extra)
read_values-fuel (suc fuel) extra (hi ∷ lo ∷ []) h = rw (suc-add fuel extra)
read_values-fuel (suc fuel) extra (hi ∷ lo ∷ units ∷ []) h = rw (suc-add fuel extra)
read_values-fuel (suc fuel) extra (hi ∷ lo ∷ units ∷ size ∷ msg) h = rw (
  suc-add fuel extra,
  read_values-fuel fuel extra (drop (1 + size) msg) (omega (arith, length-drop (1 + size) msg)),
)
