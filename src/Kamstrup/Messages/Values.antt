-- ===== src/Kamstrup/Messages/Values.antt =====
-- Register values as bytes, high byte first.
use conpot.Prelude.{
  ℕ, zero, suc, ◌+◌, ◌*◌, ◌<◌, ◌/◌, ◌%◌, ◌≡◌, refl, true, [], ◌∷◌, arith, length, length-append,
}
use conpot.Prelude.Bytes.{Bytes, IsBytes, IsBytes-append}
use conpot.Kamstrup.Messages.{pack_value, all_chr}

pub length-pack_value : (n value : ℕ) → length (pack_value n value) ≡ n
unfolding pack_value
length-pack_value zero value = refl
length-pack_value (suc n) value = omega (
  arith,
  length-append (pack_value n (value / 256)) (value % 256 ∷ []),
  length-pack_value n (value / 256),
)

pub pack_value-IsBytes : (n value : ℕ) → IsBytes (pack_value n value)
unfolding pack_value
pack_value-IsBytes zero value = tt
pack_value-IsBytes (suc n) value =
    IsBytes-append (pack_value n (value / 256)) (value % 256 ∷ [])
      (pack_value-IsBytes n (value / 256)) (omega arith, tt)

pub all_chr-IsBytes : (bs : Bytes) → IsBytes bs → all_chr bs ≡ true
all_chr-IsBytes [] h = refl
all_chr-IsBytes (b ∷ bs) h = ground (arith, all_chr-IsBytes bs h.1, h.0)

pub split_mod : (v m : ℕ) → 0 < m → (v / 256 % m) * 256 + v % 256 ≡ v % (m * 256)
split_mod v m h = grind arith
