-- ===== src/Ipmi/Users/Passwords.antt =====
-- Setting and testing a password.
use conpot.Prelude.{ℕ, ◌≡◌, refl, true, some, list_eq, bytes_eq, bytes_eq_iff, if◌then◌else◌}
use conpot.Prelude.Bytes.{Bytes, ok, ok-injective}
use mathlib.Core.Path.{subst}
use conpot.Prelude.Dict
use conpot.Ipmi.State.{Users}
use conpot.Ipmi.Users.{password_operation, length_code, strip_zeros}

bytes_eq_refl : (bs : Bytes) → bytes_eq bs bs ≡ true
bytes_eq_refl bs = (bytes_eq_iff bs bs).1 refl

stored_users : Bytes → Bytes → Users → Users
stored_users username passwd u = record u {
  authdata = Dict.put username (strip_zeros passwd) u.authdata;
}

test-stored :
    (username passwd : Bytes) (u : Users)
    → password_operation 3 username passwd (stored_users username passwd u)
      ≡ ok (length_code passwd, stored_users username passwd u)
unfolding password_operation stored_users
test-stored username passwd u = rw (
  Dict.get-put username username (strip_zeros passwd) u.authdata,
  bytes_eq_refl username,
  bytes_eq_refl (strip_zeros passwd),
)

-- After the operation that sets a password, whatever its length, the operation that tests the same
-- password answers with the code of the first, and changes nothing; the other users keep theirs.
pub test-set_password :
    (username other passwd : Bytes) (u : Users) (code : ℕ) (v : Users)
    → password_operation 2 username passwd u ≡ ok (code, v)
    → (password_operation 3 username passwd v ≡ ok (code, v))
      × (Dict.get other v.authdata ≡ (
          if bytes_eq username other then some (strip_zeros passwd) else Dict.get other u.authdata))
unfolding password_operation stored_users
test-set_password username other passwd u code v h =
    subst
      (λ (p : ℕ × Users).
        (password_operation 3 username passwd p.1 ≡ ok (p.0, p.1))
        × (Dict.get other p.1.authdata ≡ (
            if bytes_eq username other
            then some (strip_zeros passwd)
            else Dict.get other u.authdata)))
      (ok-injective h)
      (test-stored username passwd u, Dict.get-put username other (strip_zeros passwd) u.authdata)
