-- ===== src/Ipmi/Users.antt =====
-- ipmi_server.py: the users, as the commands of a client read and change them.
pub mod Passwords
use Prim.Native.Nat.{bit_or}
use conpot.Prelude.{
  ℕ, zero, suc, ◌+◌, ◌-◌, ◌/◌, ◌%◌, Bool, true, false, Option, none, some, List, [], ◌∷◌, ◌++◌, map,
  length, slice, drop, get_elem?, ◌==◌, if◌then◌else◌, bytes_eq, list_eq,
}
use conpot.Prelude.Bytes.{
  Bytes, codes, Result, ok, err, index_error, key_error, value_error, ◌>>=◌, ◌>>◌,
}
use conpot.Prelude.Dict
use conpot.Prelude.Dict.{Dict}
use conpot.Prelude.Text.{strip_right}
use conpot.Ipmi.State.{Users}
use conpot.Ipmi.Payload.{at, has_bit}

abbrev pub keys : {V : Type 0} → Dict Bytes V → List Bytes
keys [] = []
keys ((k, v) ∷ d) = k ∷ keys d

abbrev or_index_error : {A : Type 0} → Option A → Result A
or_index_error none = err index_error
or_index_error (some a) = ok a

abbrev pub or_key_error : {A : Type 0} → Option A → Result A
or_key_error none = err key_error
or_key_error (some a) = ok a

-- `keys()[userid - 1]`; for 0 this is the last key.
unfoldable pub user_name : ℕ → List Bytes → Result Bytes
user_name zero names = or_index_error (get_elem? names (length names - 1))
user_name (suc i) names = or_index_error (get_elem? names i)

-- `text.strip('\x00')`
unfoldable pub strip_left_zeros : Bytes → Bytes
strip_left_zeros [] = []
strip_left_zeros (b ∷ bs) = let rest = strip_left_zeros bs in if b == 0 then rest else b ∷ bs

unfoldable pub strip_zeros : Bytes → Bytes
unfolding strip_left_zeros strip_right
strip_zeros text = strip_left_zeros (strip_right (λ b. b == 0) text)

-- `copyauth`, `copypriv` and `copychannel`
pub record Copy : Type 0 where
  pub copyauth : Dict Bytes Bytes
  pub copypriv : Dict Bytes ℕ
  pub copychannel : Dict Bytes Bytes

-- What one round of the loop of Set User Name adds: the entry of `source` under the name `name`.
unfoldable pub copy_user : Users → Bytes → Bytes → Bytes → Copy → Result Copy
unfolding Dict.get Dict.put
copy_user u name source password c = do
  priv ← or_key_error (Dict.get source u.privdata)
  access ← or_key_error (Dict.get source u.channelaccessdata)
  ok (record {
    copyauth = Dict.put name password c.copyauth;
    copypriv = Dict.put name priv c.copypriv;
    copychannel = Dict.put name access c.copychannel;
  })

-- `for k, v in self.authdata.iteritems()`; `left` counts down to the user, and for the userid 0,
-- given as `none`, no index fits.
unfoldable pub copy_users : Users → Bytes → Bytes → Option ℕ → Dict Bytes Bytes → Copy → Result Copy
unfolding copy_user Dict.get
copy_users u username oldname left [] c = ok c
copy_users u username oldname none ((k, v) ∷ rest) c =
    copy_user u k k v c >>= λ c'. copy_users u username oldname none rest c'
copy_users u username oldname (some zero) ((k, v) ∷ rest) c = do
  password ← or_key_error (Dict.get oldname u.authdata)
  c' ← copy_user u username oldname password c
  copy_users u username oldname none rest c'
copy_users u username oldname (some (suc left)) ((k, v) ∷ rest) c =
    copy_user u k k v c >>= λ c'. copy_users u username oldname (some left) rest c'

abbrev pub index_of : ℕ → Option ℕ
index_of zero = none
index_of (suc i) = some i

-- Set User Name
unfoldable pub set_user_name : Bytes → Users → Result Users
unfolding user_name copy_users strip_zeros
set_user_name body u = do
  userid ← at body 0
  let username = strip_zeros (drop 1 body)
  oldname ← user_name userid (keys u.authdata)
  c ←
      copy_users u username oldname (index_of userid) u.authdata
        (record { copyauth = []; copypriv = []; copychannel = [] })
  ok (record u { authdata = c.copyauth; privdata = c.copypriv; channelaccessdata = c.copychannel })

-- `keys().index(username)`
abbrev pub position : Bytes → List Bytes → Result ℕ
position name [] = err value_error
position name (k ∷ ks) =
    let later = position name ks >>= λ i. ok (suc i) in if bytes_eq k name then ok 0 else later

abbrev set_at : ℕ → ℕ → List ℕ → List ℕ
set_at i v [] = []
set_at zero v (x ∷ xs) = v ∷ xs
set_at (suc i) v (x ∷ xs) = x ∷ set_at i v xs

-- Operations 0 and 1 of Set User Password: a user is switched off or on.
unfoldable pub set_active : ℕ → Bytes → Users → Result Users
set_active flag username u = do
  i ← position username (keys u.authdata)
  current ← or_index_error (get_elem? u.activeusers i)
  ok (
      if (current == 0)
      then (if flag == 0 then u else record u { activeusers = set_at i 1 u.activeusers })
      else (if flag == 0 then record u { activeusers = set_at i 0 u.activeusers } else u))

-- The code for a password of neither 16 nor 20 bytes.
abbrev pub length_code : Bytes → ℕ
length_code passwd = if length passwd == 16 then 0 else if length passwd == 20 then 0 else 0x81

-- The operations of Set User Password: the code of the response and the users.
unfoldable pub password_operation : ℕ → Bytes → Bytes → Users → Result (ℕ × Users)
unfolding set_active strip_zeros Dict.get Dict.put
password_operation zero username passwd u = set_active 0 username u >>= λ u'. ok (0, u')
password_operation (suc zero) username passwd u = set_active 1 username u >>= λ u'. ok (0, u')
password_operation (suc (suc zero)) username passwd u =
    ok (
      length_code passwd,
      record u { authdata = Dict.put username (strip_zeros passwd) u.authdata },
    )
password_operation (suc (suc (suc n))) username passwd u = do
  stored ← or_key_error (Dict.get username u.authdata)
  ok (if bytes_eq stored (strip_zeros passwd) then length_code passwd else 0x80, u)

-- Set User Password
unfoldable pub set_user_password : Bytes → Users → Result (ℕ × Users)
unfolding user_name password_operation
set_user_password body u = do
  first ← at body 0
  username ← user_name (first % 64) (keys u.authdata)
  second ← at body 1
  password_operation (second % 4) username
      (if has_bit 128 first then slice 2 22 body else slice 2 18 body) u

abbrev sum_list : List ℕ → ℕ
sum_list [] = 0
sum_list (n ∷ ns) = n + sum_list ns

-- Get User Access: the body of the response.
unfoldable pub get_user_access : Bytes → Users → Result Bytes
unfolding user_name Dict.get
get_user_access body u = do
  reschan ← at body 0
  resuid ← at body 1
  name ← user_name (resuid % 32) (keys u.authdata)
  priv ← or_key_error (Dict.get name u.privdata)
  access ← or_key_error (Dict.get name u.channelaccessdata)
  let channelaccess = if bytes_eq access (codes "true") then bit_or priv 0x30 else priv
  ok (
      length (keys u.authdata)
      ∷ sum_list u.activeusers
      ∷ sum_list u.fixedusers
      ∷ channelaccess
      ∷ [])

-- `while len(data) < 16: data.append(0)`
abbrev fill : ℕ → Bytes → Bytes
fill zero bs = bs
fill (suc n) [] = 0 ∷ fill n []
fill (suc n) (b ∷ bs) = b ∷ fill n bs

-- Get User Name: the body of the response.
unfoldable pub get_user_name : Bytes → Users → Result Bytes
unfolding user_name
get_user_name body u = do
  userid ← at body 0
  name ← user_name userid (keys u.authdata)
  ok (fill 16 name)
