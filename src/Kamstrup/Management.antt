-- ===== src/Kamstrup/Management.antt =====
-- The management protocol: commands.py, command_responder.py and kamstrup_management_server.py of
-- management_protocol. A command reads and writes the databus, so it is a method over its state. The
-- values of the databus are texts and numbers here.
pub mod Addresses
pub mod Commands
pub mod Responder
pub mod Effects
pub mod Server
use conpot.Prelude.{
  ℕ, zero, suc, Bool, true, false, Option, none, some, ◌↔◌, ◌≡◌, List, [], ◌∷◌, arith, Eq, ◌==◌,
  ==_iff, bytes_eq, bytes_eq_iff,
}
use conpot.Prelude.Bytes.{Bytes, Result}
use conpot.Prelude.Exec.{Exec, modify, reads}
use conpot.Prelude.Text.{decimal}
use conpot.Core.Databus
use conpot.Core.Databus.{Value, plain, Databus, negative, set_value}

pub data Object : Type 0 where
  text : Bytes → Object
  number : ℕ → Object

abbrev pub object_eq : Object → Object → Bool
object_eq (text s) (text t) = bytes_eq s t
object_eq (number m) (number n) = m == n
object_eq _ _ = false

pub object_eq_iff : (a b : Object) → (object_eq a b ≡ true) ↔ (a ≡ b)
object_eq_iff (text s) (text t) =
    (λ h. ground (arith, bytes_eq_iff s t), λ h. ground (arith, bytes_eq_iff s t))
object_eq_iff (text s) (number n) = (λ h. cc, λ h. cc)
object_eq_iff (number m) (text t) = (λ h. cc, λ h. cc)
object_eq_iff (number m) (number n) =
    (λ h. ground (arith, ==_iff m n), λ h. ground (arith, ==_iff m n))

instance abbrev pub object_has_eq : Eq Object
object_has_eq = record { beq = object_eq; beq_iff = object_eq_iff }

-- What stands behind the values of the databus: what an object that is asked for its value answers,
-- how a value that is no plain object is printed, how a value stands in a list, and what an observer
-- does.
pub record World : Type 0 where
  pub call : ℕ → Value Object
  pub show : Value Object → Bytes
  pub object : Value Object → Object
  pub run : ℕ → Bytes → Databus Object → Object × Databus Object

abbrev pub Method : Type 0 → Type 0
Method A = Exec (Databus Object) A

module _ (w : World) where
  -- `databus.set_value(key, value)`
  unfoldable pub set : Bytes → Value Object → Method (Unit {0})
  unfolding modify
  set key value =
      modify λ db. (set_value w.run w.object key (some value) negative false false 0 db).1

  abbrev pub set_text : Bytes → Bytes → Method (Unit {0})
  set_text key s = set key (plain (text s))

  -- `databus.get_value(key)`
  unfoldable pub get : Bytes → Method (Value Object)
  unfolding reads
  get key = reads (Databus.get_value w.call key)

  -- `'{0}'.format(value)`
  unfoldable pub str : Value Object → Bytes
  str (plain (text s)) = s
  str (plain (number n)) = decimal n
  str value = w.show value

-- `value == 'text'`
abbrev pub is_text : Bytes → Value Object → Bool
is_text s (plain (text t)) = bytes_eq t s
is_text s _ = false

-- `if params:`: what is left of the parameters where there are some.
abbrev pub given : Option Bytes → Option Bytes
given (some []) = none
given params = params

-- `params_split[i]`, where the list is known to be long enough.
abbrev pub word : ℕ → List Bytes → Bytes
word i [] = []
word zero (w ∷ words) = w
word (suc i) (w ∷ words) = word i words
