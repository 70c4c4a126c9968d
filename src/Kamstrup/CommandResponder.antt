-- ===== src/Kamstrup/CommandResponder.antt =====
-- command_responder.py of the meter protocol: the table of registers from the template, and the
-- answer to a request. Reading the template is not modelled; its registers are an argument.
pub mod Answers
use conpot.Prelude.{
  ℕ, Bool, true, false, not, Option, none, some, List, [], ◌∷◌, ◌==◌, if◌then◌else◌,
}
use conpot.Prelude.Bytes.{Result, ok, err, assertion_error, guard, ◌>>=◌, ◌>>◌}
use conpot.Prelude.Dict.{Dict, get, has, put}
use conpot.Prelude.{nat_eq}
use conpot.Kamstrup.Messages.{Request, get_registers, request_unknown, Register}

pub record Responder : Type 0 where
  pub registers : Dict ℕ Register
  pub communication_address : ℕ

-- The loop of the constructor over the template's registers.
unfoldable pub add_registers : List Register → Dict ℕ Register → Result (Dict ℕ Register)
add_registers [] registers = ok registers
add_registers (r ∷ rs) registers = do
  guard (not (has r.name registers)) assertion_error
  add_registers rs (put r.name r registers)

unfoldable pub configure : ℕ → List Register → Result Responder
unfolding add_registers
configure communication_address template = do
  registers ← add_registers template []
  ok (record { registers = registers; communication_address = communication_address })

-- The loop over `request.registers`: registers that the meter does not have are left out.
unfoldable pub known_registers : Dict ℕ Register → List ℕ → List Register
known_registers registers [] = []
known_registers registers (n ∷ ns) =
    let rest = known_registers registers ns in
    elim (get n registers) [ none ↦ rest | some r ↦ r ∷ rest ]

abbrev pub address_of : Request → ℕ
address_of (get_registers a _ _) = a
address_of (request_unknown a _ _) = a

-- The registers of a response; `none` is the answer `None`.
unfoldable pub respond : Responder → Request → Result (Option (List Register))
unfolding known_registers
respond c request =
    if not (address_of request == c.communication_address) then ok none else elim request [
      | get_registers _ _ registers ↦ ok (some (known_registers c.registers registers))
      | request_unknown _ _ _ ↦ err assertion_error
    ]
